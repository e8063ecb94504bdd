-- ===== src/AppCfg/Laws.antt =====
-- bridge/appcfg: what holds of settings from any environment.
use tg_bale_bridge.Prelude.{
  leb, ◌==◌, All, Text, codes, rstrip_step, rstrip_char, ℕ, ◌≡◌, refl, Bool, true, false, not, ◌&&◌,
  [], ◌∷◌, arith,
}
use tg_bale_bridge.Prelude.Int.{ℤ, pos, int_eq}
use tg_bale_bridge.AppCfg.{Environ, int_setting, nonzero_or, Settings, load}
use tg_bale_bridge.Db.Pairs.{lower}

-- The text does not end in the character.
abbrev ends_otherwise : ℕ → Text → Bool
ends_otherwise x [] = true
ends_otherwise x (c ∷ []) = not (c == x)
ends_otherwise x (c ∷ d ∷ ds) = ends_otherwise x (d ∷ ds)

rstrip_step-ends :
    (x c : ℕ) (t : Text) → ends_otherwise x t ≡ true → ends_otherwise x (rstrip_step x c t) ≡ true
rstrip_step-ends x c [] h = ground arith
rstrip_step-ends x c (d ∷ ds) h = h

rstrip_char-ends : (x : ℕ) (t : Text) → ends_otherwise x (rstrip_char x t) ≡ true
unfolding rstrip_char
rstrip_char-ends x [] = refl
rstrip_char-ends x (c ∷ cs) = rstrip_step-ends x c (rstrip_char x cs) (rstrip_char-ends x cs)

abbrev no_upper : ℕ → Bool
no_upper c = not (leb b'A' c && leb c b'Z')

lower-no_upper : (t : Text) → All (λ c. no_upper c ≡ true) (lower t)
unfolding lower
lower-no_upper [] = tt
lower-no_upper (c ∷ cs) = (ground arith, lower-no_upper cs)

nonzero_lem : (d n : ℤ) → int_eq d (pos 0) ≡ false → int_eq (nonzero_or d n) (pos 0) ≡ false
unfolding int_eq
nonzero_lem d n h = ground (arith, h)

-- Settings that the rest of the program can work with.
pub record IsUsable (v : Settings) : Type 0 where
  pub polls : int_eq v.bale_poll_timeout (pos 0) ≡ false
  pub has_port : int_eq v.dash_port (pos 0) ≡ false
  pub bare_bale_base : ends_otherwise b'/' v.bale_api_base ≡ true
  pub bare_tg_base : ends_otherwise b'/' v.tg_bot_api_base ≡ true
  pub lower_mode : All (λ c. no_upper c ≡ true) v.bale_mode

-- Whatever the environment holds, the timeout of polling and the port of the dashboard are not 0,
-- the addresses of both servers do not end in a slash, and the mode has no ASCII capitals.
load-IsUsable :
    (is_float : Text → Bool) (env : Environ) (data_dir : Text)
    → IsUsable (load is_float env data_dir)
unfolding load int_eq
load-IsUsable is_float env data_dir = record {
  polls = nonzero_lem (pos 30) (int_setting env (codes "BALE_POLL_TIMEOUT") (pos 30)) refl;
  has_port = nonzero_lem (pos 8080) (int_setting env (codes "DASH_PORT") (pos 8080)) refl;
  bare_bale_base = rstrip_char-ends b'/' _;
  bare_tg_base = rstrip_char-ends b'/' _;
  lower_mode = lower-no_upper _;
}
