-- ===== src/AppCfg.antt =====
-- bridge/appcfg: the settings from the environment (envparse.py, sections.py, paths.py), and what is
-- wrong with them (validator.py). `load_dotenv`, the form of absolute paths and the folders that are
-- made are left out: the environment is a dictionary, and the data folder its resolved path. A number
-- with a fraction stays the text that it is; `is_float` says which texts `float` reads. `int` reads
-- ASCII digits here.
pub mod Laws
use tg_bale_bridge.Prelude.{
  ◌==◌, if◌then◌else◌, any, null, Text, codes, text_eq, strip, rstrip_char, ℕ, Bool, true, false,
  not, ◌&&◌, ◌||◌, Option, none, some, List, [], ◌∷◌, ◌++◌,
}
use tg_bale_bridge.Prelude.Int.{ℤ, pos, int_eq, int_of}
use tg_bale_bridge.Prelude.Dict.{Dict, get}
use tg_bale_bridge.Db.Pairs.{lower}

abbrev pub Environ : Type 0
Environ = Dict Text

abbrev value_or : {A : Type 0} → A → Option A → A
value_or d none = d
value_or d (some v) = v

unfoldable pub stripped : Environ → Text → Text → Text
stripped env key default = strip (value_or default (get key env))

abbrev int_or : ℤ → Text → ℤ
int_or default [] = default
int_or default (c ∷ cs) = value_or default (int_of (c ∷ cs))

-- `int_of`
unfoldable pub int_setting : Environ → Text → ℤ → ℤ
unfolding stripped
int_setting env key default = int_or default (stripped env key [])

abbrev float_or : (Text → Bool) → Text → Text → Text
float_or is_float default [] = default
float_or is_float default (c ∷ cs) = if is_float (c ∷ cs) then c ∷ cs else default

-- `float_of`
float_setting : (Text → Bool) → Environ → Text → Text → Text
unfolding stripped
float_setting is_float env key default = float_or is_float default (stripped env key [])

abbrev is_off : Text → Bool
is_off t = text_eq t (codes "0") || text_eq t (codes "false") || text_eq t (codes "no")

flag : Environ → Text → Text → Bool
unfolding stripped lower
flag env key default = not (is_off (lower (stripped env key default)))

-- `n or default`
abbrev pub nonzero_or : ℤ → ℤ → ℤ
nonzero_or default n = if int_eq n (pos 0) then default else n

pub record Settings : Type 0 where
  pub tg_api_id : ℤ
  pub tg_api_hash : Text
  pub tg_phone : Text
  pub bale_token : Text
  pub bale_api_base : Text
  pub admin_bale_id : ℤ
  pub bale_mode : Text
  pub bale_session : Text
  pub bale_phone : Text
  pub tg_bot_token : Text
  pub tg_bot_api_base : Text
  pub admin_tg_id : ℤ
  pub album_delay : Text
  pub bale_poll_timeout : ℤ
  pub dash_enabled : Bool
  pub dash_host : Text
  pub dash_port : ℤ
  pub db_path : Text
  pub session_path : Text

-- The sections of the environment, and the paths below the data folder.
unfoldable pub load : (Text → Bool) → Environ → Text → Settings
unfolding stripped int_setting float_setting flag lower
load is_float env data_dir = record {
  tg_api_id = int_setting env (codes "TG_API_ID") (pos 0);
  tg_api_hash = stripped env (codes "TG_API_HASH") [];
  tg_phone = stripped env (codes "TG_PHONE") [];
  bale_token = stripped env (codes "BALE_TOKEN") [];
  bale_api_base =
      rstrip_char b'/' (stripped env (codes "BALE_API_BASE") (codes "https://tapi.bale.ai"));
  admin_bale_id = int_setting env (codes "ADMIN_BALE_ID") (pos 0);
  bale_mode = lower (stripped env (codes "BALE_MODE") (codes "bot"));
  bale_session = stripped env (codes "BALE_SESSION") (data_dir ++ codes "/session");
  bale_phone = stripped env (codes "BALE_PHONE") [];
  tg_bot_token = stripped env (codes "TG_BOT_TOKEN") [];
  tg_bot_api_base =
      rstrip_char b'/' (stripped env (codes "TG_BOT_API_BASE") (codes "https://api.telegram.org"));
  admin_tg_id = int_setting env (codes "ADMIN_TG_ID") (pos 0);
  album_delay = float_setting is_float env (codes "ALBUM_DELAY") (codes "0.9");
  bale_poll_timeout = nonzero_or (pos 30) (int_setting env (codes "BALE_POLL_TIMEOUT") (pos 30));
  dash_enabled = flag env (codes "DASH_ENABLED") (codes "1");
  dash_host = stripped env (codes "DASH_HOST") (codes "0.0.0.0");
  dash_port = nonzero_or (pos 8080) (int_setting env (codes "DASH_PORT") (pos 8080));
  db_path = data_dir ++ codes "/bridge.db";
  session_path = data_dir ++ codes "/tg";
}

-- What `ValidatorEngine` complains of.
pub data Problem : Type 0 where
  no_tg_api no_bale_token : Problem
  bad_mode no_bale_session : Text → Problem

abbrev is_slash : ℕ → Bool
is_slash c = c == b'/'

-- A path without the suffix of its last part, given the character before; none if it has no suffix.
unfoldable pub stem : ℕ → Text → Option Text
stem before [] = none
stem before (c ∷ cs) = elim (stem c cs) [
  | some s ↦ some (c ∷ s)
  | none ↦
      if c == b'.' && (not (is_slash before) && (not (null cs) && not (any is_slash cs)))
      then some []
      else none
]

abbrev or_whole : Text → Option Text → Text
or_whole p none = p
or_whole p (some s) = s

-- `p if p.suffix == ".bale" else p.with_suffix(".bale")`, of a path that is not empty.
unfoldable pub bale_session_file : Text → Text
unfolding stem
bale_session_file p = or_whole p (stem b'/' p) ++ codes ".bale"

abbrev pub user_mode : Text
user_mode = codes "user"

abbrev pub bot_mode : Text
bot_mode = codes "bot"

abbrev when : Bool → Problem → List Problem
when true p = p ∷ []
when false p = []

-- `ValidatorEngine.run`; `exists` says which files are there.
unfoldable pub problems : (Text → Bool) → Settings → List Problem
unfolding bale_session_file
problems exists v =
    when (int_eq v.tg_api_id (pos 0) || null v.tg_api_hash) no_tg_api
    ++ (when (not (text_eq v.bale_mode bot_mode || text_eq v.bale_mode user_mode))
          (bad_mode v.bale_mode)
        ++ (when (text_eq v.bale_mode bot_mode && null v.bale_token) no_bale_token
            ++ when
                (text_eq v.bale_mode user_mode && not (exists (bale_session_file v.bale_session)))
                (no_bale_session (bale_session_file v.bale_session))))
