-- ===== src/Dashboard/Laws.antt =====
-- bridge/dashboard/auth.py: passwords, locks and sessions.
use tg_bale_bridge.Prelude.{
  ltb, leb, if◌then◌else◌, Bool-cases, length, Text, text_eq, text_eq_refl, ℕ, ◌+◌, ◌≤◌, ◌<◌, ◌≡◌,
  refl, inl, inr, true, false, not, ◌&&◌, some, List, [], ◌∷◌, arith,
}
use tg_bale_bridge.Prelude.Dict.{assign, keep, get-pop, get-assign}
use tg_bale_bridge.Dashboard.{
  pbkdf_iters, max_fails, lock_seconds, session_ttl, Auth, username, set_credentials,
  change_password, verify, fails_of, check_lock, register_fail, reset_fails, create_session,
  is_valid, drop_session,
}

module _ (pbkdf2 : Text → Text → ℕ → Text) where
  -- After credentials are set, exactly that user gets in, with the passwords of the same hash.
  verify-set_credentials :
      (user password salt user' password' : Text) (a : Auth)
      → verify pbkdf2 user' password' (set_credentials pbkdf2 user password salt a) ≡ (
          text_eq user' user
          && text_eq (pbkdf2 password' salt pbkdf_iters) (pbkdf2 password salt pbkdf_iters))
  unfolding verify set_credentials
  verify-set_credentials user password salt user' password' a = refl

  -- A password of at least six characters is taken: the user name stays, and the user gets in with
  -- the new password.
  change_password_taken :
      (new salt : Text) (a : Auth)
      → 6 ≤ length new
      → (a' : Auth) × (change_password pbkdf2 new salt a ≡ some a')
        × (username a' ≡ username a)
        × (verify pbkdf2 (username a) new a' ≡ true)
  unfolding change_password verify set_credentials username
  change_password_taken new salt a h = (
    set_credentials pbkdf2 (username a) new salt a,
    ground arith,
    refl,
    ground (arith, text_eq_refl (username a), text_eq_refl (pbkdf2 new salt pbkdf_iters)),
  )

-- Failures at these times, one after the other.
abbrev pub register_all : Text → List ℕ → Auth → Auth
register_all ip [] a = a
register_all ip (t ∷ ts) a = register_all ip ts (register_fail t ip a)

abbrev capped : ℕ → ℕ
capped n = if leb max_fails n then max_fails else n

fails-register_fail :
    (t : ℕ) (ip : Text) (a : Auth)
    → (fails_of ip (register_fail t ip a)).0 ≡ capped ((fails_of ip a).0 + 1)
unfolding fails_of register_fail
fails-register_fail t ip a = ground (
  arith,
  text_eq_refl ip,
  get-assign ip ip (max_fails, t + lock_seconds) a.fails,
  get-assign ip ip ((fails_of ip a).0 + 1, (fails_of ip a).1) a.fails,
)

fails-register_all :
    (ip : Text) (ts : List ℕ) (a : Auth)
    → (fails_of ip a).0 ≤ max_fails
    → (fails_of ip (register_all ip ts a)).0 ≡ capped ((fails_of ip a).0 + length ts)
fails-register_all ip [] a h = ground arith
fails-register_all ip (t ∷ ts) a h =
    let first = fails-register_fail t ip a in
    ground (arith, fails-register_all ip ts (register_fail t ip a))

locked_by :
    (now t : ℕ) (ip : Text) (a : Auth)
    → 4 ≤ (fails_of ip a).0
    → check_lock now ip (register_fail t ip a) ≡ ltb now (t + lock_seconds)
unfolding fails_of register_fail check_lock
locked_by now t ip a h =
    ground (arith, text_eq_refl ip, get-assign ip ip (max_fails, t + lock_seconds) a.fails)

not_locked : (now : ℕ) (ip : Text) (a : Auth) → (fails_of ip a).0 < 5 → check_lock now ip a ≡ false
unfolding fails_of check_lock
not_locked now ip a h = ground arith

-- An address without failures is not locked by fewer than five; the fifth and every later
-- failure locks it for sixty seconds from then on.
pub check_lock-register_all :
    (ip : Text) (ts : List ℕ) (t now : ℕ) (a : Auth)
    → (fails_of ip a).0 ≡ 0
    → check_lock now ip (register_fail t ip (register_all ip ts a))
      ≡ (leb 4 (length ts) && ltb now (t + lock_seconds))
check_lock-register_all ip ts t now a h =
    let before = fails-register_all ip ts a (omega arith) in
    let after = fails-register_fail t ip (register_all ip ts a) in
    elim (Bool-cases (leb 4 (length ts))) [
      | inl many ↦ rw (many, locked_by now t ip (register_all ip ts a) (ground arith)) refl
      | inr few ↦
          rw (few, not_locked now ip (register_fail t ip (register_all ip ts a)) (ground arith))
            refl
    ]

-- A reset takes the failures of the address back, and leaves every other address alone.
fails_of-reset_fails :
    (ip ip' : Text) (a : Auth)
    → fails_of ip' (reset_fails ip a) ≡ (if text_eq ip ip' then (0, 0) else fails_of ip' a)
unfolding fails_of reset_fails
fails_of-reset_fails ip ip' a = ground (arith, get-pop ip ip' a.fails)

-- A session is valid for seven days from its creation, and not after a logout.
pub is_valid-create_session :
    (now later : ℕ) (token : Text) (a : Auth)
    → ((is_valid later token (create_session now token a)).0 ≡ leb later (now + session_ttl))
      × ((is_valid later token (drop_session token (create_session now token a))).0 ≡ false)
unfolding is_valid create_session drop_session
is_valid-create_session now later token a =
    let kept = keep (λ exp. not (ltb exp now)) a.sessions in
    let made = assign token (now + session_ttl) kept in
    (
      ground (arith, text_eq_refl token, get-assign token token (now + session_ttl) kept),
      ground (arith, text_eq_refl token, get-pop token token made),
    )
