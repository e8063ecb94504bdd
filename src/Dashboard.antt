-- ===== src/Dashboard.antt =====
-- bridge/dashboard/auth.py: the login of the dashboard. `hashlib.pbkdf2_hmac` is the parameter
-- `pbkdf2`; the random texts and the clock, in whole seconds, are arguments. The record that
-- `store` keeps under "dash_auth" has the four fields with which it is written.
pub mod Laws
use tg_bale_bridge.Prelude.{
  ltb, leb, ◌==◌, if◌then◌else◌, length, any, null, Text, codes, text_eq, ℕ, ◌+◌, ◌*◌, Bool, true,
  false, not, ◌&&◌, ◌||◌, Option, none, some,
}
use tg_bale_bridge.Prelude.Dict.{Dict, get, pop, assign, keep}

abbrev pub pbkdf_iters : ℕ
pbkdf_iters = 100000

abbrev pub max_fails : ℕ
max_fails = 5

abbrev pub lock_seconds : ℕ
lock_seconds = 60

abbrev pub session_ttl : ℕ
session_ttl = 7 * 24 * 3600

pub record Credentials : Type 0 where
  pub user : Text
  pub salt : Text
  pub hash : Text
  pub iters : ℕ

-- `fails` holds [count, lock_until] of an address, `sessions` the expiry of a token.
pub record Auth : Type 0 where
  pub credentials : Option Credentials
  pub sessions : Dict ℕ
  pub fails : Dict (ℕ × ℕ)

abbrev admin_user : Text
admin_user = codes "admin"

abbrev user_of : Option Credentials → Text
user_of none = admin_user
user_of (some c) = c.user

pub username : Auth → Text
username a = user_of a.credentials

module _ (pbkdf2 : Text → Text → ℕ → Text) where
  unfoldable pub set_credentials : Text → Text → Text → Auth → Auth
  set_credentials user password salt a = record a {
    credentials = some record {
      user = user;
      salt = salt;
      hash = pbkdf2 password salt pbkdf_iters;
      iters = pbkdf_iters;
    };
  }

  abbrev ensure_for : Option Credentials → Text → Text → Auth → (Text × Option Text × Bool) × Auth
  ensure_for none password salt a =
      ((admin_user, some password, true), set_credentials admin_user password salt a)
  ensure_for (some c) password salt a = ((c.user, none, false), a)

  pub ensure_credentials : Text → Text → Auth → (Text × Option Text × Bool) × Auth
  ensure_credentials password salt a = ensure_for a.credentials password salt a

  -- `none` is the `AuthError`.
  pub change_password : Text → Text → Auth → Option Auth
  unfolding username
  change_password new salt a =
      if ltb (length new) 6 then none else some (set_credentials (username a) new salt a)

  abbrev with_user : Text → Option Credentials → Option Credentials
  with_user user none = none
  with_user user (some c) = some (record c { user = user })

  pub change_user : Text → Text → Text → Auth → Option Auth
  unfolding ensure_credentials
  change_user user password salt a =
      if null user || any (λ c. c == b' ') user
      then none
      else (let a' = (ensure_credentials password salt a).1 in
          some (record a' { credentials = with_user user a'.credentials }))

  abbrev verify_with : Text → Text → Option Credentials → Bool
  verify_with user password none = false
  verify_with user password (some c) =
      text_eq user c.user && text_eq (pbkdf2 password c.salt c.iters) c.hash

  unfoldable pub verify : Text → Text → Auth → Bool
  verify user password a = verify_with user password a.credentials

abbrev fails_or_zero : Option (ℕ × ℕ) → ℕ × ℕ
fails_or_zero none = (0, 0)
fails_or_zero (some f) = f

-- `self._fails.get(ip, [0, 0])`
unfoldable pub fails_of : Text → Auth → ℕ × ℕ
fails_of ip a = fails_or_zero (get ip a.fails)

unfoldable pub check_lock : ℕ → Text → Auth → Bool
unfolding fails_of
check_lock now ip a = let f = fails_of ip a in leb max_fails f.0 && ltb now f.1

pub register_fail : ℕ → Text → Auth → Auth
unfolding fails_of
register_fail now ip a =
    let f = fails_of ip a in
    record a {
      fails =
          (if leb max_fails (f.0 + 1)
            then assign ip (max_fails, now + lock_seconds) a.fails
            else assign ip (f.0 + 1, f.1) a.fails);
    }

pub reset_fails : Text → Auth → Auth
reset_fails ip a = record a { fails = pop ip a.fails }

-- The sessions that have expired are dropped first.
pub create_session : ℕ → Text → Auth → Auth
create_session now token a = record a {
  sessions = assign token (now + session_ttl) (keep (λ exp. not (ltb exp now)) a.sessions);
}

abbrev valid_until : ℕ → Text → Option ℕ → Auth → Bool × Auth
valid_until now token none a = (false, a)
valid_until now token (some exp) a =
    if ltb exp now then (false, record a { sessions = pop token a.sessions }) else (true, a)

pub is_valid : ℕ → Text → Auth → Bool × Auth
is_valid now token a = valid_until now token (get token a.sessions) a

pub drop_session : Text → Auth → Auth
drop_session token a = record a { sessions = pop token a.sessions }
