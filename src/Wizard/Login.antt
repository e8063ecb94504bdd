-- ===== src/Wizard/Login.antt =====
-- bridge/tguser/login.py, bridge/tguser/gateway.py (`resolve_credentials`), bridge/bale/login.py
-- (without the console), bridge/runcfg/readiness.py, and the accounts of bridge/wizard/accounts.py.
use tg_bale_bridge.Prelude.{
  if◌then◌else◌, null, Text, codes, ℕ, Bool, true, false, not, ◌&&◌, ◌||◌, Option, none, some, [],
  ◌∷◌,
}
use tg_bale_bridge.Prelude.Int.{ℤ, pos, int_eq}
use tg_bale_bridge.Prelude.Dict.{get, pop, assign}
use tg_bale_bridge.Db.{Database}
use tg_bale_bridge.RunCfg.{Value, null_value, api_entry, get_json}
use tg_bale_bridge.Wizard.{
  connect_authorized, send_code_request, sign_in_code, sign_in_password, get_me, disconnect,
  start_phone_auth, validate_code, start_bale_user, check_bale_bot, SignIn, signed_in,
  password_needed, sign_in_refused, Outside, PendingLogin, Wiz, W, pure, ◌>>=◌, ◌>>◌, or_else,
  modify, gets, ask, query, chat_key,
}

-- The answers of the engines; the texts beside them are left out.
pub data LoginResult : Type 0 where
  login_ok login_needs_password login_failed : LoginResult

abbrev or_int : ℤ → ℤ → ℤ
or_int a b = if int_eq a (pos 0) then b else a

abbrev pub or_text : Text → Text → Text
or_text [] b = b
or_text (c ∷ cs) b = c ∷ cs

abbrev id_of : Option ℕ → ℤ
id_of none = pos 0
id_of (some n) = pos n

abbrev saved_id : Value → ℤ
saved_id (api_entry id hash) = id
saved_id _ = pos 0

abbrev saved_hash : Value → Text
saved_hash (api_entry id hash) = hash
saved_hash _ = []

abbrev is_stored : Value → Bool
is_stored null_value = false
is_stored _ = true

module _ (dumps : Value → Text) (loads : Text → Option Value) (env : Outside) where
  abbrev pub stored : Text → Wiz → Value
  stored key w = get_json dumps loads key null_value w.db

  abbrev pub store : (Database → Database) → W (Unit {0})
  store f = modify (λ w. record w { db = f w.db })

  -- What the wizard was told, then the configuration, then the store.
  resolve_credentials : Option ℕ → Text → Wiz → ℤ × Text
  resolve_credentials api_id api_hash w = (
    or_int (or_int (id_of api_id) w.cfg_api_id) (saved_id (stored (codes "tg_api") w)),
    or_text api_hash (or_text w.cfg_api_hash (saved_hash (stored (codes "tg_api") w))),
  )

  -- The code hash of a new code, or none for a client that is logged in already.
  unfoldable pub new_code : Text → Bool → W (Option Text)
  new_code phone authorized =
      if authorized then pure none else ask env.send_code (send_code_request phone)

  abbrev wait_for_code : ℤ → Text → Option Text → W (Unit {0})
  wait_for_code c phone hash = modify (λ w. record w {
    tg_pending = assign (chat_key c) (record { phone = phone; code_hash = hash }) w.tg_pending;
  })

  abbrev pub start_waiting : ℤ → Text → Option (Option Text) → W Bool
  start_waiting c phone none = pure false
  start_waiting c phone (some h) = do wait_for_code c phone h; pure true

  abbrev pub request_with : ℤ → Text → ℤ × Text → W Bool
  request_with c phone (aid, ahash) = if int_eq aid (pos 0) || null ahash then pure false else (do
    modify (λ w. record w { cfg_api_id = aid; cfg_api_hash = ahash })
    authorized ← ask env.authorized (connect_authorized aid ahash)
    sent ← or_else none (new_code phone authorized >>= λ h. pure (some h))
    start_waiting c phone sent)

  unfoldable pub request_code : ℤ → Text → Option ℕ → Text → W Bool
  unfolding resolve_credentials new_code
  request_code c phone api_id api_hash = do
    creds ← gets (resolve_credentials api_id api_hash)
    request_with c phone creds

  -- `_finish`: the login is over.
  unfoldable pub finish_login : ℤ → W LoginResult
  finish_login c = do
    ask env.me get_me
    modify
        (λ w. record w { tg_pending = pop (chat_key c) w.tg_pending; asked = disconnect ∷ w.asked })
    pure login_ok

  abbrev pub after_sign_in : ℤ → LoginResult → SignIn → W LoginResult
  after_sign_in c needed signed_in = finish_login c
  after_sign_in c needed password_needed = pure needed
  after_sign_in c needed sign_in_refused = pure login_failed

  abbrev pub sign_in_with : ℤ → Text → Option PendingLogin → W LoginResult
  sign_in_with c code none = pure login_failed
  sign_in_with c code (some p) = do
    r ← query env.sign_in (sign_in_code p.phone code p.code_hash)
    after_sign_in c login_needs_password r

  unfoldable pub sign_in : ℤ → Text → W LoginResult
  unfolding finish_login
  sign_in c code = do p ← gets (λ w. get (chat_key c) w.tg_pending); sign_in_with c code p

  -- That a password is needed is an exception like any other here.
  abbrev pub password_with : ℤ → Text → Option PendingLogin → W LoginResult
  password_with c pw none = pure login_failed
  password_with c pw (some p) = do
    r ← query env.sign_in (sign_in_password pw)
    after_sign_in c login_failed r

  unfoldable pub password : ℤ → Text → W LoginResult
  unfolding finish_login
  password c pw = do p ← gets (λ w. get (chat_key c) w.tg_pending); password_with c pw p

  abbrev pub keep_txn : Option Text → W Bool
  keep_txn none = pure false
  keep_txn (some t) = do modify (λ w. record w { bale_txn = some t }); pure true

  -- An exception, an error code and an answer without a transaction all count as a failure.
  unfoldable pub bale_request_code : Text → W Bool
  bale_request_code phone = do
    t ← or_else none (ask env.phone_auth (start_phone_auth phone))
    keep_txn t

  abbrev pub validate_with : Text → Option Text → W Bool
  validate_with code none = pure false
  validate_with code (some t) = do
    valid ← or_else false (ask env.valid_code (validate_code code t))
    (if valid then (do modify (λ w. record w { bale_txn = none }); pure true) else pure false)

  unfoldable pub bale_validate : Text → W Bool
  bale_validate code = do t ← gets (λ w. w.bale_txn); validate_with code t

  -- `has_tg`
  has_tg : Wiz → Bool
  has_tg w =
      not (int_eq (or_int w.cfg_api_id (saved_id (stored (codes "tg_api") w))) (pos 0))
      && (not (null (or_text w.cfg_api_hash (saved_hash (stored (codes "tg_api") w))))
          && env.tg_session_exists w.asked)

  has_bale : Wiz → Bool
  has_bale w =
      is_stored (stored (codes "bale_self") w)
      || is_stored (stored (codes "bale_bot") w)
      || not (null env.bale_token)
      || (env.bale_user_mode && env.bale_session_exists w.asked)

  pub installed : Wiz → Bool
  unfolding has_tg has_bale
  installed w = has_tg w && has_bale w

  -- `check_bale_bot`: the name of the bot, if its token works.
  unfoldable pub check_token : Text → W (Option Text)
  check_token token =
      or_else none (ask env.bot_name (check_bale_bot token) >>= λ name. pure (some name))

  -- `ready_client`
  abbrev pub client_with : ℤ × Text → W Bool
  client_with (aid, ahash) =
      if int_eq aid (pos 0) || null ahash
      then pure false
      else ask env.authorized (connect_authorized aid ahash)

  unfoldable pub ready_client : W Bool
  unfolding has_tg resolve_credentials
  ready_client = do
    ready ← gets has_tg
    creds ← gets (resolve_credentials none [])
    (if ready then client_with creds else pure false)

  -- `api_for_setup`: whether there is a client of the Bale side.
  unfoldable pub api_for_setup : W Bool
  api_for_setup = do
    self ← gets (λ w. is_stored (stored (codes "bale_self") w))
    started ← (if self then query env.user_started start_bale_user else pure false)
    bot ← gets (λ w. is_stored (stored (codes "bale_bot") w))
    pure (started || bot)
