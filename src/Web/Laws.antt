-- ===== src/Web/Laws.antt =====
-- bridge/dashboard/api.py: what a request needs to reach the bridge.
use tg_bale_bridge.Prelude.{
  leb, if◌then◌else◌, Bool-cases, length, Text, codes, text_eq, text_eq→eq, starts_with, ℕ, ◌+◌,
  ◌≤◌, ◌<◌, ◌≡◌, refl, ap, ◌∙◌, ◌⊎◌, inl, inr, Bool, true, false, ◌&&◌, Option, none, some, List,
  [], arith,
}
use tg_bale_bridge.Dashboard.{
  lock_seconds, session_ttl, Auth, verify, fails_of, check_lock, register_fail, reset_fails,
  is_valid,
}
use tg_bale_bridge.Dashboard.Laws.{register_all, check_lock-register_all, is_valid-create_session}
use tg_bale_bridge.Transfer.Queueing.{Bridge}
use tg_bale_bridge.Admin.{Panel, db_of}
use tg_bale_bridge.Web.{Ctx}
use tg_bale_bridge.Web.Api.{
  Method, get, post, patch, delete, other_method, Body, Request, Route, index, login, logout,
  change_pw, status, pairs, new_pair, pause_it, resume_it, logs, access, promote, patch_pair,
  delete_pair, Response, json_err, pairs_json, only, route_of, changes, is_login, is_forged,
  needs_session, let_in, login_with, log_in, run_route, run_found, checked, respond_to,
}
use tg_bale_bridge.Db.Pairs.{list_pairs}
use tg_bale_bridge.Web.Routes.{reads_only, route_of-reads, route_of-open}

module _ (ctx : Ctx) (now : ℕ) where
  run_found-reads :
      (f : ℕ ⊎ Route) (r : Request) (p : Panel)
      → reads_only f ≡ true
      → (run_found ctx now f r p).1 ≡ p
  unfolding run_route
  run_found-reads (inl n) r p h = refl
  run_found-reads (inr index) r p h = refl
  run_found-reads (inr status) r p h = refl
  run_found-reads (inr pairs) r p h = refl
  run_found-reads (inr logs) r p h = refl
  run_found-reads (inr login) r p h = cc
  run_found-reads (inr logout) r p h = cc
  run_found-reads (inr change_pw) r p h = cc
  run_found-reads (inr new_pair) r p h = cc
  run_found-reads (inr pause_it) r p h = cc
  run_found-reads (inr resume_it) r p h = cc
  run_found-reads (inr access) r p h = cc
  run_found-reads (inr promote) r p h = cc
  run_found-reads (inr (patch_pair t)) r p h = cc
  run_found-reads (inr (delete_pair t)) r p h = cc

  let_in-bridge : (ip : Text) (b : Bool) (p : Panel) → (let_in ctx now ip b p).1.bridge ≡ p.bridge
  let_in-bridge ip true p = refl
  let_in-bridge ip false p = refl

  login_with-bridge :
      (ip : Text) (o : Option Body) (p : Panel) → (login_with ctx now ip o p).1.bridge ≡ p.bridge
  login_with-bridge ip none p = refl
  login_with-bridge ip (some b) p = let_in-bridge ip _ p

  log_in-bridge : (r : Request) (p : Panel) → (log_in ctx now r p).1.bridge ≡ p.bridge
  unfolding log_in
  log_in-bridge r p = ground (arith, login_with-bridge r.remote r.body p)

  login_method-bridge :
      (m : Method) (r : Request) (p : Panel)
      → (run_found ctx now (only m post login) r p).1.bridge ≡ p.bridge
  unfolding run_route
  login_method-bridge post r p = log_in-bridge r p
  login_method-bridge get r p = refl
  login_method-bridge patch r p = refl
  login_method-bridge delete r p = refl
  login_method-bridge other_method r p = refl

  login_path-bridge :
      (m : Method) (path : Text) (r : Request) (p : Panel)
      → is_login path ≡ true
      → (run_found ctx now (route_of m path) r p).1.bridge ≡ p.bridge
  unfolding route_of text_eq
  login_path-bridge m path r p h =
      rw (text_eq→eq path (codes "/api/login") h) (login_method-bridge m r p)

  bridge-if :
      (b : Bool) (x y : Response × Panel) (q : Bridge)
      → (b ≡ true → x.1.bridge ≡ q)
      → (b ≡ false → y.1.bridge ≡ q)
      → (if b then x else y).1.bridge ≡ q
  bridge-if true x y q hx hy = hx refl
  bridge-if false x y q hx hy = hy refl

  checked-bridge :
      (v : Bool × Auth) (r : Request) (p : Panel)
      → (changes r.method && v.0) ≡ false
      → (checked ctx now v r p).1.bridge ≡ p.bridge
  checked-bridge (false, a) r p h = refl
  checked-bridge (true, a) r p h =
      ap (λ (q : Panel). q.bridge)
        (run_found-reads (route_of r.method r.path) r (record p { auth = a })
          (route_of-reads r.method r.path (ground (arith, h))))

  open-bridge :
      (r : Request) (p : Panel)
      → needs_session r ≡ false
      → (run_found ctx now (route_of r.method r.path) r p).1.bridge ≡ p.bridge
  open-bridge r p h = elim (Bool-cases (is_login r.path)) [
    | inl e ↦ login_path-bridge r.method r.path r p e
    | inr e ↦
        ap (λ (q : Panel). q.bridge)
          (run_found-reads (route_of r.method r.path) r p
            (route_of-open r.method r.path (ground (arith, h, e))))
  ]

  -- Unless a request has a method that changes state (POST, PATCH or DELETE), the header of the
  -- page and a session that is valid, it leaves the bridge of the panel as it was, whatever its
  -- path and body are.
  pub respond_to-Guarded :
      (r : Request) (p : Panel)
      → (changes r.method
          && (text_eq r.requested_with (codes "XMLHttpRequest")
              && (is_valid now r.session p.auth).0))
        ≡ false
      → (respond_to ctx now r p).1.bridge ≡ p.bridge
  unfolding respond_to
  respond_to-Guarded r p h =
      bridge-if (is_forged r) _ _ p.bridge (λ _. refl)
        (λ own.
          bridge-if (needs_session r) _ _ p.bridge
            (λ inside.
              checked-bridge (is_valid now r.session p.auth) r p (ground (arith, h, own, inside)))
            (λ outside. open-bridge r p outside))

-- A look at the pairs.
abbrev pub view : Text → Request
view token = record {
  method = get;
  path = codes "/api/pairs";
  requested_with = [];
  session = token;
  remote = [];
  body = none;
  lines = [];
}

module _ (ctx : Ctx) where
  checked-view :
      (later : ℕ) (token : Text) (v : Bool × Auth) (p : Panel)
      → (checked ctx later v (view token) p).0
        ≡ (if v.0 then pairs_json (list_pairs (db_of p)) else json_err 401)
  unfolding route_of run_route text_eq
  checked-view later token (true, a) p = refl
  checked-view later token (false, a) p = refl

  -- After a login from an address that is not locked, with the right user and password, a
  -- request for the pairs with the cookie of the login is answered with the pairs of the
  -- database up to seven days later, and with 401 after that.
  pub respond_to-log_in :
      (now later : ℕ) (r : Request) (b : Body) (p : Panel)
      → r.body ≡ some b
      → check_lock now r.remote p.auth ≡ false
      → verify ctx.desk.pbkdf2 b.user b.password p.auth ≡ true
      → (respond_to ctx later (view ctx.new_token) (log_in ctx now r p).1).0 ≡ (
          if leb later (now + session_ttl) then pairs_json (list_pairs (db_of p)) else json_err 401)
  unfolding respond_to log_in text_eq starts_with
  respond_to-log_in now later r b p hb hl hv =
      rw (hl, hb, hv)
        (checked-view later ctx.new_token _ _
          ∙ ap (λ v. if v then pairs_json (list_pairs (db_of p)) else json_err 401)
              (is_valid-create_session now later ctx.new_token (reset_fails r.remote p.auth)).0)

  log_in-locked :
      (ts : List ℕ) (t now : ℕ) (r : Request) (p : Panel)
      → (fails_of r.remote p.auth).0 ≡ 0
      → 4 ≤ length ts
      → now < t + lock_seconds
      → let p' : Panel = record p {
        auth = register_fail t r.remote (register_all r.remote ts p.auth);
      } in
        log_in ctx now r p' ≡ (json_err 429, p')
  unfolding log_in
  log_in-locked ts t now r p h0 h4 hn =
      rw (check_lock-register_all r.remote ts t now p.auth h0) (ground arith)
