-- ===== src/Web/Api.antt =====
-- bridge/dashboard/api.py: the requests, with the middlewares of bridge/dashboard/app.py. aiohttp
-- parses a request, and reads HEAD as GET.
use tg_bale_bridge.Prelude.{
  ◌==◌, if◌then◌else◌, drop, any, Text, codes, text_eq, starts_with, ℕ, ◌⊎◌, inl, inr, Bool, true,
  false, not, ◌&&◌, Option, none, some, List, [], ◌∷◌,
}
use tg_bale_bridge.Db.{Mode, PairRow}
use tg_bale_bridge.Db.Pairs.{list_pairs, stats}
use tg_bale_bridge.Dashboard.{
  Auth, username, change_password, verify, check_lock, register_fail, reset_fails, create_session,
  is_valid, drop_session,
}
use tg_bale_bridge.Admin.{Panel, db_of}
use tg_bale_bridge.Web.{
  Ctx, Answer, done, failed, add, change_mode, remove, pause, resume, log_tail, access_state,
  promote_bot,
}

pub data Method : Type 0 where
  get post patch delete other_method : Method

-- The fields that the handlers read from a JSON body, as texts.
pub record Body : Type 0 where
  pub user : Text
  pub password : Text
  pub new : Text
  pub tg : Text
  pub bale : Text
  pub mode : Text

-- No body stands for one that is no JSON object.
pub record Request : Type 0 where
  pub method : Method
  pub path : Text
  pub requested_with : Text
  pub session : Text
  pub remote : Text
  pub body : Option Body
  pub lines : Text

pub data Route : Type 0 where
  index login logout change_pw status pairs new_pair pause_it resume_it logs access promote : Route
  patch_pair delete_pair : Text → Route

-- The status and what comes with it; a login also sets the cookie.
pub data Response : Type 0 where
  page : Response
  http_error json_err : ℕ → Response
  json_ok : Response
  logged_in : Text → Text → Response
  status_json : Bool → ℕ × ℕ → ℕ → Text → Response
  pairs_json : List PairRow → Response
  pair_json : ℕ → Response
  mode_json : Mode → Response
  paused_json : Bool → Response
  lines_json : List Text → Response

-- The part of a path behind "/api/pairs/", if it is one segment.
abbrev segment : Text → Option Text
segment [] = none
segment (c ∷ cs) = if any (λ d. d == b'/') (c ∷ cs) then none else some (c ∷ cs)

unfoldable pub pair_segment : Text → Option Text
pair_segment path = if starts_with path (codes "/api/pairs/") then segment (drop 11 path) else none

abbrev pub only : Method → Method → Route → ℕ ⊎ Route
only get get r = inr r
only post post r = inr r
only _ _ r = inl 405

abbrev pub pair_route : Method → Option Text → ℕ ⊎ Route
pair_route m none = inl 404
pair_route patch (some pid) = inr (patch_pair pid)
pair_route delete (some pid) = inr (delete_pair pid)
pair_route get (some pid) = inl 405
pair_route post (some pid) = inl 405
pair_route other_method (some pid) = inl 405

abbrev pub pairs_route : Method → ℕ ⊎ Route
pairs_route get = inr pairs
pairs_route post = inr new_pair
pairs_route _ = inl 405

-- `routes()`: the status of the error if there is no route.
unfoldable pub route_of : Method → Text → ℕ ⊎ Route
unfolding pair_segment
route_of m path =
    if text_eq path (codes "/")
    then only m get index
    else if text_eq path (codes "/api/login")
    then only m post login
    else if text_eq path (codes "/api/logout")
    then only m post logout
    else if text_eq path (codes "/api/passwd")
    then only m post change_pw
    else if text_eq path (codes "/api/status")
    then only m get status
    else if text_eq path (codes "/api/pairs")
    then pairs_route m
    else if text_eq path (codes "/api/pause")
    then only m post pause_it
    else if text_eq path (codes "/api/resume")
    then only m post resume_it
    else if text_eq path (codes "/api/logs")
    then only m get logs
    else if text_eq path (codes "/api/access")
    then only m post access
    else if text_eq path (codes "/api/promote")
    then only m post promote
    else pair_route m (pair_segment path)

abbrev pub changes : Method → Bool
changes post = true
changes patch = true
changes delete = true
changes get = false
changes other_method = false

abbrev pub answer : {A : Type 0} → (A → Response) → Answer A → Response
answer f (done a) = f a
answer f (failed n) = json_err n

-- The response of an engine's answer.
abbrev respond : {A : Type 0} → (A → Response) → Answer A × Panel → Response × Panel
respond f (a, p) = (answer f a, p)

abbrev with_auth : Auth → Panel → Panel
with_auth a p = record p { auth = a }

abbrev pub is_login : Text → Bool
is_login path = text_eq path (codes "/api/login")

-- CSRF_VALUE
abbrev pub is_forged : Request → Bool
is_forged r =
    changes r.method
    && (not (is_login r.path) && not (text_eq r.requested_with (codes "XMLHttpRequest")))

abbrev pub needs_session : Request → Bool
needs_session r = starts_with r.path (codes "/api") && not (is_login r.path)

module _ (ctx : Ctx) (now : ℕ) where
  abbrev pub let_in : Text → Bool → Panel → Response × Panel
  let_in ip false p = (json_err 401, with_auth (register_fail now ip p.auth) p)
  let_in ip true p = (
    logged_in (username p.auth) ctx.new_token,
    with_auth (create_session now ctx.new_token (reset_fails ip p.auth)) p,
  )

  abbrev pub login_with : Text → Option Body → Panel → Response × Panel
  login_with ip none p = (json_err 500, p)
  login_with ip (some b) p = let_in ip (verify ctx.desk.pbkdf2 b.user b.password p.auth) p

  unfoldable pub log_in : Request → Panel → Response × Panel
  log_in r p =
      if check_lock now r.remote p.auth then (json_err 429, p) else login_with r.remote r.body p

  abbrev changed_pw : Option Auth → Panel → Response × Panel
  changed_pw none p = (json_err 400, p)
  changed_pw (some a) p = (json_ok, with_auth a p)

  abbrev change_pw_with : Option Body → Panel → Response × Panel
  change_pw_with none p = (json_err 500, p)
  change_pw_with (some b) p =
      changed_pw (change_password ctx.desk.pbkdf2 b.new (ctx.desk.new_salt p.looked_up) p.auth) p

  abbrev new_pair_with : Option Body → Panel → Response × Panel
  new_pair_with none p = (json_err 500, p)
  new_pair_with (some b) p = respond pair_json (add ctx b.tg b.bale b.mode p)

  abbrev patch_with : Text → Option Body → Panel → Response × Panel
  patch_with pid none p = (json_err 500, p)
  patch_with pid (some b) p = respond mode_json (change_mode ctx pid b.mode p)

  -- `StatusEngine.snapshot`, without the names of the accounts.
  abbrev snapshot : Panel → Response
  snapshot p =
      status_json (ctx.has_bridge && p.bridge.paused) (stats (db_of p)) ctx.uptime_s
        (username p.auth)

  unfoldable pub run_route : Route → Request → Panel → Response × Panel
  unfolding log_in
  run_route index r p = (page, p)
  run_route login r p = log_in r p
  run_route logout r p = (json_ok, with_auth (drop_session r.session p.auth) p)
  run_route change_pw r p = change_pw_with r.body p
  run_route status r p = (snapshot p, p)
  run_route pairs r p = (pairs_json (list_pairs (db_of p)), p)
  run_route new_pair r p = new_pair_with r.body p
  run_route (patch_pair pid) r p = patch_with pid r.body p
  run_route (delete_pair pid) r p = respond (λ _. json_ok) (remove ctx pid p)
  run_route pause_it r p = respond (λ _. paused_json true) (pause ctx p)
  run_route resume_it r p = respond (λ _. paused_json false) (resume ctx p)
  run_route logs r p = (answer lines_json (log_tail ctx r.lines), p)
  run_route access r p = (answer (λ _. json_ok) (access_state ctx p), p)
  run_route promote r p = (answer (λ _. json_ok) (promote_bot ctx ctx.has_bot), p)

  abbrev pub run_found : ℕ ⊎ Route → Request → Panel → Response × Panel
  run_found (inl n) r p = (http_error n, p)
  run_found (inr route) r p = run_route route r p

  abbrev pub checked : Bool × Auth → Request → Panel → Response × Panel
  checked (true, a) r p = run_found (route_of r.method r.path) r (with_auth a p)
  checked (false, a) r p = (json_err 401, with_auth a p)

  -- `security_mw` around the handler, in `error_mw`.
  unfoldable pub respond_to : Request → Panel → Response × Panel
  unfolding route_of
  respond_to r p =
      if is_forged r
      then (json_err 403, p)
      else if needs_session r
      then checked (is_valid now r.session p.auth) r p
      else run_found (route_of r.method r.path) r p
