-- ===== src/Admin/Commands.antt =====
-- bridge/admin/pairs_cmds.py, control_cmds.py, dash_cmds.py, ops_cmds.py (`promote`) and
-- system_cmds.py (without the names of the accounts).
use tg_bale_bridge.Prelude.{
  ltb, ◌==◌, if◌then◌else◌, length, drop, select, any, null, Text, codes, strip, ℕ, Bool, true,
  false, ◌||◌, Option, none, some, List, [], ◌∷◌, ◌++◌, map,
}
use tg_bale_bridge.Db.{Mode, both, PairRow}
use tg_bale_bridge.Db.Pairs.{add_pair, remove_pair, list_pairs, get_pair, set_mode, stats}
use tg_bale_bridge.Db.Meta.{set_meta}
use tg_bale_bridge.Dashboard.{Auth, ensure_credentials, change_password, change_user}
use tg_bale_bridge.LogBuf.{Ring, tail}
use tg_bale_bridge.Transfer.Exec.{Env, ok, raised, other_error}
use tg_bale_bridge.Transfer.Queueing.{set_paused}
use tg_bale_bridge.Wizard.Conversation.{api_id_of}
use tg_bale_bridge.Admin.{
  Reply, add_usage, bad_mode, remove_usage, mode_usage, test_usage, no_such_pair, no_pairs_yet,
  pair_added, pair_removed, paused_text, resumed_text, mode_changed, pair_lines, test_result,
  status_text, log_lines, no_log, no_lines_yet, access_report, no_user_client, promote_usage,
  promoted, dashboard_off, passwd_usage, passwd_changed, dashuser_usage, dashboard_at,
  dashuser_changed, Desk, P, pure, continue, ◌>>=◌, ◌>>◌, db_of, with_world, with_db, read, change,
  query, look_up,
}
use tg_bale_bridge.Admin.Parsing.{mode_named, parse_pair_id, fmt_duration}
use tg_bale_bridge.Admin.Trial.{test_pair}

abbrev first_arg : List Text → Text
first_arg [] = []
first_arg (a ∷ args) = a

module _ (env : Env) (desk : Desk) where
  abbrev add_with : Text → Text → Option Mode → P Reply
  add_with tg_ref bale_ref none = pure bad_mode
  add_with tg_ref bale_ref (some m) = do
    t ← look_up desk.resolve_tg (strip tg_ref)
    b ← look_up desk.resolve_bale (strip bale_ref)
    n ← query (add_pair t.id t.label t.username b.id b.label b.username m)
    pure (pair_added n m)

  pub add : List Text → P Reply
  add [] = pure add_usage
  add (t ∷ []) = pure add_usage
  add (t ∷ b ∷ []) = add_with t b (some both)
  add (t ∷ b ∷ m ∷ args) = add_with t b (mode_named m)

  abbrev remove_with : Option ℕ → P Reply
  remove_with none = pure remove_usage
  remove_with (some n) = do
    done ← query (remove_pair n)
    pure (if done then pair_removed else no_such_pair)

  unfoldable pub remove : List Text → P Reply
  remove [] = pure remove_usage
  remove (a ∷ args) = remove_with (parse_pair_id a)

  abbrev mode_with : Option ℕ → Option Mode → P Reply
  mode_with none m = pure mode_usage
  mode_with (some n) none = pure bad_mode
  mode_with (some n) (some m) = do
    done ← query (set_mode n m)
    pure (if done then mode_changed n m else no_such_pair)

  unfoldable pub mode : List Text → P Reply
  mode [] = pure mode_usage
  mode (a ∷ []) = pure mode_usage
  mode (a ∷ m ∷ args) = mode_with (parse_pair_id a) (mode_named m)

  abbrev lines_of : List PairRow → Reply
  lines_of [] = no_pairs_yet
  lines_of (r ∷ rs) = pair_lines (r ∷ rs)

  pub list : P Reply
  list = read (λ p. lines_of (list_pairs (db_of p)))

  abbrev mark_paused : Bool → Text → P (Unit {0})
  mark_paused value stored = do
    change (λ p. record p { bridge = set_paused value p.bridge })
    change (λ p. with_db (set_meta (db_of p) (codes "paused") stored) p)

  unfoldable pub pause : P Reply
  pause = do mark_paused true (codes "1"); pure paused_text

  pub resume : P Reply
  resume = do mark_paused false (codes "0"); pure resumed_text

  abbrev test_found : Option PairRow → P Reply
  test_found none p = (ok no_such_pair, p)
  test_found (some r) p =
      let (answer, w) = test_pair env r p.bridge.world in
      continue (λ done. pure (test_result done)) (answer, with_world w p)

  abbrev test_with : Option ℕ → P Reply
  test_with none = pure test_usage
  test_with (some n) = do found ← read (λ p. get_pair n (db_of p)); test_found found

  pub test : List Text → P Reply
  test [] = pure test_usage
  test (a ∷ args) = test_with (parse_pair_id a)

  abbrev created_or_not : (Text × Option Text × Bool) × Auth → P Reply
  created_or_not ((user, password, created), a) = do
    change (λ p. record p { auth = a })
    pure (dashboard_at user password)

  pub dashboard : P Reply
  dashboard = do
    created ← read (λ p.
        ensure_credentials desk.pbkdf2 (desk.new_password p.looked_up) (desk.new_salt p.looked_up)
          p.auth)
    (if desk.dash_enabled then created_or_not created else pure dashboard_off)

  -- `none` is the `AuthError`.
  abbrev with_auth : Reply → Option Auth → P Reply
  with_auth r none p = (raised other_error, p)
  with_auth r (some a) p = (ok r, record p { auth = a })

  pub passwd : List Text → P Reply
  passwd args = do
    changed ←
        read (λ p. change_password desk.pbkdf2 (first_arg args) (desk.new_salt p.looked_up) p.auth)
    (if ltb (length (first_arg args)) 6
        then pure passwd_usage
        else with_auth passwd_changed changed)

  pub dashuser : List Text → P Reply
  dashuser args = do
    changed ← read (λ p.
        change_user desk.pbkdf2 (first_arg args) (desk.new_password p.looked_up)
          (desk.new_salt p.looked_up) p.auth)
    (if null (first_arg args) || any (λ c. c == b' ') (first_arg args)
        then pure dashuser_usage
        else with_auth (dashuser_changed (first_arg args)) changed)

  -- `[p for p in pairs if p["id"] == pid] or pairs`
  abbrev these_or_all : List PairRow → List PairRow → List PairRow
  these_or_all [] all = all
  these_or_all (r ∷ rs) all = r ∷ rs

  abbrev picked : Option ℕ → List Text → List PairRow → List PairRow × Text
  picked none args rows = (rows, first_arg args)
  picked (some n) args rows =
      (these_or_all (select (λ r. r.id == n) rows) rows, first_arg (drop 1 args))

  abbrev add_admins : List Text → Text → List PairRow → List (Text × Bool)
  add_admins before bot [] = []
  add_admins before bot (r ∷ rs) =
      (r.bale_chat_id, desk.add_admin before r.bale_chat_id bot)
      ∷ add_admins (r.bale_chat_id ∷ before) bot rs

  abbrev promote_all : Text → List PairRow → P Reply
  promote_all bot rows p = (
    ok (promoted (add_admins p.looked_up bot rows)),
    record p { looked_up = map (λ (r : PairRow). r.bale_chat_id) rows ++ p.looked_up },
  )

  abbrev promote_in : List PairRow × Text → P Reply
  promote_in ([], bot) = pure no_pairs_yet
  promote_in (r ∷ rs, []) = pure promote_usage
  promote_in (r ∷ rs, c ∷ cs) = promote_all (c ∷ cs) (r ∷ rs)

  -- The arguments are words, so none of them is empty.
  pub promote : List Text → P Reply
  promote args = do
    chosen ← read (λ p. picked (api_id_of (first_arg args)) args (list_pairs (db_of p)))
    (if desk.user_mode then promote_in chosen else pure no_user_client)

  pub access : P Reply
  access = read (λ p. if null (list_pairs (db_of p)) then no_pairs_yet else access_report)

  pub status : P Reply
  status =
      read (λ p.
        status_text p.bridge.paused (stats (db_of p)) (fmt_duration (desk.uptime p.looked_up)))

  abbrev lines_asked : Option ℕ → ℕ
  lines_asked none = 15
  lines_asked (some n) = n

  abbrev shown : List Text → Reply
  shown [] = no_lines_yet
  shown (l ∷ ls) = log_lines (l ∷ ls)

  abbrev log_reply : Option Ring → ℕ → Reply
  log_reply none n = no_log
  log_reply (some ring) n = shown (tail n ring)

  pub logs : List Text → P Reply
  logs args = pure (log_reply desk.log_buffer (lines_asked (api_id_of (first_arg args))))
