-- ===== src/Web.antt =====
-- bridge/dashboard/context.py and engines: what the dashboard does to the bridge. The texts of the
-- errors are left out; the reports on the access to the channels and on the promotion of the bot are
-- the services' work.
pub mod Api
pub mod Routes
pub mod Laws
use tg_bale_bridge.Prelude.{
  ltb, if◌then◌else◌, null, Text, codes, text_eq, strip, ℕ, Bool, true, false, not, ◌&&◌, ◌||◌,
  Option, none, some, List, [], ◌∷◌,
}
use tg_bale_bridge.Prelude.Int.{ℤ, pos, negsuc}
use tg_bale_bridge.Db.{Mode, tg2bale, bale2tg, both}
use tg_bale_bridge.Db.Pairs.{add_pair, remove_pair, list_pairs, set_mode}
use tg_bale_bridge.Db.Meta.{set_meta}
use tg_bale_bridge.LogBuf.{Ring, tail}
use tg_bale_bridge.Transfer.Exec.{Outcome, ok, raised}
use tg_bale_bridge.Transfer.Queueing.{set_paused}
use tg_bale_bridge.Admin.{TgChannel, BaleChannel, Panel, Desk, db_of, with_db}
use tg_bale_bridge.Admin.Parsing.{int_text}

-- `RuntimeCtx`: during the installation there is neither a bridge nor an `Admin`, and of
-- `Panel.bridge` the database only.
pub record Ctx : Type 0 where
  pub desk : Desk
  pub has_admin : Bool
  pub has_bridge : Bool
  pub has_bot : Bool
  pub uptime_s : ℕ
  pub new_token : Text

-- What an engine returns, or the status of its `DashboardError`; 500 for any other exception.
pub data Answer (A : Type 0) : Type 0 where
  done : A → Answer A
  failed : ℕ → Answer A

-- VALID_MODES
valid_mode : Text → Option Mode
valid_mode t =
    if text_eq t (codes "both")
    then some both
    else if text_eq t (codes "tg2bale")
    then some tg2bale
    else if text_eq t (codes "bale2tg")
    then some bale2tg
    else none

module _ (ctx : Ctx) where
  abbrev store_both : TgChannel → Mode → Panel → Outcome BaleChannel → Answer ℕ × Panel
  store_both t m p (raised e) = (failed 400, p)
  store_both t m p (ok b) =
      let (n, d) = add_pair t.id t.label t.username b.id b.label b.username m (db_of p) in
      (done n, with_db d p)

  abbrev find_bale : Text → Mode → Panel → Outcome TgChannel → Answer ℕ × Panel
  find_bale bale_ref m p (raised e) = (failed 400, p)
  find_bale bale_ref m p (ok t) =
      store_both t m (record p { looked_up = bale_ref ∷ p.looked_up })
        (ctx.desk.resolve_bale p.looked_up bale_ref)

  abbrev find_both : Text → Text → Option Mode → Panel → Answer ℕ × Panel
  find_both tg_ref bale_ref none p = (failed 400, p)
  find_both tg_ref bale_ref (some m) p =
      find_bale bale_ref m (record p { looked_up = tg_ref ∷ p.looked_up })
        (ctx.desk.resolve_tg p.looked_up tg_ref)

  -- `PairsEngine.add`
  pub add : Text → Text → Text → Panel → Answer ℕ × Panel
  unfolding valid_mode
  add tg_ref bale_ref m p =
      if not ctx.has_admin
      then (failed 409, p)
      else if null (strip tg_ref) || null (strip bale_ref)
      then (failed 400, p)
      else find_both (strip tg_ref) (strip bale_ref) (valid_mode m) p

  abbrev set_mode_of : Option ℤ → Mode → Panel → Answer Mode × Panel
  set_mode_of none m p = (failed 500, p)
  set_mode_of (some (negsuc n)) m p = (failed 404, p)
  set_mode_of (some (pos n)) m p =
      let (found, d) = set_mode n m (db_of p) in (if found then done m else failed 404, with_db d p)

  abbrev set_valid : Option ℤ → Option Mode → Panel → Answer Mode × Panel
  set_valid n none p = (failed 400, p)
  set_valid n (some m) p = set_mode_of n m p

  -- `PairsEngine.set_mode`
  pub change_mode : Text → Text → Panel → Answer Mode × Panel
  unfolding valid_mode
  change_mode pid m p = set_valid (int_text pid) (valid_mode m) p

  abbrev remove_of : Option ℤ → Panel → Answer (Unit {0}) × Panel
  remove_of none p = (failed 500, p)
  remove_of (some (negsuc n)) p = (failed 404, p)
  remove_of (some (pos n)) p =
      let (found, d) = remove_pair n (db_of p) in
      (if found then done tt else failed 404, with_db d p)

  -- `PairsEngine.remove`
  unfoldable pub remove : Text → Panel → Answer (Unit {0}) × Panel
  remove pid p = remove_of (int_text pid) p

  abbrev mark_paused : Bool → Text → Panel → Answer (Unit {0}) × Panel
  mark_paused value stored p =
      if ctx.has_bridge
      then (let p' : Panel = record p { bridge = set_paused value p.bridge } in
          (done tt, with_db (set_meta (db_of p') (codes "paused") stored) p'))
      else (failed 409, p)

  -- `ControlEngine.pause` and `resume`
  unfoldable pub pause : Panel → Answer (Unit {0}) × Panel
  pause p = mark_paused true (codes "1") p

  pub resume : Panel → Answer (Unit {0}) × Panel
  resume p = mark_paused false (codes "0") p

  abbrev tail_of : Option Ring → ℕ → List Text
  tail_of none n = []
  tail_of (some ring) n = tail n ring

  abbrev lines_asked : Option ℤ → Answer (List Text)
  lines_asked none = failed 500
  lines_asked (some (negsuc n)) = done (tail_of ctx.desk.log_buffer 1)
  lines_asked (some (pos n)) =
      done (tail_of ctx.desk.log_buffer (if ltb n 1 then 1 else if ltb 300 n then 300 else n))

  -- `LogsEngine.tail`
  pub log_tail : Text → Answer (List Text)
  log_tail [] = lines_asked (some (pos 80))
  log_tail (c ∷ cs) = lines_asked (int_text (c ∷ cs))

  -- `OpsEngine`: whether there is something to report on; the promotion also asks for the stored
  -- bot of Bale.
  pub access_state : Panel → Answer (Unit {0})
  access_state p = if null (list_pairs (db_of p)) then failed 404 else done tt

  pub promote_bot : Bool → Answer (Unit {0})
  promote_bot has_bot = if ctx.desk.user_mode && has_bot then done tt else failed 409
