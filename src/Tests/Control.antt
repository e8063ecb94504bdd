-- ===== src/Tests/Control.antt =====
-- Tests of the admin panel and of the dashboard.
use tg_bale_bridge.Prelude.{
  leb, ◌==◌, if◌then◌else◌, length, select, any, All, Text, codes, text_eq, is_space, lstrip,
  rstrip, strip, ℕ, ◌+◌, ◌≡◌, refl, true, false, not, ◌&&◌, none, some, List, [], ◌∷◌, ◌++◌, arith,
}
use tg_bale_bridge.Prelude.Int.{ℤ, pos, str_nat, str_int, int_eq}
use tg_bale_bridge.Prelude.Dict.{get}
use tg_bale_bridge.Db.{Platform, tg, tg2bale, both, PairRow}
use tg_bale_bridge.Db.Pairs.{
  list_pairs, get_pair, sends_tg, sends_bale, has_tg_chat, pairs_for_tg, lower, has_bale_chat,
  pairs_for_bale,
}
use tg_bale_bridge.Db.Meta.{set_meta}
use tg_bale_bridge.Db.MsgMap.{other_side}
use tg_bale_bridge.Db.MsgMap.Removed.{is_found}
use tg_bale_bridge.Db.LoopCache.Laws.{copies}
use tg_bale_bridge.Dashboard.{session_ttl, Auth, set_credentials, verify, fails_of, check_lock}
use tg_bale_bridge.Transfer.Exec.{ok, raised, other_error}
use tg_bale_bridge.Transfer.Queueing.{on_tg_new, tg_worker, bale_worker}
use tg_bale_bridge.Transfer.Queueing.Order.{rounds}
use tg_bale_bridge.Admin.{from_bale, from_tgbot, no_such_pair, pair_removed, Panel, Desk, db_of}
use tg_bale_bridge.Admin.Parsing.{mode_named, int_text, parse_pair_id}
use tg_bale_bridge.Admin.Trial.{try_tg}
use tg_bale_bridge.Admin.Commands.{remove, mode, pause}
use tg_bale_bridge.Admin.Laws.{mode_directs, remove_forgets, pause_stops, tested, has_key, test_own}
use tg_bale_bridge.Admin.Strangers.{Incoming, hear_all, is_admins, IsNothing, hear_all-select}
use tg_bale_bridge.ChatId.{bare_chat_id}
use tg_bale_bridge.Transfer.Types.{TgMsg}
use tg_bale_bridge.Web.{Ctx}
use tg_bale_bridge.Web.Api.{post, Body, Request, json_err, pairs_json, log_in, respond_to}
use tg_bale_bridge.Web.Laws.{respond_to-Guarded, view, respond_to-log_in}
use tg_bale_bridge.Tests.{tg_hello, pair_of, easy_env, bridge_of}

abbrev plain_hash : Text → Text → ℕ → Text
plain_hash password salt n = password ++ salt

abbrev desk : Desk
desk = record {
  admin_bale_id = pos 4;
  admin_tg_id = pos 3;
  user_mode = true;
  dash_enabled = true;
  log_buffer = none;
  resolve_tg = λ l t. raised other_error;
  resolve_bale = λ l t. raised other_error;
  add_admin = λ l c b. true;
  describe_saved = none;
  uptime = λ l. 90;
  new_password = λ l. codes "secret";
  new_salt = λ l. codes "salt";
  pbkdf2 = plain_hash;
}

abbrev empty_auth : Auth
empty_auth = record { credentials = none; sessions = []; fails = [] }

abbrev panel : Panel
panel = record { bridge = bridge_of both; auth = empty_auth; looked_up = [] }

-- The administrator pauses; a stranger then tries to resume and to remove a pair.
abbrev heard : List Incoming
heard =
    record { surface = from_bale; user = pos 4; text = codes "/pause"; origin = none }
    ∷ record { surface = from_tgbot; user = pos 9; text = codes "/resume"; origin = none }
    ∷ record { surface = from_bale; user = pos 3; text = codes "/remove 1"; origin = none }
    ∷ []

hear_all-select_example :
    ((hear_all easy_env desk heard panel).1
      ≡ (hear_all easy_env desk (select (is_admins easy_env desk) heard) panel).1)
    × (select (λ x. is_admins easy_env desk x.0) (hear_all easy_env desk heard panel).0
        ≡ (hear_all easy_env desk (select (is_admins easy_env desk) heard) panel).0)
    × All
        (IsNothing easy_env desk)
        (select (λ x. not (is_admins easy_env desk x.0)) (hear_all easy_env desk heard panel).0)
hear_all-select_example = hear_all-select easy_env desk heard panel

-- Of the three texts the first one counts.
one_counts : length (select (is_admins easy_env desk) heard) ≡ 1
unfolding int_eq
one_counts = refl

-- "/mode 1 tg2bale" ends the way from Bale to Telegram.
mode_directs_example :
    ((c : ℤ)
      → any
          (λ r. r.id == 1)
          (pairs_for_tg c (db_of (mode easy_env desk (codes "1" ∷ codes "t2b" ∷ []) panel).1))
        ≡ (sends_tg tg2bale && any (λ r. r.id == 1 && has_tg_chat c r) (db_of panel).pairs.rows))
    × ((c u : Text)
        → any
            (λ r. r.id == 1)
            (pairs_for_bale c u (db_of (mode easy_env desk (codes "1" ∷ codes "t2b" ∷ []) panel).1))
          ≡ (sends_bale tg2bale
              && any (λ r. r.id == 1 && has_bale_chat c u r) (db_of panel).pairs.rows))
unfolding parse_pair_id mode_named strip lstrip rstrip is_space int_text lower text_eq
mode_directs_example =
    mode_directs easy_env desk (codes "1") (codes "t2b") [] 1 tg2bale panel refl refl

pause_stops_example :
    let b = (pause easy_env desk panel).1.bridge in
    ((rounds (length b.q_tg) (tg_worker easy_env) b).world ≡ b.world)
    × ((rounds (length b.q_bale) (bale_worker easy_env) b).world ≡ b.world)
    × (db_of (pause easy_env desk panel).1 ≡ set_meta (db_of panel) (codes "paused") (codes "1"))
pause_stops_example = pause_stops easy_env desk panel

abbrev row : PairRow
row = pair_of both

-- The test message as Telegram reports it.
abbrev test_report : TgMsg
test_report = let m = tg_hello in record m { id = 101 }

test_own_example :
    let b = bridge_of both in
    let b' = on_tg_new test_report (tested easy_env desk row b) in
    ((try_tg easy_env row b.world).0 ≡ ok true)
    × (b'.q_tg ≡ (
        if has_key easy_env desk row test_report.chat_id
        then b.q_tg
        else (on_tg_new test_report b).q_tg))
    × (b'.albums_tg ≡ (
        if has_key easy_env desk row test_report.chat_id
        then b.albums_tg
        else (on_tg_new test_report b).albums_tg))
    × (copies tg (str_int row.tg_chat_id) 101 b'.world.db
        ≡ copies tg (str_int row.tg_chat_id) 101 b.world.db
          + (if has_key easy_env desk row test_report.chat_id then 0 else 1))
test_own_example =
    test_own easy_env desk row test_report (bridge_of both)
      (omega arith, (omega arith, omega arith)) refl refl

-- The pair of the tests has the bare identifier of the chat in which the message comes back.
row-has_key : has_key easy_env desk row test_report.chat_id ≡ true
unfolding bare_chat_id str_int str_nat text_eq
row-has_key = refl

-- The same pair with the marked identifier.
abbrev marked_row : PairRow
marked_row = let r = row in record r { tg_chat_id = test_report.chat_id }

-- Then the message of the test is not looked up under the chat that it was recorded for.
marked_row-has_key : has_key easy_env desk marked_row test_report.chat_id ≡ false
unfolding bare_chat_id str_int str_nat text_eq
marked_row-has_key = refl

remove_forgets_example :
    let (reply, p') = remove easy_env desk (codes "1" ∷ []) panel in
    (reply ≡ ok (if is_found (get_pair 1 (db_of panel)) then pair_removed else no_such_pair))
    × (get_pair 1 (db_of p') ≡ none)
    × ((q : Platform) (c : Text) (m : ℕ) → other_side q c m (some 1) (db_of p') ≡ [])
    × (get_pair 2 (db_of p') ≡ get_pair 2 (db_of panel))
    × ((q : Platform) (c : Text) (m : ℕ)
        → other_side q c m (some 2) (db_of p') ≡ other_side q c m (some 2) (db_of panel))
unfolding parse_pair_id strip lstrip rstrip is_space int_text
remove_forgets_example =
    remove_forgets easy_env desk (codes "1") [] 1 2 panel refl (λ e. absurd (omega (arith, e)))

abbrev ctx : Ctx
ctx = record {
  desk = desk;
  has_admin = true;
  has_bridge = true;
  has_bot = false;
  uptime_s = 90;
  new_token = codes "token";
}

-- A request to pause without the header of the page.
abbrev forged : Request
forged = record {
  method = post;
  path = codes "/api/pause";
  requested_with = [];
  session = codes "token";
  remote = codes "10.0.0.1";
  body = none;
  lines = [];
}

respond_to-Guarded_example : (respond_to ctx 7 forged panel).1.bridge ≡ panel.bridge
unfolding text_eq
respond_to-Guarded_example = respond_to-Guarded ctx 7 forged panel refl

abbrev wanted : Body
wanted = record {
  user = codes "ali";
  password = codes "secret";
  new = [];
  tg = [];
  bale = [];
  mode = [];
}

abbrev login_request : Request
login_request = record {
  method = post;
  path = codes "/api/login";
  requested_with = [];
  session = [];
  remote = codes "10.0.0.1";
  body = some wanted;
  lines = [];
}

abbrev set_up : Panel
set_up = record {
  bridge = bridge_of both;
  auth = set_credentials plain_hash (codes "ali") (codes "secret") (codes "salt") empty_auth;
  looked_up = [];
}

respond_to-log_in_example :
    (respond_to ctx 70 (view (codes "token")) (log_in ctx 7 login_request set_up).1).0
    ≡ (if leb 70 (7 + session_ttl) then pairs_json (list_pairs (db_of set_up)) else json_err 401)
unfolding check_lock fails_of get verify set_credentials text_eq
respond_to-log_in_example = respond_to-log_in ctx 7 70 login_request wanted set_up refl refl refl
