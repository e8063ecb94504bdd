-- ===== src/StartUp.antt =====
-- bridge/runtime: the start of the program, in either mode (facade.py, overrides.py, installer.py,
-- wiring.py, bots.py, lifecycle.py), with bridge/runcfg/readiness.py on the settings. What the
-- platforms answer is the record Services. The objects that are built are left out, as is the
-- console.
pub mod Laws
use tg_bale_bridge.Prelude.{
  if◌then◌else◌, null, Text, codes, text_eq, Bool, true, false, not, ◌&&◌, ◌||◌, Option, none, some,
  List, [], ◌∷◌, ◌++◌,
}
use tg_bale_bridge.Prelude.Int.{ℤ, pos, int_eq, int_of}
use tg_bale_bridge.Db.{Database}
use tg_bale_bridge.Db.Meta.{get_meta}
use tg_bale_bridge.RunCfg.{Value, null_value, api_entry, bot_entry, get_json, admin_tg_id}
use tg_bale_bridge.AppCfg.{Settings, Problem, bale_session_file, user_mode, problems}

-- Which files are there, whether the control bot answers, the identifier of the Bale account, and
-- whether the Telegram session is a login, and whether the login with the phone number
-- succeeds.
pub record Services : Type 0 where
  pub exists : Text → Bool
  pub control_bot_answers : Bool
  pub bale_bot_answers : Bool
  pub bale_me : Option ℤ
  pub tg_authorized : Bool
  pub tg_logs_in : Bool

pub data BaleSide : Type 0 where
  self_account bot_account : BaleSide

-- The tasks of a run; a listener starts at an offset.
pub data Task : Type 0 where
  tg_client workers tg_bot : Task
  bale_listener bale_bot_listener : Option ℤ → Task

-- A run with its settings, whether it is paused, and its tasks.
pub record Run : Type 0 where
  pub settings : Settings
  pub side : BaleSide
  pub paused : Bool
  pub tasks : List Task

-- How the start ends: in the installer, in `sys.exit(1)`, in an exception of the login in Telegram, with the problems that were found, or in a
-- run.
pub data Boot : Type 0 where
  installing stopped login_failed : Boot
  refused : List Problem → Boot
  running : Run → Boot

abbrev pub entry_id : Value → ℤ
entry_id (api_entry id hash) = id
entry_id _ = pos 0

abbrev pub entry_hash : Value → Text
entry_hash (api_entry id hash) = hash
entry_hash _ = []

abbrev entry_token : Value → Text
entry_token (bot_entry token me) = token
entry_token _ = []

abbrev is_entry : Value → Bool
is_entry null_value = false
is_entry _ = true

abbrev pub int_or_else : ℤ → ℤ → ℤ
int_or_else a b = if int_eq a (pos 0) then b else a

abbrev pub text_or_else : Text → Text → Text
text_or_else [] b = b
text_or_else (c ∷ cs) b = c ∷ cs

abbrev paused_key : Text
paused_key = codes "paused"

abbrev pub number_in : Option Text → Option ℤ
number_in none = none
number_in (some []) = none
number_in (some (c ∷ cs)) = int_of (c ∷ cs)

-- `int(raw) if raw else None`
pub saved_offset : Text → Database → Option ℤ
saved_offset key db = number_in (get_meta db key)

abbrev is_one : Option Text → Bool
is_one none = false
is_one (some t) = text_eq t (codes "1")

module _ (dumps : Value → Text) (loads : Text → Option Value) where
  abbrev pub kept : Text → Database → Value
  kept key db = get_json dumps loads key null_value db

  -- `OverridesEngine.apply`: only what is empty is filled in.
  unfoldable pub overridden : Database → Settings → Settings
  overridden db v = record v {
    admin_tg_id = int_or_else v.admin_tg_id (admin_tg_id dumps loads db);
    tg_api_id = int_or_else v.tg_api_id (entry_id (kept (codes "tg_api") db));
    tg_api_hash = text_or_else v.tg_api_hash (entry_hash (kept (codes "tg_api") db));
    bale_token = text_or_else v.bale_token (entry_token (kept (codes "bale_bot") db));
  }

  module _ (s : Services) (db : Database) where
    pub tg_ready : Settings → Bool
    tg_ready v =
        not (int_eq (int_or_else v.tg_api_id (entry_id (kept (codes "tg_api") db))) (pos 0))
        && (not (null (text_or_else v.tg_api_hash (entry_hash (kept (codes "tg_api") db))))
            && s.exists (v.session_path ++ codes ".session"))

    bale_ready : Settings → Bool
    bale_ready v =
        is_entry (kept (codes "bale_self") db)
        || is_entry (kept (codes "bale_bot") db)
        || not (null v.bale_token)
        || (text_eq v.bale_mode user_mode && s.exists (bale_session_file v.bale_session))

    -- `installed`
    unfoldable pub is_installed : Settings → Bool
    unfolding tg_ready bale_ready
    is_installed v = tg_ready v && bale_ready v

    -- `InstallerEngine.run`, up to the loop of the bot.
    install : Settings → Boot
    install v =
        if null v.tg_bot_token
        then stopped
        else if s.control_bot_answers
        then installing
        else stopped

    -- Whether the client of Bale is that of a user account.
    is_self : Settings → Bool
    is_self v = text_eq v.bale_mode user_mode || is_entry (kept (codes "bale_self") db)

    abbrev side_of : Settings → BaleSide
    side_of v = if is_self v then self_account else bot_account

    -- In the mode "user" the account itself is the administrator, unless one is set.
    with_admin : ℤ → Settings → Settings
    with_admin me v =
        if text_eq v.bale_mode user_mode
        then record v { admin_bale_id = int_or_else v.admin_bale_id me }
        else v

    -- The token of a Bale bot beside a user account, if it answers.
    has_panel_bot : Settings → Bool
    unfolding is_self
    has_panel_bot v =
        is_self v
        && (not (null (text_or_else v.bale_token (entry_token (kept (codes "bale_bot") db))))
            && s.bale_bot_answers)

    abbrev optional : Bool → Task → List Task
    optional true t = t ∷ []
    optional false t = []

    -- `build_tasks`
    build_tasks : Settings → List Task
    unfolding saved_offset has_panel_bot
    build_tasks v =
        tg_client
        ∷ bale_listener (saved_offset (codes "bale_offset") db)
        ∷ workers
        ∷ (optional (not (null v.tg_bot_token) && s.control_bot_answers) tg_bot
            ++ optional (has_panel_bot v)
                (bale_bot_listener (saved_offset (codes "bale_bot_offset") db)))

    pub run_of : ℤ → Settings → Run
    unfolding with_admin build_tasks is_self
    run_of me v = record {
      settings = with_admin me v;
      side = side_of v;
      paused = is_one (get_meta db paused_key);
      tasks = build_tasks v;
    }

    -- `tg_side`: without a login and a phone number to log in with, the program exits.
    abbrev connect_tg : Run → Settings → Boot
    connect_tg r v =
        if s.tg_authorized
        then running r
        else if null v.tg_phone
        then stopped
        else if s.tg_logs_in
        then running r
        else login_failed

    -- `bale_side` and `tg_side`: without an answer of Bale the program exits.
    abbrev connect : Settings → Option ℤ → Boot
    connect v none = stopped
    connect v (some me) = connect_tg (run_of me v) v

    abbrev pub checked : Settings → List Problem → Boot
    checked v [] = connect v s.bale_me
    checked v (p ∷ ps) = refused (p ∷ ps)

    -- `Runtime.main`, up to the tasks.
    unfoldable pub boot : Settings → Boot
    unfolding overridden is_installed install run_of problems
    boot v =
        let v' = overridden db v in
        if is_installed v' then checked v' (problems s.exists v') else install v'
