-- ===== src/Admin.antt =====
-- bridge/admin: the commands of the administrators, on the bridge of transfer/facade.py and the
-- login of the dashboard. The texts of the answers are replies with their variable parts; the text
-- of an exception is not modelled.
pub mod Parsing
pub mod Numbers
pub mod Trial
pub mod Commands
pub mod Facade
pub mod Laws
pub mod Strangers
use tg_bale_bridge.Prelude.{Text, ℕ, Bool, Option, List, ◌∷◌}
use tg_bale_bridge.Prelude.Int.{ℤ}
use tg_bale_bridge.Db.{Platform, Mode, PairRow, Database}
use tg_bale_bridge.Dashboard.{Auth}
use tg_bale_bridge.LogBuf.{Ring}
use tg_bale_bridge.Transfer.Exec.{World, Exc, Outcome, ok, raised}
use tg_bale_bridge.Transfer.Queueing.{Bridge}

-- Where a command comes from: the bot on Bale, the bot on Telegram, or the saved messages of the
-- account, which only its owner writes.
pub data Surface : Type 0 where
  from_bale from_tgbot from_saved : Surface

-- The values of CMD_ALIASES.
pub data Command : Type 0 where
  cmd_help cmd_add cmd_remove cmd_list cmd_mode cmd_test cmd_status cmd_id cmd_whoami : Command
  cmd_pause cmd_resume cmd_logs cmd_access cmd_promote cmd_dashboard cmd_passwd : Command
  cmd_dashuser cmd_setup : Command

-- A channel as `_resolve_tg` and `_resolve_bale` know it.
pub record TgChannel : Type 0 where
  pub id : ℤ
  pub label : Text
  pub username : Text

pub record BaleChannel : Type 0 where
  pub id : Text
  pub label : Text
  pub username : Text

-- Who a forwarded message comes from, as far as a Bot-API message tells; the identifiers only.
pub record Origin : Type 0 where
  pub chat : Option ℤ
  pub user : Option ℤ
  pub origin_chat : Option ℤ
  pub origin_user : Option ℤ
  pub origin_name : Text

pub data Reply : Type 0 where
  your_id : ℤ → Reply
  unknown_command minimal_help help_text setup_hint id_hint error_text : Reply
  sender_named : Text → Reply
  chat_forwarded user_forwarded : ℤ → Reply
  add_usage bad_mode remove_usage mode_usage test_usage no_such_pair no_pairs_yet : Reply
  pair_added : ℕ → Mode → Reply
  pair_removed paused_text resumed_text : Reply
  mode_changed : ℕ → Mode → Reply
  pair_lines : List PairRow → Reply
  test_result : List (Platform × Bool) → Reply
  status_text : Bool → ℕ × ℕ → Text → Reply
  whoami_text : ℤ → Reply
  log_lines : List Text → Reply
  no_log no_lines_yet : Reply
  access_report no_user_client promote_usage : Reply
  promoted : List (Text × Bool) → Reply
  dashboard_off passwd_usage passwd_changed dashuser_usage : Reply
  dashboard_at : Text → Option Text → Reply
  dashuser_changed : Text → Reply

-- The facade with what it owns; `looked_up` are the references looked up so far, latest first.
pub record Panel : Type 0 where
  pub bridge : Bridge
  pub auth : Auth
  pub looked_up : List Text

-- What lies outside of the panel.
pub record Desk : Type 0 where
  pub admin_bale_id : ℤ
  pub admin_tg_id : ℤ
  pub user_mode : Bool
  pub dash_enabled : Bool
  pub resolve_tg : List Text → Text → Outcome TgChannel
  pub resolve_bale : List Text → Text → Outcome BaleChannel
  pub add_admin : List Text → Text → Text → Bool
  pub describe_saved : Option Reply
  pub uptime : List Text → ℕ
  pub log_buffer : Option Ring
  pub new_password : List Text → Text
  pub new_salt : List Text → Text
  pub pbkdf2 : Text → Text → ℕ → Text

-- A command: it answers or raises, and changes the panel.
abbrev pub P : Type 0 → Type 0
P A = Panel → Outcome A × Panel

abbrev pub pure : {A : Type 0} → A → P A
pure a p = (ok a, p)

abbrev pub continue : {A B : Type 0} → (A → P B) → Outcome A × Panel → Outcome B × Panel
continue f (ok a, p) = f a p
continue f (raised e, p) = (raised e, p)

infixl 5 ◌>>=◌ ◌>>◌
abbrev pub ◌>>=◌ : {A B : Type 0} → P A → (A → P B) → P B
◌>>=◌ m f p = continue f (m p)

abbrev pub ◌>>◌ : {B : Type 0} → P (Unit {0}) → P B → P B
m >> k = m >>= λ _. k

abbrev pub db_of : Panel → Database
db_of p = p.bridge.world.db

abbrev pub with_world : World → Panel → Panel
with_world w p = let b = p.bridge in record p { bridge = record b { world = w } }

abbrev pub with_db : Database → Panel → Panel
with_db d p = let w = p.bridge.world in with_world (record w { db = d }) p

abbrev pub read : {A : Type 0} → (Panel → A) → P A
read f p = (ok (f p), p)

abbrev pub change : (Panel → Panel) → P (Unit {0})
change f p = (ok tt, f p)

-- An operation of the database with an answer.
abbrev pub query : {A : Type 0} → (Database → A × Database) → P A
query f p = let (a, d) = f (db_of p) in (ok a, with_db d p)

abbrev pub look_up : {A : Type 0} → (List Text → Text → Outcome A) → Text → P A
look_up answer ref p = (answer p.looked_up ref, record p { looked_up = ref ∷ p.looked_up })
