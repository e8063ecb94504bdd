-- ===== src/RunCfg.antt =====
-- bridge/runcfg/kvstore.py, accounts.py and types_map.py: the settings that the program writes
-- itself, as JSON in the table `meta`. `json.dumps` and `json.loads` are parameters; `loads` gives
-- `none` where it raises.
pub mod Laws
use tg_bale_bridge.Prelude.{
  if◌then◌else◌, Text, codes, Bool, true, false, Option, none, some, [], ◌++◌,
}
use tg_bale_bridge.Prelude.Int.{ℤ, pos, int_eq}
use tg_bale_bridge.Db.{Database}
use tg_bale_bridge.Db.Meta.{get_meta, set_meta}

-- The values that are stored: None, a number, and the dicts of the administrator, of the Telegram
-- API, of an account with its phone number, and of the Bale bot.
pub data Value : Type 0 where
  null_value : Value
  number : ℤ → Value
  admin_entry : ℤ → Text → Value
  api_entry : ℤ → Text → Value
  phone_entry : Text → Value
  bot_entry : Text → Text → Value

-- PREFIX and `key_of`
unfoldable pub key_of : Text → Text
key_of key = codes "cfg:" ++ key

abbrev pub admin_key : Text
admin_key = codes "admin_tg_id"

-- The identifier of the administrator in a stored value, 0 for none.
unfoldable pub admin_id_from : Value → ℤ
admin_id_from (number n) = n
admin_id_from (admin_entry id username) = id
admin_id_from _ = pos 0

module _ (dumps : Value → Text) (loads : Text → Option Value) where
  abbrev or_default : Value → Option Value → Value
  or_default default none = default
  or_default default (some v) = v

  abbrev parsed : Value → Option Text → Value
  parsed default none = default
  parsed default (some raw) = or_default default (loads raw)

  unfoldable pub get_json : Text → Value → Database → Value
  unfolding key_of
  get_json key default db = parsed default (get_meta db (key_of key))

  unfoldable pub set_json : Text → Value → Database → Database
  unfolding key_of
  set_json key value db = set_meta db (key_of key) (dumps value)

  -- The value is emptied; the key stays.
  delete_json : Text → Database → Database
  unfolding key_of
  delete_json key db = set_meta db (key_of key) []

  unfoldable pub admin_tg_id : Database → ℤ
  unfolding get_json admin_id_from
  admin_tg_id db = admin_id_from (get_json admin_key (number (pos 0)) db)

  unfoldable pub claim_admin : ℤ → Text → Database → Bool × Database
  unfolding set_json admin_tg_id
  claim_admin user_id username db =
      if int_eq (admin_tg_id db) (pos 0)
      then (true, set_json admin_key (admin_entry user_id username) db)
      else (false, db)

  unfoldable pub set_tg_api : ℤ → Text → Database → Database
  set_tg_api api_id api_hash db = set_json (codes "tg_api") (api_entry api_id api_hash) db

  unfoldable pub set_tg_self : Text → Database → Database
  set_tg_self phone db = set_json (codes "tg_self") (phone_entry phone) db

  unfoldable pub set_bale_self : Text → Database → Database
  set_bale_self phone db = set_json (codes "bale_self") (phone_entry phone) db

  -- The second text stands for the dict `me`.
  unfoldable pub set_bale_bot : Text → Text → Database → Database
  set_bale_bot token me db = set_json (codes "bale_bot") (bot_entry token me) db
