-- ===== src/Tests/Starting.antt =====
-- Tests of the settings, the start of the program, and the albums of the Bot API.
use tg_bale_bridge.Prelude.{
  if◌then◌else◌, Text, codes, text_eq, is_space, lstrip, rstrip, strip, rstrip_char, ◌≡◌, refl,
  true, false, Option, none, some, List, [], ◌∷◌,
}
use tg_bale_bridge.Prelude.Int.{pos, int_eq}
use tg_bale_bridge.Prelude.Dict.{get}
use tg_bale_bridge.Db.{Database, empty_db}
use tg_bale_bridge.Db.Meta.{get_meta, set_meta}
use tg_bale_bridge.Db.Pairs.{lower}
use tg_bale_bridge.RunCfg.{
  Value, api_entry, phone_entry, key_of, admin_id_from, get_json, admin_tg_id,
}
use tg_bale_bridge.AppCfg.{
  stripped, int_setting, Settings, load, no_bale_token, stem, bale_session_file, problems,
}
use tg_bale_bridge.StartUp.{Services, refused, overridden, is_installed, boot}
use tg_bale_bridge.BotApi.Methods.{Item, build_media_group}
use tg_bale_bridge.BotApi.Albums.{read_back, read_back-build_media_group}

-- JSON texts of two entries: that of the Telegram API, and that of a Bale account.
abbrev dumps : Value → Text
dumps v = codes "{}"

abbrev loads : Text → Option Value
loads t =
    if text_eq t (codes "api")
    then some (api_entry (pos 7) (codes "hash"))
    else if text_eq t (codes "phone")
    then some (phone_entry (codes "98"))
    else none

-- A database as the wizard leaves it: a Telegram account, and a Bale account without a bot.
abbrev by_wizard : Database
by_wizard =
    set_meta (set_meta empty_db (codes "cfg:tg_api") (codes "api")) (codes "cfg:bale_self")
      (codes "phone")

abbrev all_there : Services
all_there = record {
  exists = λ p. true;
  control_bot_answers = true;
  bale_bot_answers = true;
  bale_me = some (pos 3);
  tg_authorized = true;
  tg_logs_in = true;
}

abbrev bare : Settings
bare = load (λ t. false) ((codes "TG_BOT_TOKEN", codes "123") ∷ []) (codes "/data")

load_defaults :
    (bare.bale_mode ≡ codes "bot")
    × (bare.bale_poll_timeout ≡ pos 30)
    × (bare.bale_api_base ≡ codes "https://tapi.bale.ai")
unfolding load get stripped strip lstrip rstrip is_space text_eq rstrip_char lower int_setting
    int_eq
load_defaults = (refl, refl, refl)

-- A program with a Bale account and no Bale bot, as the wizard may leave it, is refused.
account_refused : boot dumps loads all_there by_wizard bare ≡ refused (no_bale_token ∷ [])
unfolding boot is_installed problems overridden get_json key_of get_meta set_meta text_eq load
    int_eq int_setting stripped get strip lstrip rstrip is_space admin_tg_id admin_id_from lower
    rstrip_char
account_refused = refl

session_files :
    (bale_session_file (codes "/data/session") ≡ codes "/data/session.bale")
    × (bale_session_file (codes "/data/my.bale") ≡ codes "/data/my.bale")
    × (bale_session_file (codes "/a.b/c") ≡ codes "/a.b/c.bale")
unfolding bale_session_file stem
session_files = (refl, refl, refl)

abbrev album : List Item
album =
    (codes "photo", codes "/tmp/a.jpg", codes "one") ∷ (codes "video", codes "/tmp/b.mp4", []) ∷ []

read_back-build_media_group_example :
    read_back (build_media_group album)
    ≡ (codes "photo", some (codes "/tmp/a.jpg"), codes "one")
      ∷ (codes "video", some (codes "/tmp/b.mp4"), [])
      ∷ []
read_back-build_media_group_example = read_back-build_media_group album
