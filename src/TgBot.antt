-- ===== src/TgBot.antt =====
-- bridge/tgbot/claim.py, guards.py, routing.py and types_map.py: who owns the admin bot, and where
-- an update of it goes. The wizard, the panel and the API are seen by the calls they get; whether a
-- conversation of the wizard is active, and what the panel answers, are parameters.
pub mod Laws
use tg_bale_bridge.Prelude.{
  if◌then◌else◌, any, null, Text, codes, text_eq, strip, ℕ, Bool, true, false, not, ◌&&◌, Option,
  none, some, List, [], ◌∷◌,
}
use tg_bale_bridge.Prelude.Int.{ℤ, pos, int_eq}

-- The Persian words for "start" and "installation".
abbrev word_start : Text
word_start = 1588 ∷ 1585 ∷ 1608 ∷ 1593 ∷ []

abbrev word_setup : Text
word_setup = 1606 ∷ 1589 ∷ 1576 ∷ []

-- START_TEXTS and SETUP_TEXTS
abbrev start_texts : List Text
start_texts = codes "/start" ∷ codes "start" ∷ word_start ∷ []

abbrev setup_texts : List Text
setup_texts = codes "/setup" ∷ codes "setup" ∷ word_setup ∷ codes "/start" ∷ []

pub record Message : Type 0 where
  pub chat_id : ℤ
  pub private_chat : Bool
  pub uid : Option ℤ
  pub username : Text
  pub text : Text
  pub forwarded : Bool

-- An update: the answer to a button, or a message, or neither.
pub record Update : Type 0 where
  pub callback_query : Bool
  pub message : Option Message

pub data Effect : Type 0 where
  save_offset : ℕ → Effect
  handle_callback : Effect
  send_locked : ℤ → Effect
  send_welcome : ℤ → Text → Effect
  wizard_open : ℤ → Option ℤ → Effect
  wizard_text : ℤ → Option ℤ → Text → Effect
  panel_handle : ℤ → Option ℤ → Text → Effect
  send_reply : ℤ → Text → Effect

-- `ADMIN_TG_ID` of the configuration, the administrator in the store (0 for none), which parts are
-- there, and the calls made, latest first.
pub record Bot : Type 0 where
  pub admin_tg_id : ℤ
  pub stored_admin : ℤ
  pub has_store : Bool
  pub has_wizard : Bool
  pub has_panel : Bool
  pub effects : List Effect

unfoldable pub is_zero : ℤ → Bool
is_zero n = int_eq n (pos 0)

abbrev do_effect : Effect → Bot → Bot
do_effect e s = record s { effects = e ∷ s.effects }

abbrev is_one_of : Text → List Text → Bool
is_one_of t ts = any (text_eq t) ts

pub is_start : Text → Bool
is_start t = is_one_of t start_texts

is_setup : Text → Bool
is_setup t = is_one_of t setup_texts

abbrev or_zero : Option ℤ → ℤ
or_zero none = pos 0
or_zero (some n) = n

pub is_admin : Option ℤ → Bot → Bool
unfolding is_zero
is_admin user_id s = not (is_zero s.admin_tg_id) && int_eq (or_zero user_id) s.admin_tg_id

-- runcfg/accounts.py: the first one becomes the administrator.
unfoldable pub claim_admin : ℤ → Bot → Bool × Bot
unfolding is_zero
claim_admin uid s =
    if is_zero s.stored_admin then (true, record s { stored_admin = uid }) else (false, s)

pub applicable : Bot → Bool
unfolding is_zero
applicable s = is_zero s.admin_tg_id && s.has_store

abbrev open_wizard : ℤ → Option ℤ → Bot → Bot
open_wizard chat uid s = if s.has_wizard then do_effect (wizard_open chat uid) s else s

abbrev welcome : Message → ℤ → Bot → Bot
welcome m uid s =
    open_wizard m.chat_id m.uid
      (do_effect (send_welcome m.chat_id m.username) (record s { admin_tg_id = uid }))

-- An identifier that is not there makes `int(uid)` raise, before anything is written, if the store
-- has no administrator.
abbrev start_claim : Message → Option ℤ → Bot → Bot
start_claim m none s = if is_zero s.stored_admin then s else do_effect (send_locked m.chat_id) s
start_claim m (some uid) s =
    let (won, s') = claim_admin uid s in
    if won then welcome m uid s' else do_effect (send_locked m.chat_id) s'

-- Whether the message ends here, and the state afterwards.
pub handle_claim : Message → Bot → Bool × Bot
unfolding applicable is_start claim_admin is_zero
handle_claim m s =
    if applicable s
    then (
      true,
      (if is_start (strip m.text)
          then start_claim m m.uid s
          else do_effect (send_locked m.chat_id) s),
    )
    else (false, s)

module _ (is_active : List Effect → ℤ → Bool) (answer : List Effect → Message → Text) where
  abbrev send_answer : Message → Text → Bot → Bot
  send_answer m [] s = s
  send_answer m (c ∷ cs) s = do_effect (send_reply m.chat_id (c ∷ cs)) s

  -- The panel's turn.
  abbrev to_panel : Message → Bot → Bot
  to_panel m s =
      if s.has_panel
      then send_answer m (answer s.effects m) (do_effect (panel_handle m.chat_id m.uid m.text) s)
      else s

  abbrev unless_start : Message → Bot → Bot
  unless_start m s =
      if is_start (strip m.text) && not (is_admin m.uid s)
      then do_effect (send_locked m.chat_id) s
      else to_panel m s

  pub after_claim : Message → Bot → Bot
  unfolding is_admin is_setup is_start
  after_claim m s =
      if s.has_wizard && is_admin m.uid s
      then (if is_setup (strip m.text)
          then do_effect (wizard_open m.chat_id m.uid) s
          else if is_active s.effects m.chat_id
          then do_effect (wizard_text m.chat_id m.uid m.text) s
          else unless_start m s)
      else unless_start m s

  pub on_private : Message → Bot → Bot
  unfolding handle_claim after_claim
  on_private m s = let (closed, s') = handle_claim m s in if closed then s' else after_claim m s'

  abbrev on_message : Option Message → Bot → Bot
  on_message none s = s
  on_message (some m) s =
      if m.private_chat
      then (if null (strip m.text) && not m.forwarded then s else on_private m s)
      else s

  pub on_update : Update → ℕ → Bot → Bot
  unfolding on_private
  on_update upd offset s =
      let s' = do_effect (save_offset offset) s in
      if upd.callback_query && s.has_wizard
      then do_effect handle_callback s'
      else on_message upd.message s'
