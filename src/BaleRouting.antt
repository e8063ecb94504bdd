-- ===== src/BaleRouting.antt =====
-- bridge/bale/routing.py: where an update of the Bale side goes. The panel is seen by the calls it
-- gets; its answer is not modelled. The database is that of the bridge.
pub mod Laws
use tg_bale_bridge.Prelude.{
  if◌then◌else◌, null, Text, codes, strip, ℕ, Bool, true, false, not, ◌&&◌, ◌||◌, Option, none,
  some, List,
}
use tg_bale_bridge.Prelude.Int.{ℤ, pos, str_nat, int_eq}
use tg_bale_bridge.Db.Meta.{set_meta}
use tg_bale_bridge.Transfer.Types.{BaleMsg}
use tg_bale_bridge.Transfer.Queueing.{Bridge, on_bale_delete, queue_bale_msg, queue_bale_edit}

-- `BALE_MODE == "user"`, `ADMIN_BALE_ID` (0 for none), and which parts are there.
pub record Side : Type 0 where
  pub user_mode : Bool
  pub admin_bale_id : ℤ
  pub has_panel : Bool
  pub has_bridge : Bool

-- A message with the type of its chat and its sender.
pub record Incoming : Type 0 where
  pub msg : BaleMsg
  pub private_chat : Bool
  pub sender : Option ℤ

-- "message" stands for "channel_post" too, and "edited" for both kinds of edits.
pub record BaleUpdate : Type 0 where
  pub deleted_messages : Option (Text × List ℕ)
  pub edited : Option BaleMsg
  pub message : Option Incoming

-- A call of the panel: the chat, the sender and the text.
abbrev PanelCall : Type 0
PanelCall = Text × (Option ℤ × Text)

abbrev or_zero : Option ℤ → ℤ
or_zero none = pos 0
or_zero (some n) = n

pub is_known : Side → Option ℤ → Bool
is_known s sender =
    not s.user_mode
    || (not (int_eq s.admin_bale_id (pos 0)) && int_eq (or_zero sender) s.admin_bale_id)

abbrev is_set : {A : Type 0} → Option A → Bool
is_set none = false
is_set (some a) = true

is_forward : BaleMsg → Bool
is_forward m = is_set m.forward_from_chat || is_set m.forward_from

-- `_panel_message`, up to the call of the panel.
pub panel_message : Side → Incoming → Option PanelCall
unfolding is_known is_forward
panel_message s i =
    if is_known s i.sender && s.has_panel
    then (if not (null (strip i.msg.text)) || is_forward i.msg
        then some (i.msg.chat, (i.sender, i.msg.text))
        else none)
    else none

abbrev pub offset_key : Text
offset_key = codes "bale_offset"

unfoldable pub save_offset : ℕ → Bridge → Bridge
save_offset offset b =
    let w = b.world in
    record b { world = record w { db = set_meta w.db offset_key (str_nat offset) } }

abbrev when_bridge : Side → (Bridge → Bridge) → Bridge → Bridge
when_bridge s f b = if s.has_bridge then f b else b

abbrev on_message : Side → Option Incoming → Bridge → Option PanelCall × Bridge
on_message s none b = (none, b)
on_message s (some i) b =
    if i.private_chat
    then (panel_message s i, b)
    else (none, when_bridge s (queue_bale_msg i.msg) b)

abbrev on_edited : Side → Option BaleMsg → Option Incoming → Bridge → Option PanelCall × Bridge
on_edited s (some em) m b = (none, when_bridge s (queue_bale_edit em) b)
on_edited s none m b = on_message s m b

abbrev on_deleted : Side → Option (Text × List ℕ) → BaleUpdate → Bridge → Option PanelCall × Bridge
on_deleted s (some (chat, ids)) upd b = (none, when_bridge s (on_bale_delete chat ids) b)
on_deleted s none upd b = on_edited s upd.edited upd.message b

pub handle_update : Side → BaleUpdate → ℕ → Bridge → Option PanelCall × Bridge
unfolding save_offset panel_message
handle_update s upd offset b = on_deleted s upd.deleted_messages upd (save_offset offset b)
