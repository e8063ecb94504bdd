-- ===== src/ChatId.antt =====
-- bridge/tguser/types_map.py `bare_chat_id` and bridge/dbstore/pairs.py `_tg_id_forms`: the bare
-- and the marked (-100…) form of a Telegram chat identifier. The argument is an integer here, so
-- the `except` branch, which gives 0, is not reached.
pub mod Laws
use tg_bale_bridge.Prelude.{leb, if◌then◌else◌, ℕ, zero, suc, ◌+◌, ◌-◌, ◌&&◌}
use tg_bale_bridge.Prelude.Int.{ℤ, pos, negsuc}

abbrev mark : ℕ
mark = 1000000000000

unfoldable pub bare_chat_id : ℤ → ℤ
bare_chat_id (pos n) = pos n
bare_chat_id (negsuc k) =
    if leb mark (k + 1) && leb (k + 1) 1009999999999 then pos (k + 1 - mark) else negsuc k

-- The marked form of a positive identifier: -1000000000000 - bare.
pub marked_form : ℤ → ℤ
marked_form (pos zero) = pos zero
marked_form (pos (suc n)) = negsuc (mark + n)
marked_form (negsuc k) = negsuc k

unfoldable pub tg_id_forms : ℤ → ℤ × ℤ
unfolding bare_chat_id marked_form
tg_id_forms c = let bare = bare_chat_id c in (bare, marked_form bare)
