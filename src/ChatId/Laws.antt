-- ===== src/ChatId/Laws.antt =====
-- bridge/tguser/types_map.py: the two forms of an identifier.
use tg_bale_bridge.Prelude.{ℕ, zero, suc, ◌≤◌, ◌≡◌, refl, arith}
use tg_bale_bridge.Prelude.Int.{ℤ, pos, negsuc}
use tg_bale_bridge.ChatId.{bare_chat_id, marked_form}

-- Normalising twice is normalising once, for every integer.
pub bare_chat_id_idempotent : (c : ℤ) → bare_chat_id (bare_chat_id c) ≡ bare_chat_id c
unfolding bare_chat_id
bare_chat_id_idempotent (pos n) = refl
bare_chat_id_idempotent (negsuc k) = ground arith

-- The marked form of a channel identifier of at most ten digits reads back as the identifier.
pub bare_chat_id-marked_form : (n : ℕ) → n ≤ 9999999999 → bare_chat_id (marked_form (pos n)) ≡ pos n
unfolding bare_chat_id marked_form
bare_chat_id-marked_form zero h = refl
bare_chat_id-marked_form (suc n) h = ground arith
