-- ===== src/Listening.antt =====
-- bridge/botapi/events.py: the loop of long polling. A round is what `get_updates` brings, an error
-- or updates; an update is seen by its `update_id`. What the handler raises is logged.
pub mod Laws
use tg_bale_bridge.Prelude.{leb, if◌then◌else◌, ℕ, ◌+◌, Option, none, some, List, [], ◌∷◌, ◌++◌}

-- The naps after an error are left out.
pub data Poll : Type 0 where
  poll_error : Poll
  poll_updates : List ℕ → Poll

abbrev max_of : ℕ → ℕ → ℕ
max_of a b = if leb b a then a else b

-- The calls of the handler, in order: the update and the offset.
pub handle_all : ℕ → List ℕ → List (ℕ × ℕ) × ℕ
handle_all offset [] = ([], offset)
handle_all offset (u ∷ us) =
    let next = max_of offset (u + 1) in
    let (calls, last) = handle_all next us in ((u, next) ∷ calls, last)

pub poll_once : ℕ → Poll → List (ℕ × ℕ) × ℕ
unfolding handle_all
poll_once offset poll_error = ([], offset)
poll_once offset (poll_updates us) = handle_all offset us

-- The rounds of the loop.
pub listen : ℕ → List Poll → List (ℕ × ℕ) × ℕ
unfolding poll_once
listen offset [] = ([], offset)
listen offset (p ∷ ps) =
    let (calls, next) = poll_once offset p in
    let (later, last) = listen next ps in (calls ++ later, last)

abbrev last_of : ℕ → List ℕ → ℕ
last_of u [] = u
last_of u (v ∷ vs) = last_of v vs

abbrev behind : List ℕ → ℕ
behind [] = 0
behind (u ∷ us) = last_of u us + 1

-- The first offset: the one that is given, or the end of the pending updates.
first_offset : Option ℕ → List ℕ → ℕ
first_offset none pending = behind pending
first_offset (some offset) pending = offset
