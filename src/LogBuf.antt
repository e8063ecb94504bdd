-- ===== src/LogBuf.antt =====
-- bridge/logbuf/ring.py: the last lines of the log, kept in a `deque` with a `maxlen`.
pub mod Laws
use tg_bale_bridge.Prelude.{ltb, if◌then◌else◌, length, drop, Text, ℕ, ◌-◌, List, [], ◌∷◌, ◌++◌}

-- TAIL_MIN and TAIL_MAX
abbrev tail_min : ℕ
tail_min = 1

abbrev tail_max : ℕ
tail_max = 100

pub record Ring : Type 0 where
  pub maxlen : ℕ
  pub lines : List Text

-- `RingEngine(capacity)` for a capacity that is not negative.
pub new_ring : ℕ → Ring
new_ring capacity = record { maxlen = (if ltb capacity 1 then 1 else capacity); lines = [] }

-- A full deque drops its first line.
pub append : Text → Ring → Ring
append line r = record r {
  lines = drop (length (r.lines ++ line ∷ []) - r.maxlen) (r.lines ++ line ∷ []);
}

abbrev clamp : ℕ → ℕ
clamp n = if ltb n tail_min then tail_min else if ltb tail_max n then tail_max else n

-- `list(self.lines)[-n:]`
pub tail : ℕ → Ring → List Text
tail n r = drop (length r.lines - clamp n) r.lines
