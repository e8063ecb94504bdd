-- ===== src/Guard.antt =====
-- bridge/transfer/loopguard.py: the sets of deletions that are the bridge's own. The ledger and
-- the fingerprints, which the class passes on to the database, are in Db/LoopCache.
pub mod Laws
use tg_bale_bridge.Prelude.{
  ◌==◌, if◌then◌else◌, select, any, Text, text_eq, ℕ, Bool, true, false, not, ◌&&◌, List, [], ◌∷◌,
}
use tg_bale_bridge.Db.{Platform, tg, bale}

-- `ignore_tg` and `ignore_bale`: sets of (chat key, message).
pub record Guard : Type 0 where
  pub ignore_tg : List (Text × ℕ)
  pub ignore_bale : List (Text × ℕ)

abbrev pub no_marks : Guard
no_marks = record { ignore_tg = []; ignore_bale = [] }

pub key_eq : Text × ℕ → Text × ℕ → Bool
key_eq (c, m) (c', m') = text_eq c c' && m == m'

pub contains : Text × ℕ → List (Text × ℕ) → Bool
contains k s = any (key_eq k) s

-- `set.discard`
pub discard : Text × ℕ → List (Text × ℕ) → List (Text × ℕ)
discard k s = select (λ j. not (key_eq k j)) s

-- `set.add`
pub insert : Text × ℕ → List (Text × ℕ) → List (Text × ℕ)
insert k s = if contains k s then s else k ∷ s

-- `_set(guard, platform)`
pub marks : Platform → Guard → List (Text × ℕ)
marks tg g = g.ignore_tg
marks bale g = g.ignore_bale

pub with_marks : Platform → List (Text × ℕ) → Guard → Guard
with_marks tg s g = record g { ignore_tg = s }
with_marks bale s g = record g { ignore_bale = s }

-- Whether the deletion is an echo of the bridge's own; if so, its mark is used up.
pub consume : Platform → Text → ℕ → Guard → Bool × Guard
consume p chat mid g =
    let s = marks p g in
    if contains (chat, mid) s then (true, with_marks p (discard (chat, mid) s) g) else (false, g)

pub suppress : Platform → Text → ℕ → Guard → Guard
suppress p chat mid g = with_marks p (insert (chat, mid) (marks p g)) g

pub release : Platform → Text → ℕ → Guard → Guard
release p chat mid g = with_marks p (discard (chat, mid) (marks p g)) g
