-- ===== src/Transfer/Albums.antt =====
-- bridge/transfer/albums.py: the members of an album are collected until a timer fires. A timer is
-- the key in `tasks`; its firing is a call of `flush`.
pub mod Laws
use tg_bale_bridge.Prelude.{
  ◌==◌, if◌then◌else◌, length, select, sort_by, ℕ, Bool, not, Option, none, some, List, [], ◌∷◌,
  ◌++◌,
}

pub record Collector (K A : Type 0) : Type 0 where
  pub pending : List (K × List A)
  pub tasks : List K

abbrev pub no_albums : {K A : Type 0} → Collector K A
no_albums = record { pending = []; tasks = [] }

-- The key's equality and the sort key are given by the direction.
module _ {K A : Type 0} (key_eq : K → K → Bool) (sort_key : A → ℕ) where
  -- `pending.get(key, [])`
  unfoldable pub members : K → List (K × List A) → List A
  members k [] = []
  members k ((j, xs) ∷ rest) = let later = members k rest in if key_eq j k then xs else later

  -- `pending.setdefault(key, []).append(item)`
  pub append_to : K → A → List (K × List A) → List (K × List A)
  append_to k a [] = (k, a ∷ []) ∷ []
  append_to k a ((j, xs) ∷ rest) =
      let later = append_to k a rest in
      if key_eq j k then (j, xs ++ a ∷ []) ∷ rest else (j, xs) ∷ later

  -- `pending.pop(key, [])`, without its answer
  pub remove_key : K → List (K × List A) → List (K × List A)
  remove_key k [] = []
  remove_key k ((j, xs) ∷ rest) =
      let later = remove_key k rest in if key_eq j k then later else (j, xs) ∷ later

  -- A new message of an album; the first one starts the timer.
  pub feed : K → A → Collector K A → Collector K A
  feed k a c =
      let pending = append_to k a c.pending in
      record {
        pending = pending;
        tasks =
            (if length (members k pending) == 1
              then select (λ j. not (key_eq j k)) c.tasks ++ k ∷ []
              else c.tasks);
      }

  abbrev batch : List A → Option (List A)
  batch [] = none
  batch (x ∷ xs) = some (sort_by sort_key (x ∷ xs))

  -- The timer fires: the album, in order, for the queue.
  unfoldable pub flush : K → Collector K A → Option (List A) × Collector K A
  flush k c = (
    batch (members k c.pending),
    record { pending = remove_key k c.pending; tasks = select (λ j. not (key_eq j k)) c.tasks },
  )
