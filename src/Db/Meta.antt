-- ===== src/Db/Meta.antt =====
-- bridge/dbstore/meta.py: the key/value table.
use tg_bale_bridge.Prelude.{
  if◌then◌else◌, Text, text_eq, text_eq_iff, ◌≡◌, refl, Option, none, some, List, [], ◌∷◌, arith,
}
use tg_bale_bridge.Db.{Database}

abbrev lookup_key : Text → List (Text × Text) → Option Text
lookup_key k [] = none
lookup_key k ((j, v) ∷ m) = if text_eq j k then some v else lookup_key k m

abbrev upsert : Text → Text → List (Text × Text) → List (Text × Text)
upsert k v [] = (k, v) ∷ []
upsert k v ((j, w) ∷ m) =
    let rest = upsert k v m in if text_eq j k then (j, v) ∷ m else (j, w) ∷ rest

-- `get(k)`; the default of the code is what the caller makes of `none`.
unfoldable pub get_meta : Database → Text → Option Text
get_meta db k = lookup_key k db.meta

-- INSERT … ON CONFLICT(k) DO UPDATE
unfoldable pub set_meta : Database → Text → Text → Database
set_meta db k v = record db { meta = upsert k v db.meta }

lookup_key-upsert :
    (k j v : Text) (m : List (Text × Text))
    → lookup_key j (upsert k v m) ≡ (if text_eq k j then some v else lookup_key j m)
lookup_key-upsert k j v [] = refl
lookup_key-upsert k j v ((i, w) ∷ m) =
    ground (arith, text_eq_iff k j, text_eq_iff i k, text_eq_iff i j, lookup_key-upsert k j v m)

-- A value that was set is what its key returns, and every other key keeps its value.
pub get_meta-set_meta :
    (db : Database) (k j v : Text)
    → get_meta (set_meta db k v) j ≡ (if text_eq k j then some v else get_meta db j)
unfolding get_meta set_meta
get_meta-set_meta db k j v = lookup_key-upsert k j v db.meta
