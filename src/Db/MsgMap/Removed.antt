-- ===== src/Db/MsgMap/Removed.antt =====
-- bridge/dbstore/map.py: `other_side` when the pair is gone.
use tg_bale_bridge.Prelude.{
  ◌==◌, Bool-cases, select, find, any, Text, ℕ, ◌≡◌, refl, ap, ◌≢◌, inl, inr, Bool, true, false,
  not, ◌&&◌, ◌||◌, Option, none, some, List, [], ◌∷◌, arith,
}
use tg_bale_bridge.Db.{Platform, PairRow, MapRow, Database}
use tg_bale_bridge.Db.Pairs.{remove_pair, get_pair}
use tg_bale_bridge.Db.MsgMap.{is_src, is_dst, collect, is_mapped, other_side}

-- The rows of the map without those of a pair.
abbrev without : ℕ → List MapRow → List MapRow
without n rows = select (λ r. not (r.pair_id == n)) rows

select-own :
    (q : MapRow → Bool) (n : ℕ) (rows : List MapRow)
    → select (λ r. q r && r.pair_id == n) (without n rows) ≡ []
select-own q n [] = refl
select-own q n (r ∷ rows) = ground (arith, select-own q n rows)

select-others :
    (q : MapRow → Bool) (n j : ℕ) (rows : List MapRow)
    → j ≢ n
    → select (λ r. q r && r.pair_id == j) (without n rows)
      ≡ select (λ r. q r && r.pair_id == j) rows
select-others q n j [] h = refl
select-others q n j (r ∷ rows) h = ground (arith, select-others q n j rows h)

-- A message has no counterparts of a pair that was removed.
pub other_side-removed :
    (p : Platform) (c : Text) (m n : ℕ) (db : Database)
    → other_side p c m (some n) (remove_pair n db).1 ≡ []
unfolding other_side is_mapped remove_pair collect
other_side-removed p c m n db =
    rw (select-own (λ r. is_src p c m r || is_dst p c m r) n db.msg_map.rows) refl

-- The counterparts of another pair stay.
pub other_side-kept :
    (p : Platform) (c : Text) (m n j : ℕ) (db : Database)
    → j ≢ n
    → other_side p c m (some j) (remove_pair n db).1 ≡ other_side p c m (some j) db
unfolding other_side is_mapped remove_pair
other_side-kept p c m n j db h =
    ap (collect p c m [])
      (select-others (λ r. is_src p c m r || is_dst p c m r) n j db.msg_map.rows h)

abbrev pub is_found : Option PairRow → Bool
is_found none = false
is_found (some r) = true

any-find : (q : PairRow → Bool) (rows : List PairRow) → any q rows ≡ is_found (find q rows)
any-find q [] = refl
any-find q (r ∷ rows) = elim (Bool-cases (q r)) [
  | inl t ↦ rw t refl
  | inr f ↦ rw f (any-find q rows)
]

-- The answer of a removal is whether there was a pair of the number.
pub remove_pair-found : (n : ℕ) (db : Database) → (remove_pair n db).0 ≡ is_found (get_pair n db)
unfolding remove_pair get_pair
remove_pair-found n db = any-find (λ r. r.id == n) db.pairs.rows
