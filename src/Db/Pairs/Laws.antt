-- ===== src/Db/Pairs/Laws.antt =====
-- bridge/dbstore/pairs.py: lookups after a pair is added or removed.
use tg_bale_bridge.Prelude.{
  ◌==◌, if◌then◌else◌, ==_refl, select, find, any, Text, ℕ, ◌≤◌, ◌≡◌, refl, ◌≢◌, ◌⊎◌, inl, inr,
  Bool, true, false, not, none, List, [], ◌∷◌, ◌++◌, arith,
}
use tg_bale_bridge.Prelude.Int.{ℤ, pos, negsuc, int_eq}
use tg_bale_bridge.ChatId.{bare_chat_id, marked_form, tg_id_forms}
use tg_bale_bridge.ChatId.Laws.{bare_chat_id-marked_form}
use tg_bale_bridge.Db.{Mode, PairRow, MapRow, Database}
use tg_bale_bridge.Db.Pairs.{
  new_pair, add_pair, remove_pair, get_pair, sends_tg, has_tg_chat, pairs_for_tg,
}

select-append {ℓ} :
    {A : Type ℓ} (p : A → Bool) (xs ys : List A) → select p (xs ++ ys) ≡ select p xs ++ select p ys
select-append p [] ys = refl
select-append p (x ∷ xs) ys = ground (arith, select-append p xs ys)

-- The bare or the marked form of the channel `n`.
abbrev Names : ℕ → ℤ → Type 0
Names n c = (c ≡ pos n) ⊎ (c ≡ marked_form (pos n))

bare_chat_id-Names : (n : ℕ) (c : ℤ) → n ≤ 9999999999 → Names n c → bare_chat_id c ≡ pos n
unfolding bare_chat_id
bare_chat_id-Names n c h (inl e) = rw e refl
bare_chat_id-Names n c h (inr e) = rw e (bare_chat_id-marked_form n h)

int_eq_refl : (c : ℤ) → int_eq c c ≡ true
unfolding int_eq
int_eq_refl (pos n) = ==_refl n
int_eq_refl (negsuc n) = ==_refl n

-- A pair added under either form of a chat's identifier is found under either form, behind the
-- pairs that were there, exactly if its mode sends from Telegram; for identifiers of at most ten
-- digits.
pairs_for_tg-add_pair :
    (n : ℕ) (c c' : ℤ) (tl tu bc bl bu : Text) (mode : Mode) (db : Database)
    → n ≤ 9999999999
    → Names n c
    → Names n c'
    → pairs_for_tg c' (add_pair c tl tu bc bl bu mode db).1
      ≡ pairs_for_tg c' db
        ++ (if sends_tg mode then new_pair db.pairs.next (pos n) tl tu bc bl bu mode ∷ [] else [])
unfolding pairs_for_tg add_pair has_tg_chat tg_id_forms
pairs_for_tg-add_pair n c c' tl tu bc bl bu mode db h p q =
    rw (select-append, bare_chat_id-Names n c h p, bare_chat_id-Names n c' h q, int_eq_refl (pos n))
      (rw (bare_chat_id-Names n (pos n) h (inl refl)))

select-none :
    (k : ℕ) (rs : List PairRow) → find (λ r. r.id == k) (select (λ r. not (r.id == k)) rs) ≡ none
select-none k [] = refl
select-none k (r ∷ rs) = ground (arith, select-none k rs)

select-unmapped :
    (k : ℕ) (rs : List MapRow)
    → any (λ r. r.pair_id == k) (select (λ r. not (r.pair_id == k)) rs) ≡ false
select-unmapped k [] = refl
select-unmapped k (r ∷ rs) = ground (arith, select-unmapped k rs)

select-other :
    (k j : ℕ) (rs : List PairRow)
    → j ≢ k
    → find (λ r. r.id == j) (select (λ r. not (r.id == k)) rs) ≡ find (λ r. r.id == j) rs
select-other k j [] ne = refl
select-other k j (r ∷ rs) ne = ground (arith, select-other k j rs ne)

-- After a removal no row of the pair and none of its mappings is left, and a pair with another
-- number is found as before.
pub remove_pair_lem :
    (k : ℕ) (db : Database)
    → (get_pair k (remove_pair k db).1 ≡ none)
      × (any (λ r. r.pair_id == k) (remove_pair k db).1.msg_map.rows ≡ false)
      × ((j : ℕ) → j ≢ k → get_pair j (remove_pair k db).1 ≡ get_pair j db)
unfolding remove_pair get_pair
remove_pair_lem k db = (
  select-none k db.pairs.rows,
  select-unmapped k db.msg_map.rows,
  λ j ne. select-other k j db.pairs.rows ne,
)
