-- ===== src/Db/Rows.antt =====
-- What SQLite's AUTOINCREMENT gives: identifiers grow along a table, and stay below the next one.
use tg_bale_bridge.Prelude.{
  ◌==◌, if◌then◌else◌, Bool-cases, select, find, ℕ, suc, ◌+◌, ◌≤◌, ◌<◌, ◌≡◌, refl, subst, inl, inr,
  Bool, true, false, not, none, some, List, [], ◌∷◌, ◌++◌, arith,
}

some_inj : {R : Type 0} {x y : R} → some x ≡ some y → x ≡ y
some_inj h = cc

module _ {R : Type 0} where
  -- The number of rows that pass a test.
  abbrev pub count : (R → Bool) → List R → ℕ
  count p [] = 0
  count p (r ∷ rs) = (if p r then 1 else 0) + count p rs

  pub find-none : (p : R → Bool) (rs : List R) → find p rs ≡ none → count p rs ≡ 0
  find-none p [] e = refl
  find-none p (r ∷ rs) e = ground (arith, find-none p rs)

  pub count-append : (p : R → Bool) (xs ys : List R) → count p (xs ++ ys) ≡ count p xs + count p ys
  count-append p [] ys = omega arith
  count-append p (x ∷ xs) ys = omega (arith, count-append p xs ys)

module _ {R : Type 0} (id : R → ℕ) where
  -- The identifiers grow, from `lo` on, and stay below `hi`.
  abbrev pub Increasing : ℕ → ℕ → List R → Type 0
  Increasing lo hi [] = lo ≤ hi
  Increasing lo hi (r ∷ rs) = (lo ≤ id r) × Increasing (suc (id r)) hi rs

  Increasing-le : (lo hi : ℕ) (rs : List R) → Increasing lo hi rs → lo ≤ hi
  Increasing-le lo hi [] h = h
  Increasing-le lo hi (r ∷ rs) h = omega (arith, h.0, Increasing-le (suc (id r)) hi rs h.1)

  Increasing-lower :
      (lo lo' hi : ℕ) (rs : List R) → lo' ≤ lo → Increasing lo hi rs → Increasing lo' hi rs
  Increasing-lower lo lo' hi [] p h = omega arith
  Increasing-lower lo lo' hi (r ∷ rs) p h = (omega (arith, h.0), h.1)

  -- An inserted row takes the next identifier.
  pub Increasing-insert :
      (lo hi : ℕ) (rs : List R) (r : R)
      → id r ≡ hi
      → Increasing lo hi rs
      → Increasing lo (suc hi) (rs ++ r ∷ [])
  Increasing-insert lo hi [] r e h = (omega arith, omega arith)
  Increasing-insert lo hi (x ∷ xs) r e h = (h.0, Increasing-insert (suc (id x)) hi xs r e h.1)

  -- A deletion keeps the order.
  pub Increasing-select :
      (p : R → Bool) (lo hi : ℕ) (rs : List R)
      → Increasing lo hi rs
      → Increasing lo hi (select p rs)
  Increasing-select p lo hi [] h = h
  Increasing-select p lo hi (r ∷ rs) h = elim (Bool-cases (p r)) [
    | inl e ↦ rw e (h.0, Increasing-select p (suc (id r)) hi rs h.1)
    | inr e ↦ rw e (
        Increasing-lower (suc (id r)) lo hi _ (omega (arith, h.0))
          (Increasing-select p (suc (id r)) hi rs h.1))
  ]

  -- `DELETE … WHERE id = k`
  abbrev without_id : ℕ → List R → List R
  without_id k = select (λ r. not (id r == k))

  -- Past the identifier there is nothing to delete.
  without_id-above :
      (k lo hi : ℕ) (rs : List R) → k < lo → Increasing lo hi rs → without_id k rs ≡ rs
  without_id-above k lo hi [] p h = refl
  without_id-above k lo hi (r ∷ rs) p h =
      let tail = without_id-above k (suc (id r)) hi rs (omega (arith, h.0)) h.1 in
      let differs : (id r == k) ≡ false = ground (arith, h.0) in rw (differs, tail)

  -- The first row that passes a test stands in the table, and passes.
  pub find-Increasing :
      (p : R → Bool) (lo hi : ℕ) (rs : List R) (r : R)
      → Increasing lo hi rs
      → find p rs ≡ some r
      → (lo ≤ id r) × (p r ≡ true)
  find-Increasing p lo hi [] r h e = cc
  find-Increasing p lo hi (x ∷ xs) r h e = elim (Bool-cases (p x)) [
    | inl hit ↦ subst (λ y. (lo ≤ id y) × (p y ≡ true)) (some_inj (rw hit at e)) (h.0, hit)
    | inr miss ↦
        let (above, passes) = find-Increasing p (suc (id x)) hi xs r h.1 (rw miss at e) in
        (omega (arith, above, h.0), passes)
  ]

  -- Deleting the first row that passes a test `p` takes one row away; a test `q` counts one row
  -- less if that row passes `q`, and the same number otherwise.
  pub count-without_id :
      (p q : R → Bool) (lo hi : ℕ) (rs : List R) (r : R)
      → Increasing lo hi rs
      → find p rs ≡ some r
      → count q (without_id (id r) rs) + (if q r then 1 else 0) ≡ count q rs
  count-without_id p q lo hi [] r h e = cc
  count-without_id p q lo hi (x ∷ xs) r h e = elim (Bool-cases (p x)) [
    | inl hit ↦
        subst
          (λ y. count q (without_id (id y) (x ∷ xs)) + (if q y then 1 else 0) ≡ count q (x ∷ xs))
          (some_inj (rw hit at e))
          (ground (arith, without_id-above (id x) (suc (id x)) hi xs (omega arith) h.1))
    | inr miss ↦
        let rest : find p xs ≡ some r = rw miss at e in
        let above : suc (id x) ≤ id r = (find-Increasing p (suc (id x)) hi xs r h.1 rest).0 in
        let differs : (id x == id r) ≡ false = ground arith in
        rw differs (omega (arith, count-without_id p q (suc (id x)) hi xs r h.1 rest))
  ]
