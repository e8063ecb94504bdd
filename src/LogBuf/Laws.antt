-- ===== src/LogBuf/Laws.antt =====
-- bridge/logbuf/ring.py: the lines of the ring.
use tg_bale_bridge.Prelude.{
  ltb, length, drop, length-append, length-drop, Text, ℕ, zero, suc, ◌+◌, ◌-◌, ◌≤◌, ◌<◌, ◌≡◌, refl,
  sym, ap, ◌∙◌, false, List, [], ◌∷◌, ◌++◌, append-nil, append_assoc, arith,
}
use tg_bale_bridge.LogBuf.{Ring, new_ring, append}

abbrev append_all : List Text → Ring → Ring
append_all [] r = r
append_all (l ∷ ls) r = append_all ls (append l r)

-- The last n lines.
abbrev newest : ℕ → List Text → List Text
newest n ls = drop (length ls - n) ls

drop-append : (n : ℕ) (xs ys : List Text) → n ≤ length xs → drop n (xs ++ ys) ≡ drop n xs ++ ys
drop-append zero xs ys h = refl
drop-append (suc n) [] ys h = absurd (omega arith)
drop-append (suc n) (x ∷ xs) ys h = drop-append n xs ys (omega arith)

drop-nil : {A : Type 0} (n : ℕ) → drop {A = A} n [] ≡ []
drop-nil zero = refl
drop-nil (suc n) = refl

drop-drop : (m n : ℕ) (xs : List Text) → drop m (drop n xs) ≡ drop (m + n) xs
drop-drop m zero xs = ap (λ k. drop k xs) (omega arith)
drop-drop m (suc n) [] = drop-nil m ∙ sym (drop-nil (m + suc n))
drop-drop m (suc n) (x ∷ xs) =
    let up : m + suc n ≡ suc (m + n) = omega arith in rw up (drop-drop m n xs)

-- Dropping the oldest line at each step comes to keeping the newest at the end.
newest-newest : (n : ℕ) (xs ys : List Text) → newest n (newest n xs ++ ys) ≡ newest n (xs ++ ys)
newest-newest n xs ys =
    let k = length xs - n in
    let whole = xs ++ ys in
    let sizes = length-append xs ys in
    let dropped = length-drop k whole in
    let same : length (drop k whole) - n + k ≡ length whole - n = omega arith in
    rw
      (sym (drop-append k xs ys (omega arith)), drop-drop (length (drop k whole) - n) k whole, same)
      refl

append_short : (l : Text) (r : Ring) → length (append l r).lines ≤ r.maxlen
unfolding append
append_short l r =
    omega (arith, length-drop (length (r.lines ++ l ∷ []) - r.maxlen) (r.lines ++ l ∷ []))

append_all-newest :
    (ls : List Text) (r : Ring)
    → length r.lines ≤ r.maxlen
    → (append_all ls r).lines ≡ newest r.maxlen (r.lines ++ ls)
unfolding append
append_all-newest [] r h =
    rw (append-nil r.lines)
      (let none_over : length r.lines - r.maxlen ≡ 0 = omega arith in rw none_over refl)
append_all-newest (l ∷ ls) r h =
    append_all-newest ls (append l r) (append_short l r)
    ∙ (newest-newest r.maxlen (r.lines ++ l ∷ []) ls
        ∙ ap (newest r.maxlen) (append_assoc r.lines (l ∷ []) ls))

-- Whatever lines are logged, a new ring of a capacity of at least one holds the newest of them,
-- as many as its capacity, in order.
new_ring-append_all :
    (capacity : ℕ) (ls : List Text)
    → 0 < capacity
    → (append_all ls (new_ring capacity)).lines ≡ newest capacity ls
unfolding new_ring
new_ring-append_all capacity ls h =
    let big : ltb capacity 1 ≡ false = ground arith in
    rw (append_all-newest ls (new_ring capacity) (omega arith), big) refl
