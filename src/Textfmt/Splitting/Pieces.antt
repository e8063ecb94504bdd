-- ===== src/Textfmt/Splitting/Pieces.antt =====
-- bridge/textfmt/splitting.py: the lines and the slices that the loop of `split_text` reads.
use tg_bale_bridge.Prelude.{
  length, drop, All, concat, length-take, length-drop, take-append-drop, Text, ℕ, zero, suc, ◌≤◌,
  ◌<◌, ◌≡◌, refl, ap, List, [], ◌∷◌, ◌++◌, append_assoc, arith,
}
use tg_bale_bridge.Textfmt.Splitting.{cons_first, splitlines, chunks}

abbrev pub Fits : ℕ → Text → Type 0
Fits limit part = length part ≤ limit

pub concat-append : (xs ys : List Text) → concat (xs ++ ys) ≡ concat xs ++ concat ys
concat-append [] ys = refl
concat-append (x ∷ xs) ys = simp (concat-append xs ys, append_assoc)

pub All-append {κ} :
    (P : Text → Type κ) (xs ys : List Text) → All P xs → All P ys → All P (xs ++ ys)
All-append P [] ys h k = k
All-append P (x ∷ xs) ys h k = (h.0, All-append P xs ys h.1 k)

concat-cons_first : (c : ℕ) (ls : List Text) → concat (cons_first c ls) ≡ c ∷ concat ls
concat-cons_first c [] = refl
concat-cons_first c (l ∷ ls) = refl

-- The lines, their ends kept, make the text again.
pub concat-splitlines : (t : Text) → concat (splitlines t) ≡ t
unfolding splitlines
concat-splitlines [] = refl
concat-splitlines (c ∷ cs) =
    ground (arith, concat-splitlines cs, concat-cons_first c (splitlines cs))

pub concat-chunks :
    (f limit : ℕ) (t : Text) → 0 < limit → length t ≤ f → concat (chunks f limit t) ≡ t
unfolding chunks
concat-chunks zero limit [] p h = refl
concat-chunks zero limit (c ∷ cs) p h = absurd (omega arith)
concat-chunks (suc f) limit [] p h = refl
concat-chunks (suc f) zero (c ∷ cs) p h = absurd (omega arith)
concat-chunks (suc f) (suc k) (c ∷ cs) p h =
    rw (concat-chunks f (suc k) (drop k cs) p (omega (arith, length-drop k cs)))
      (ap (λ t. c ∷ t) (take-append-drop k cs))

pub chunks-Fits : (f limit : ℕ) (t : Text) → All (Fits limit) (chunks f limit t)
unfolding chunks
chunks-Fits zero limit t = tt
chunks-Fits (suc f) limit [] = tt
chunks-Fits (suc f) limit (c ∷ cs) =
    (omega (arith, length-take limit (c ∷ cs)), chunks-Fits f limit (drop limit (c ∷ cs)))
