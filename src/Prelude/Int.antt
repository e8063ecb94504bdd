-- ===== src/Prelude/Int.antt =====
-- Python's unbounded integers, where the code needs a sign: chat identifiers.
use Prim.Native.Nat.{ℕ, zero, suc, ◌+◌, ◌-◌, ◌*◌, ◌/◌, ◌%◌, ◌<◌}
use mathlib.Core.Path.{◌≡◌, refl, ap, ◌∙◌}
use mathlib.Core.Logic.{inl, inr}
use mathlib.Core.Bool.{Bool, false, ◌&&◌}
use native.Mathlib.Omega.{arith}
use mathlib.Core.Option
use mathlib.Core.Option.{Option, none, some}
use mathlib.Core.List.{[], ◌∷◌}
use tg_bale_bridge.Prelude.Tests.{◌==◌, leb, ltb, if◌then◌else◌, Bool-cases}
use tg_bale_bridge.Prelude.Texts.{Text}

-- `negsuc n` is -(n + 1).
pub data ℤ : Type 0 where
  pos : ℕ → ℤ
  negsuc : ℕ → ℤ

-- The decimal digits of a number, the last first; the fuel counts the digits still allowed.
digits_rev : ℕ → ℕ → Text
digits_rev zero n = []
digits_rev (suc f) n =
    let rest = digits_rev f (n / 10) in if ltb n 10 then (48 + n) ∷ [] else (48 + n % 10) ∷ rest

abbrev rev_onto : Text → Text → Text
rev_onto [] acc = acc
rev_onto (c ∷ cs) acc = rev_onto cs (c ∷ acc)

-- `str(n)` of a natural number; n + 1 digits are more than enough.
unfoldable pub str_nat : ℕ → Text
unfolding digits_rev
str_nat n = rev_onto (digits_rev (suc n) n) []

-- `str(n)`.
unfoldable pub str_int : ℤ → Text
unfolding str_nat
str_int (pos n) = str_nat n
str_int (negsuc n) = 45 ∷ str_nat (suc n)

unfoldable pub int_eq : ℤ → ℤ → Bool
int_eq (pos a) (pos b) = a == b
int_eq (pos a) (negsuc b) = false
int_eq (negsuc a) (pos b) = false
int_eq (negsuc a) (negsuc b) = a == b

abbrev digits_value : ℕ → Text → Option ℕ
digits_value n [] = some n
digits_value n (c ∷ cs) =
    let rest = digits_value (n * 10 + (c - 48)) cs in if leb 48 c && leb c 57 then rest else none

abbrev negate : ℕ → ℤ
negate zero = pos zero
negate (suc n) = negsuc n

-- `int(s)` of a text that `str` has made: ASCII digits, after a minus sign perhaps. `none` is the
-- `ValueError`. Spaces, underscores and a plus sign, which Python lets pass, are not read.
unfoldable pub int_of : Text → Option ℤ
int_of [] = none
int_of (c ∷ []) = Option.map pos (digits_value 0 (c ∷ []))
int_of (c ∷ d ∷ ds) =
    if c == 45
    then Option.map negate (digits_value 0 (d ∷ ds))
    else Option.map pos (digits_value 0 (c ∷ d ∷ ds))

zero_times : (n : ℕ) → 0 * 10 + n ≡ n
zero_times n = omega arith

module _ {A : Type 0} (read : ℕ → Text → A) where
  -- A reader that takes one decimal digit after the other.
  abbrev pub TakesDigits : Type 0
  TakesDigits = (a d : ℕ) (t : Text) → d < 10 → read a ((48 + d) ∷ t) ≡ read (a * 10 + d) t

  read-rev :
      (f n : ℕ) (acc : Text)
      → TakesDigits
      → n < f
      → read 0 (rev_onto (digits_rev f n) acc) ≡ read n acc
  unfolding digits_rev
  read-rev zero n acc r h = elim h [ ]
  read-rev (suc f) n acc r h = elim (Bool-cases (ltb n 10)) [
    | inl small ↦ rw small (r 0 n acc (ground arith) ∙ ap (λ m. read m acc) (zero_times n))
    | inr big ↦ rw big (
        read-rev f (n / 10) ((48 + n % 10) ∷ acc) r (ground arith)
        ∙ (r (n / 10) (n % 10) acc (ground arith) ∙ ap (λ m. read m acc) (omega arith)))
  ]

  pub read-str_nat : (n : ℕ) → TakesDigits → read 0 (str_nat n) ≡ read n []
  unfolding str_nat
  read-str_nat n r = read-rev (suc n) n [] r (omega arith)

value-int_of : (t : Text) (n : ℕ) → digits_value 0 t ≡ some (suc n) → int_of t ≡ some (pos (suc n))
unfolding int_of
value-int_of [] n h = cc
value-int_of (c ∷ []) n h = ground (arith, h)
value-int_of (c ∷ d ∷ ds) n h = ground (arith, h)

-- What `str` writes of a natural number, `int` reads back.
pub int_of-str_nat : (n : ℕ) → int_of (str_nat n) ≡ some (pos n)
unfolding int_of str_nat digits_rev
int_of-str_nat zero = refl
int_of-str_nat (suc n) =
    value-int_of (str_nat (suc n)) n (read-str_nat digits_value (suc n) (λ a d t h. ground arith))
