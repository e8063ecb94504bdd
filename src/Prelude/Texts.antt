-- ===== src/Prelude/Texts.antt =====
-- Python's `str` as its list of code points.
use Prim.Native.Nat.{ℕ}
use Prim.Native.Char.{code}
use Prim.Native.String.{String}
use mathlib.Core.Path.{◌≡◌, refl}
use mathlib.Core.Logic.{◌↔◌}
use mathlib.Core.Bool.{Bool, true, false, ◌&&◌, ◌||◌}
use mathlib.Core.List.{List, [], ◌∷◌}
use native.Mathlib.Omega.{arith}
use tg_bale_bridge.Prelude.Tests.{◌==◌, leb, if◌then◌else◌}

abbrev pub Text : Type 0
Text = List ℕ

abbrev pub codes : String → Text
codes String.[] = []
codes (String.◌∷◌ c s) = code c ∷ codes s

unfoldable pub text_eq : Text → Text → Bool
text_eq [] [] = true
text_eq [] (y ∷ ys) = false
text_eq (x ∷ xs) [] = false
text_eq (x ∷ xs) (y ∷ ys) = x == y && text_eq xs ys

pub text_eq→eq : (a b : Text) → text_eq a b ≡ true → a ≡ b
unfolding text_eq
text_eq→eq [] [] h = refl
text_eq→eq [] (y ∷ ys) h = cc
text_eq→eq (x ∷ xs) [] h = cc
text_eq→eq (x ∷ xs) (y ∷ ys) h = ground (arith, text_eq→eq xs ys)

pub text_eq_refl : (a : Text) → text_eq a a ≡ true
unfolding text_eq
text_eq_refl [] = refl
text_eq_refl (x ∷ xs) = ground (arith, text_eq_refl xs)

pub text_eq_iff : (a b : Text) → (text_eq a b ≡ true) ↔ (a ≡ b)
text_eq_iff a b = (text_eq→eq a b, λ e. ground (arith, e, text_eq_refl a))

-- `str.isspace` of one code point, as `strip` and `split` read it.
unfoldable pub is_space : ℕ → Bool
is_space c =
    (leb 9 c && leb c 13)
    || (leb 28 c && leb c 32)
    || c == 133
    || c == 160
    || c == 5760
    || (leb 8192 c && leb c 8202)
    || c == 8232
    || c == 8233
    || c == 8239
    || c == 8287
    || c == 12288

-- `str.lstrip()`.
unfoldable pub lstrip : Text → Text
unfolding is_space
lstrip [] = []
lstrip (c ∷ cs) = let rest = lstrip cs in if is_space c then rest else c ∷ cs

-- `str.rstrip()`: a character stays if it, or one behind it, is no space.
unfoldable pub rstrip : Text → Text
unfolding is_space
rstrip [] = []
rstrip (c ∷ cs) = elim (rstrip cs) [ [] ↦ if is_space c then [] else c ∷ [] | d ∷ ds ↦ c ∷ d ∷ ds ]

unfoldable pub strip : Text → Text
unfolding lstrip rstrip
strip t = lstrip (rstrip t)

unfoldable pub starts_with : Text → Text → Bool
starts_with t [] = true
starts_with [] (p ∷ ps) = false
starts_with (c ∷ cs) (p ∷ ps) = c == p && starts_with cs ps

-- `p in t`, for texts.
unfoldable pub contains_text : Text → Text → Bool
unfolding starts_with
contains_text [] p = starts_with [] p
contains_text (c ∷ cs) p = starts_with (c ∷ cs) p || contains_text cs p

-- `t.lstrip(c)` of one character.
unfoldable pub lstrip_char : ℕ → Text → Text
lstrip_char x [] = []
lstrip_char x (c ∷ cs) = let rest = lstrip_char x cs in if c == x then rest else c ∷ cs

-- A character stays if it is another one, or if one behind it stays.
abbrev pub rstrip_step : ℕ → ℕ → Text → Text
rstrip_step x c [] = if c == x then [] else c ∷ []
rstrip_step x c (d ∷ ds) = c ∷ d ∷ ds

-- `t.rstrip(c)` of one character.
unfoldable pub rstrip_char : ℕ → Text → Text
rstrip_char x [] = []
rstrip_char x (c ∷ cs) = rstrip_step x c (rstrip_char x cs)

pub ends_with : Text → Text → Bool
unfolding text_eq
ends_with [] p = text_eq [] p
ends_with (c ∷ cs) p = text_eq (c ∷ cs) p || ends_with cs p

abbrev is_digit_code : ℕ → Bool
is_digit_code c = leb 48 c && leb c 57

abbrev all_digit_codes : Text → Bool
all_digit_codes [] = true
all_digit_codes (c ∷ cs) = is_digit_code c && all_digit_codes cs

-- `str.isdigit()`, of ASCII digits.
unfoldable pub is_digits : Text → Bool
is_digits [] = false
is_digits (c ∷ cs) = all_digit_codes (c ∷ cs)
