-- ===== src/Admin/Numbers.antt =====
-- bridge/admin/types_map.py: the numbers of the pairs, as the list shows them.
use tg_bale_bridge.Prelude.{
  leb, ◌==◌, All, Text, is_space, lstrip, rstrip, strip, ℕ, suc, ◌+◌, ◌<◌, ◌≡◌, refl, Bool, true,
  false, ◌&&◌, some, [], ◌∷◌, arith,
}
use tg_bale_bridge.Prelude.Int.{pos, str_nat, TakesDigits, read-str_nat}
use tg_bale_bridge.Wizard.Conversation.{digit_value}
use tg_bale_bridge.Admin.Parsing.{
  digits_onto, signed_int, int_text, positive, lstrip_hash, parse_pair_id,
}

abbrev IsDigit : ℕ → Type 0
IsDigit c = (leb 48 c && leb c 57) ≡ true

abbrev NoSpace : ℕ → Type 0
NoSpace c = is_space c ≡ false

digit-NoSpace : (c : ℕ) → IsDigit c → NoSpace c
unfolding is_space
digit-NoSpace c h = ground arith

digits-NoSpace : (t : Text) → All IsDigit t → All NoSpace t
digits-NoSpace [] h = tt
digits-NoSpace (c ∷ t) h = (digit-NoSpace c h.0, digits-NoSpace t h.1)

lstrip-NoSpace : (t : Text) → All NoSpace t → lstrip t ≡ t
unfolding lstrip
lstrip-NoSpace [] h = refl
lstrip-NoSpace (c ∷ t) h = rw (h.0) refl

rstrip-cons : (c : ℕ) (t r : Text) → NoSpace c → rstrip t ≡ r → rstrip (c ∷ t) ≡ c ∷ r
unfolding rstrip
rstrip-cons c t [] h e = rw (e, h) refl
rstrip-cons c t (d ∷ ds) h e = rw e refl

rstrip-NoSpace : (t : Text) → All NoSpace t → rstrip t ≡ t
unfolding rstrip
rstrip-NoSpace [] h = refl
rstrip-NoSpace (c ∷ t) h = rstrip-cons c t t h.0 (rstrip-NoSpace t h.1)

strip-NoSpace : (t : Text) → All NoSpace t → strip t ≡ t
unfolding strip
strip-NoSpace t h = rw (rstrip-NoSpace t h) (lstrip-NoSpace t h)

lstrip_hash-Digits : (t : Text) → All IsDigit t → lstrip_hash t ≡ t
lstrip_hash-Digits [] h = refl
lstrip_hash-Digits (c ∷ t) h = ground (arith, h.0)

is_digit : ℕ → Bool
is_digit c = leb 48 c && leb c 57

all_digits : Text → Bool
unfolding is_digit
all_digits [] = true
all_digits (c ∷ t) = is_digit c && all_digits t

all_digits-All : (t : Text) → all_digits t ≡ true → All IsDigit t
unfolding all_digits is_digit
all_digits-All [] h = tt
all_digits-All (c ∷ t) h = (ground (arith, h), all_digits-All t (ground (arith, h)))

digit-is_digit : (d : ℕ) → d < 10 → is_digit (48 + d) ≡ true
unfolding is_digit
digit-is_digit d h = ground arith

skips_digits : TakesDigits (λ n t. all_digits t)
unfolding all_digits
skips_digits a d t h = rw (digit-is_digit d h) refl

str_nat-Digits : (n : ℕ) → All IsDigit (str_nat n)
unfolding all_digits
str_nat-Digits n = all_digits-All (str_nat n) (read-str_nat (λ m t. all_digits t) n skips_digits)

-- With a digit in front it does not matter what was before.
digits_onto-first :
    (t : Text) (n : ℕ)
    → All IsDigit t
    → digits_onto (some 0) true t ≡ some (suc n)
    → digits_onto (some 0) false t ≡ some (suc n)
digits_onto-first [] n h e = cc
digits_onto-first (c ∷ t) n h e = ground (arith, h.0, e)

signed_int-Digits :
    (t : Text) (n : ℕ)
    → All IsDigit t
    → digits_onto (some 0) false t ≡ some (suc n)
    → signed_int t ≡ some (pos (suc n))
signed_int-Digits [] n h e = cc
signed_int-Digits (c ∷ t) n h e = ground (arith, h.0, e)

digit_value-digit : (d : ℕ) → d < 10 → digit_value (48 + d) ≡ some d
digit_value-digit d h = ground arith

no_underscore : (d : ℕ) → d < 10 → ((48 + d) == b'_') ≡ false
no_underscore d h = ground arith

reads_digits : TakesDigits (λ n t. digits_onto (some n) true t)
reads_digits a d t h = rw (digit_value-digit d h, no_underscore d h) refl

hashed : (t : Text) → All IsDigit t → strip (b'#' ∷ t) ≡ b'#' ∷ t
unfolding is_space
hashed t h = strip-NoSpace (b'#' ∷ t) (refl, digits-NoSpace t h)

plain_number : (n : ℕ) → positive (signed_int (strip (strip (str_nat (suc n))))) ≡ some (suc n)
plain_number n =
    let t : Text = str_nat (suc n) in
    let h : All IsDigit t = str_nat-Digits (suc n) in
    let s = strip-NoSpace t (digits-NoSpace t h) in
    let whole = read-str_nat (λ m t. digits_onto (some m) true t) (suc n) reads_digits in
    rw (s, s, signed_int-Digits t n h (digits_onto-first t n h whole)) refl

-- The positive number of a pair, written in decimal digits as the list of the pairs shows it,
-- with its number sign or without, is read back as that number by the commands that take one.
parse_pair_id-str_nat :
    (n : ℕ)
    → (parse_pair_id (b'#' ∷ str_nat (suc n)) ≡ some (suc n))
      × (parse_pair_id (str_nat (suc n)) ≡ some (suc n))
unfolding parse_pair_id int_text
parse_pair_id-str_nat n =
    let t : Text = str_nat (suc n) in
    let h : All IsDigit t = str_nat-Digits (suc n) in
    (
      rw (hashed t h, lstrip_hash-Digits t h) (plain_number n),
      rw (strip-NoSpace t (digits-NoSpace t h), lstrip_hash-Digits t h) (plain_number n),
    )
