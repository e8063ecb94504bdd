-- ===== src/Tests/Settings.antt =====
-- For the tests of the stored settings: a notation for the values that reads back what it writes.
use tg_bale_bridge.Prelude.{
  length, take, drop, Text, ℕ, zero, suc, ◌≡◌, refl, ap, Option, none, some, [], ◌∷◌, ◌++◌,
}
use tg_bale_bridge.Prelude.Int.{ℤ, pos, negsuc}
use tg_bale_bridge.RunCfg.{
  Value, null_value, number, admin_entry, api_entry, phone_entry, bot_entry,
}

abbrev write_int : ℤ → Text → Text
write_int (pos n) t = 0 ∷ n ∷ t
write_int (negsuc n) t = 1 ∷ n ∷ t

abbrev pub write : Value → Text
write null_value = 0 ∷ []
write (number n) = 1 ∷ write_int n []
write (admin_entry n t) = 2 ∷ write_int n t
write (api_entry n t) = 3 ∷ write_int n t
write (phone_entry t) = 4 ∷ t
write (bot_entry token me) = 5 ∷ length token ∷ token ++ me

abbrev read_int : ℕ → ℕ → ℤ
read_int zero n = pos n
read_int (suc s) n = negsuc n

-- What follows the tag of a value with a number.
abbrev read_number : (ℤ → Text → Value) → Text → Option Value
read_number f [] = none
read_number f (s ∷ []) = none
read_number f (s ∷ n ∷ t) = some (f (read_int s n) t)

abbrev read_bot : Text → Option Value
read_bot [] = none
read_bot (n ∷ t) = some (bot_entry (take n t) (drop n t))

abbrev pub read : Text → Option Value
read [] = none
read (zero ∷ t) = some null_value
read (suc zero ∷ t) = read_number (λ n _. number n) t
read (suc (suc zero) ∷ t) = read_number admin_entry t
read (suc (suc (suc zero)) ∷ t) = read_number api_entry t
read (suc (suc (suc (suc zero))) ∷ t) = some (phone_entry t)
read (suc (suc (suc (suc (suc tag)))) ∷ t) = read_bot t

take-append : (xs ys : Text) → take (length xs) (xs ++ ys) ≡ xs
take-append [] ys = refl
take-append (x ∷ xs) ys = ap (λ t. x ∷ t) (take-append xs ys)

drop-append : (xs ys : Text) → drop (length xs) (xs ++ ys) ≡ ys
drop-append [] ys = refl
drop-append (x ∷ xs) ys = drop-append xs ys

pub read-write : (v : Value) → read (write v) ≡ some v
read-write null_value = refl
read-write (number (pos n)) = refl
read-write (number (negsuc n)) = refl
read-write (admin_entry (pos n) t) = refl
read-write (admin_entry (negsuc n) t) = refl
read-write (api_entry (pos n) t) = refl
read-write (api_entry (negsuc n) t) = refl
read-write (phone_entry t) = refl
read-write (bot_entry token me) = rw (take-append token me, drop-append token me) refl
