-- ===== src/Guard/Laws.antt =====
-- bridge/transfer/loopguard.py: which messages are marked.
use tg_bale_bridge.Prelude.{
  ◌==◌, Bool-cases, Text, text_eq, text_eq_iff, ℕ, ◌≡◌, refl, ◌↔◌, inl, inr, Bool, true, false, not,
  ◌&&◌, ◌||◌, List, [], ◌∷◌, arith,
}
use tg_bale_bridge.Db.{Platform, tg, bale, platform_eq}
use tg_bale_bridge.Guard.{
  Guard, key_eq, contains, discard, insert, marks, with_marks, consume, suppress, release,
}

-- Whether a deletion of this message would be taken for an echo.
pub is_marked : Platform → Text → ℕ → Guard → Bool
unfolding marks contains
is_marked p chat mid g = contains (chat, mid) (marks p g)

abbrev pub same : Platform → Text → ℕ → Platform → Text → ℕ → Bool
same p c m p' c' m' = platform_eq p p' && (text_eq c c' && m == m')

pub key_eq_iff : (a b : Text × ℕ) → (key_eq a b ≡ true) ↔ (a ≡ b)
unfolding key_eq
key_eq_iff (c, m) (c', m') = ground (arith, text_eq_iff c c')

-- The order in which two keys are compared does not matter.
key_eq_sym : (a b : Text × ℕ) → key_eq a b ≡ key_eq b a
key_eq_sym a b = ground (arith, key_eq_iff a b, key_eq_iff b a)

contains-eq :
    (k j : Text × ℕ) (s : List (Text × ℕ))
    → contains k s ≡ true
    → key_eq k j ≡ true
    → contains j s ≡ true
unfolding contains
contains-eq k j [] h e = cc
contains-eq k j (x ∷ s) h e =
    ground (arith, contains-eq k j s, key_eq_iff k j, key_eq_iff k x, key_eq_iff j x)

contains-insert :
    (k j : Text × ℕ) (s : List (Text × ℕ)) → contains j (insert k s) ≡ (key_eq k j || contains j s)
unfolding insert contains
contains-insert k j s = ground (arith, contains-eq k j s, key_eq_sym j k)

contains-discard :
    (k j : Text × ℕ) (s : List (Text × ℕ))
    → contains j (discard k s) ≡ (not (key_eq k j) && contains j s)
unfolding discard contains
contains-discard k j [] = ground arith
contains-discard k j (x ∷ s) =
    ground (arith, contains-discard k j s, key_eq_iff k x, key_eq_iff k j, key_eq_iff j x)

-- Suppressing marks the message, and changes the mark of no other.
pub is_marked-suppress :
    (p : Platform) (c : Text) (m : ℕ) (p' : Platform) (c' : Text) (m' : ℕ) (g : Guard)
    → is_marked p' c' m' (suppress p c m g) ≡ (same p c m p' c' m' || is_marked p' c' m' g)
unfolding is_marked suppress with_marks platform_eq key_eq
is_marked-suppress tg c m tg c' m' g = contains-insert (c, m) (c', m') g.ignore_tg
is_marked-suppress tg c m bale c' m' g = refl
is_marked-suppress bale c m tg c' m' g = refl
is_marked-suppress bale c m bale c' m' g = contains-insert (c, m) (c', m') g.ignore_bale

-- Releasing takes back the mark of the message, and changes the mark of no other.
pub is_marked-release :
    (p : Platform) (c : Text) (m : ℕ) (p' : Platform) (c' : Text) (m' : ℕ) (g : Guard)
    → is_marked p' c' m' (release p c m g) ≡ (not (same p c m p' c' m') && is_marked p' c' m' g)
unfolding is_marked release with_marks platform_eq key_eq
is_marked-release tg c m tg c' m' g = contains-discard (c, m) (c', m') g.ignore_tg
is_marked-release tg c m bale c' m' g = refl
is_marked-release bale c m tg c' m' g = refl
is_marked-release bale c m bale c' m' g = contains-discard (c, m) (c', m') g.ignore_bale

consume-eq-release :
    (p : Platform) (c : Text) (m : ℕ) (g : Guard)
    → is_marked p c m g ≡ true
    → consume p c m g ≡ (true, release p c m g)
unfolding is_marked consume release
consume-eq-release p c m g h = ground arith

consume_unmarked :
    (p : Platform) (c : Text) (m : ℕ) (g : Guard)
    → is_marked p c m g ≡ false
    → consume p c m g ≡ (false, g)
unfolding is_marked consume
consume_unmarked p c m g h = ground arith

same→eq :
    (p : Platform) (c : Text) (m : ℕ) (p' : Platform) (c' : Text) (m' : ℕ) (g : Guard)
    → same p c m p' c' m' ≡ true
    → is_marked p' c' m' g ≡ is_marked p c m g
unfolding platform_eq
same→eq tg c m tg c' m' g h = ground (arith, text_eq_iff c c')
same→eq tg c m bale c' m' g h = cc
same→eq bale c m tg c' m' g h = cc
same→eq bale c m bale c' m' g h = ground (arith, text_eq_iff c c')

-- `consume` answers whether the message is marked; afterwards it is not, and every other mark on
-- either platform is as it was.
pub consume_lem :
    (p : Platform) (c : Text) (m : ℕ) (g : Guard)
    → ((consume p c m g).0 ≡ is_marked p c m g)
      × ((p' : Platform) (c' : Text) (m' : ℕ)
          → is_marked p' c' m' (consume p c m g).1
            ≡ (not (same p c m p' c' m') && is_marked p' c' m' g))
consume_lem p c m g = elim (Bool-cases (is_marked p c m g)) [
  | inl h ↦
      rw (consume-eq-release p c m g h, h) (refl, λ p' c' m'. is_marked-release p c m p' c' m' g)
  | inr h ↦
      rw (consume_unmarked p c m g h, h)
        (refl, λ p' c' m'. ground (arith, same→eq p c m p' c' m' g))
]
