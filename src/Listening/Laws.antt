-- ===== src/Listening/Laws.antt =====
-- bridge/botapi/events.py: the offsets.
use mathlib.Core.List.{map-append}
use tg_bale_bridge.Prelude.{
  All, ℕ, ◌+◌, ◌≤◌, ◌<◌, ◌≡◌, refl, ap, ◌∙◌, ◌⊎◌, inl, inr, List, [], ◌∷◌, ◌++◌, map, arith,
}
use tg_bale_bridge.Listening.{Poll, poll_error, poll_updates, max_of, handle_all, poll_once, listen}

-- Every call has an offset behind its update, at least the first and at most the last offset.
abbrev pub Acknowledged : ℕ → ℕ → List (ℕ × ℕ) → Type 0
Acknowledged lo hi calls = All (λ (c : ℕ × ℕ). (c.0 < c.1) × (lo ≤ c.1) × (c.1 ≤ hi)) calls

Acknowledged-wider :
    (lo lo' hi hi' : ℕ) (calls : List (ℕ × ℕ))
    → lo' ≤ lo
    → hi ≤ hi'
    → Acknowledged lo hi calls
    → Acknowledged lo' hi' calls
Acknowledged-wider lo lo' hi hi' [] p q h = tt
Acknowledged-wider lo lo' hi hi' (c ∷ cs) p q ((a, b, d), h) =
    ((a, omega arith, omega arith), Acknowledged-wider lo lo' hi hi' cs p q h)

Acknowledged-append :
    (lo hi : ℕ) (xs ys : List (ℕ × ℕ))
    → Acknowledged lo hi xs
    → Acknowledged lo hi ys
    → Acknowledged lo hi (xs ++ ys)
Acknowledged-append lo hi [] ys h k = k
Acknowledged-append lo hi (x ∷ xs) ys (h, h') k = (h, Acknowledged-append lo hi xs ys h' k)

handle_all-Acknowledged :
    (offset : ℕ) (us : List ℕ)
    → (offset ≤ (handle_all offset us).1)
      × Acknowledged offset (handle_all offset us).1 (handle_all offset us).0
unfolding handle_all
handle_all-Acknowledged offset [] = (omega arith, tt)
handle_all-Acknowledged offset (u ∷ us) =
    let next = max_of offset (u + 1) in
    let (up, rest) = handle_all-Acknowledged next us in
    let grows : offset ≤ next = ground arith in
    let passes : u < next = ground arith in
    let last = (handle_all next us).1 in
    (
      omega arith,
      (
        (passes, grows, up),
        Acknowledged-wider next offset last last (handle_all next us).0 grows (omega arith) rest,
      ),
    )

poll_once-Acknowledged :
    (offset : ℕ) (p : Poll)
    → (offset ≤ (poll_once offset p).1)
      × Acknowledged offset (poll_once offset p).1 (poll_once offset p).0
unfolding poll_once
poll_once-Acknowledged offset poll_error = (omega arith, tt)
poll_once-Acknowledged offset (poll_updates us) = handle_all-Acknowledged offset us

-- The updates that the rounds bring, in order; an error brings none.
abbrev pub brought : List Poll → List ℕ
brought [] = []
brought (poll_error ∷ ps) = brought ps
brought (poll_updates us ∷ ps) = us ++ brought ps

-- The number is the one behind an update of the list.
abbrev pub IsBehind : ℕ → List ℕ → Type 0
IsBehind n [] = ⊥
IsBehind n (u ∷ us) = (n ≡ u + 1) ⊎ IsBehind n us

IsBehind-later : (n : ℕ) (xs ys : List ℕ) → IsBehind n ys → IsBehind n (xs ++ ys)
IsBehind-later n [] ys h = h
IsBehind-later n (x ∷ xs) ys h = inr (IsBehind-later n xs ys h)

IsBehind-sooner : (n : ℕ) (xs ys : List ℕ) → IsBehind n xs → IsBehind n (xs ++ ys)
IsBehind-sooner n [] ys h = absurd h
IsBehind-sooner n (x ∷ xs) ys (inl e) = inl e
IsBehind-sooner n (x ∷ xs) ys (inr h) = inr (IsBehind-sooner n xs ys h)

handle_all-handled : (offset : ℕ) (us : List ℕ) → map (λ c. c.0) (handle_all offset us).0 ≡ us
unfolding handle_all
handle_all-handled offset [] = refl
handle_all-handled offset (u ∷ us) =
    ap (λ (xs : List ℕ). u ∷ xs) (handle_all-handled (max_of offset (u + 1)) us)

handle_all-last :
    (offset : ℕ) (us : List ℕ)
    → ((handle_all offset us).1 ≡ offset) ⊎ IsBehind (handle_all offset us).1 us
unfolding handle_all
handle_all-last offset [] = inl refl
handle_all-last offset (u ∷ us) = elim (handle_all-last (max_of offset (u + 1)) us) [
  | inl e ↦ ground arith
  | inr h ↦ inr (inr h)
]

listen-handled : (offset : ℕ) (ps : List Poll) → map (λ c. c.0) (listen offset ps).0 ≡ brought ps
unfolding listen poll_once
listen-handled offset [] = refl
listen-handled offset (poll_error ∷ ps) = listen-handled offset ps
listen-handled offset (poll_updates us ∷ ps) =
    map-append (λ (c : ℕ × ℕ). c.0) (handle_all offset us).0 (listen (handle_all offset us).1 ps).0
    ∙ rw (handle_all-handled offset us, listen-handled (handle_all offset us).1 ps) refl

listen-last :
    (offset : ℕ) (ps : List Poll)
    → ((listen offset ps).1 ≡ offset) ⊎ IsBehind (listen offset ps).1 (brought ps)
unfolding listen poll_once
listen-last offset [] = inl refl
listen-last offset (poll_error ∷ ps) = listen-last offset ps
listen-last offset (poll_updates us ∷ ps) = elim (listen-last (handle_all offset us).1 ps) [
  | inl e ↦ elim (handle_all-last offset us) [
    | inl f ↦ inl (e ∙ f)
    | inr h ↦ inr (IsBehind-sooner _ us (brought ps) (rw e h))
  ]
  | inr h ↦ inr (IsBehind-later _ us (brought ps) h)
]

listen_grows :
    (offset : ℕ) (ps : List Poll)
    → (offset ≤ (listen offset ps).1)
      × Acknowledged offset (listen offset ps).1 (listen offset ps).0
unfolding listen
listen_grows offset [] = (omega arith, tt)
listen_grows offset (p ∷ ps) =
    let next = (poll_once offset p).1 in
    let last = (listen next ps).1 in
    let (up, now) = poll_once-Acknowledged offset p in
    let (up', later) = listen_grows next ps in
    (
      omega arith,
      Acknowledged-append offset last (poll_once offset p).0 (listen next ps).0
          (Acknowledged-wider offset offset next last (poll_once offset p).0 (omega arith) up' now)
          (Acknowledged-wider next offset last last (listen next ps).0 up (omega arith) later),
    )

-- Whatever the rounds bring, errors included: the handler is called once for each update that
-- came in, in their order, and for nothing else; each call is made with an offset behind its
-- update, at least the first and at most the last offset; the offset never falls, and the last
-- one is the first or one behind an update that came in.
pub listen-Acknowledged :
    (offset : ℕ) (ps : List Poll)
    → (map (λ c. c.0) (listen offset ps).0 ≡ brought ps)
      × (((listen offset ps).1 ≡ offset) ⊎ IsBehind (listen offset ps).1 (brought ps))
      × (offset ≤ (listen offset ps).1)
      × Acknowledged offset (listen offset ps).1 (listen offset ps).0
listen-Acknowledged offset ps =
    let (up, calls) = listen_grows offset ps in
    (listen-handled offset ps, listen-last offset ps, up, calls)
