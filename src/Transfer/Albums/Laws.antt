-- ===== src/Transfer/Albums/Laws.antt =====
-- bridge/transfer/albums.py: what a timer brings, and which timers run.
use tg_bale_bridge.Prelude.{
  ◌==◌, if◌then◌else◌, length, select, any, null, sort_by, length-append, ℕ, ◌≡◌, refl, ◌↔◌, Bool,
  true, false, not, ◌&&◌, ◌||◌, some, List, [], ◌∷◌, ◌++◌, append-nil, append_assoc, arith,
}
use tg_bale_bridge.Transfer.Albums.{Collector, members, append_to, remove_key, feed, flush}

-- The keys are told apart by a test that decides equality.
module _ {K A : Type 0} (key_eq : K → K → Bool) (sort_key : A → ℕ)
    (key_eq_iff : (a b : K) → (key_eq a b ≡ true) ↔ (a ≡ b)) where
  members-append_to :
      (k : K) (a : A) (k' : K) (ps : List (K × List A))
      → members key_eq sort_key k' (append_to key_eq sort_key k a ps) ≡ (
          if key_eq k k'
          then members key_eq sort_key k' ps ++ a ∷ []
          else members key_eq sort_key k' ps)
  unfolding members append_to
  members-append_to k a k' [] = ground arith
  members-append_to k a k' ((j, xs) ∷ ps) =
      ground (arith, members-append_to k a k' ps, key_eq_iff j k, key_eq_iff j k', key_eq_iff k k')

  members-remove_key :
      (k k' : K) (ps : List (K × List A))
      → members key_eq sort_key k' (remove_key key_eq sort_key k ps)
        ≡ (if key_eq k k' then [] else members key_eq sort_key k' ps)
  unfolding members remove_key
  members-remove_key k k' [] = ground arith
  members-remove_key k k' ((j, xs) ∷ ps) =
      ground (arith, members-remove_key k k' ps, key_eq_iff j k, key_eq_iff j k', key_eq_iff k k')

  -- The members that come in for one album, one after the other.
  abbrev pub feed_all : K → List A → Collector K A → Collector K A
  feed_all k [] c = c
  feed_all k (a ∷ ys) c = feed_all k ys (feed key_eq sort_key k a c)

  abbrev pub waiting : K → Collector K A → List A
  waiting k c = members key_eq sort_key k c.pending

  waiting-feed :
      (k : K) (a : A) (k' : K) (c : Collector K A)
      → waiting k' (feed key_eq sort_key k a c)
        ≡ (if key_eq k k' then waiting k' c ++ a ∷ [] else waiting k' c)
  unfolding feed
  waiting-feed k a k' c = members-append_to k a k' c.pending

  waiting-feed_all :
      (k : K) (ys : List A) (k' : K) (c : Collector K A)
      → waiting k' (feed_all k ys c) ≡ (if key_eq k k' then waiting k' c ++ ys else waiting k' c)
  waiting-feed_all k [] k' c = ground (arith, append-nil (waiting k' c))
  waiting-feed_all k (a ∷ ys) k' c = ground (
    arith,
    waiting-feed_all k ys k' (feed key_eq sort_key k a c),
    waiting-feed k a k' c,
    append_assoc (waiting k' c) (a ∷ []) ys,
  )

  -- When the timer of an album fires, all the members that came in since it was last empty go to
  -- the queue as one sorted batch, the album is empty again, and no other album has changed, for
  -- keys compared by a test that decides equality.
  pub flush-feed_all :
      (k : K) (a : A) (ys : List A) (c : Collector K A)
      → waiting k c ≡ []
      → ((flush key_eq sort_key k (feed_all k (a ∷ ys) c)).0 ≡ some (sort_by sort_key (a ∷ ys)))
        × ((k' : K) → waiting k' (flush key_eq sort_key k (feed_all k (a ∷ ys) c)).1 ≡ waiting k' c)
  unfolding flush
  flush-feed_all k a ys c e = (
    ground (arith, waiting-feed_all k (a ∷ ys) k c, key_eq_iff k k),
    λ k'. ground (
      arith,
      members-remove_key k k' (feed_all k (a ∷ ys) c).pending,
      waiting-feed_all k (a ∷ ys) k' c,
      key_eq_iff k k',
    ),
  )

  -- A timer is running.
  abbrev timed : K → Collector K A → Bool
  timed k c = any (λ j. key_eq j k) c.tasks

  -- Exactly the albums with members have a timer.
  abbrev pub Timed : Collector K A → Type 0
  Timed c = (k : K) → timed k c ≡ not (null (waiting k c))

  timed_cancelled :
      (k k' : K) (ts : List K)
      → any (λ j. key_eq j k') (select (λ j. not (key_eq j k)) ts)
        ≡ (not (key_eq k k') && any (λ j. key_eq j k') ts)
  timed_cancelled k k' [] = ground arith
  timed_cancelled k k' (t ∷ ts) =
      ground (arith, timed_cancelled k k' ts, key_eq_iff t k, key_eq_iff t k', key_eq_iff k k')

  timed_added :
      (k k' : K) (ts : List K)
      → any (λ j. key_eq j k') (ts ++ k ∷ []) ≡ (any (λ j. key_eq j k') ts || key_eq k k')
  timed_added k k' [] = ground arith
  timed_added k k' (t ∷ ts) = ground (arith, timed_added k k' ts)

  one_more : (ys : List A) (a : A) → (length (ys ++ a ∷ []) == 1) ≡ null ys
  one_more [] a = ground arith
  one_more (x ∷ xs) a = ground (arith, length-append xs (a ∷ []))

  not_null : (ys : List A) (a : A) → null (ys ++ a ∷ []) ≡ false
  not_null [] a = refl
  not_null (x ∷ xs) a = refl

  -- Feeding a message keeps the rule that exactly the albums with members have a timer.
  feed-Timed : (k : K) (a : A) (c : Collector K A) → Timed c → Timed (feed key_eq sort_key k a c)
  unfolding feed
  feed-Timed k a c h k' = ground (
    arith,
    waiting-feed k a k c,
    waiting-feed k a k' c,
    one_more (waiting k c) a,
    not_null (waiting k' c) a,
    h k,
    h k',
    key_eq_iff k k,
    key_eq_iff k k',
    timed_added k k' (select (λ j. not (key_eq j k)) c.tasks),
    timed_cancelled k k' c.tasks,
  )

  -- The firing of a timer keeps the rule that exactly the albums with members have a timer.
  flush-Timed : (k : K) (c : Collector K A) → Timed c → Timed (flush key_eq sort_key k c).1
  unfolding flush
  flush-Timed k c h k' = ground (
    arith,
    members-remove_key k k' c.pending,
    timed_cancelled k k' c.tasks,
    h k',
    key_eq_iff k k',
  )
