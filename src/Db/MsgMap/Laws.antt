-- ===== src/Db/MsgMap/Laws.antt =====
-- bridge/dbstore/map.py: the answers of `other_side`.
use tg_bale_bridge.Prelude.{
  ◌==◌, ==_iff, ==_refl, Bool-cases, select, any, All, Text, text_eq, text_eq→eq, text_eq_refl, ℕ,
  ◌≡◌, refl, sym, subst, ◌∙◌, ◌↔◌, ◌⊎◌, inl, inr, Bool, true, false, ◌&&◌, ◌||◌, Option, none, some,
  List, [], ◌∷◌, arith,
}
use tg_bale_bridge.Db.{Platform, tg, bale, platform_eq, MapRow, Database}
use tg_bale_bridge.Db.MsgMap.{
  Counterpart, is_src, is_dst, in_pair, dst_of, src_of, opposite, same_key, collect, is_mapped,
  other_side,
}

-- No entry has the key of one of `seen`, nor of an earlier entry.
abbrev Fresh : List Counterpart → List Counterpart → Type 0
Fresh seen [] = Unit
Fresh seen (o ∷ os) = (any (same_key o) seen ≡ false) × Fresh (o ∷ seen) os

collect-Fresh :
    (p : Platform) (c : Text) (m : ℕ) (seen : List Counterpart) (rs : List MapRow)
    → Fresh seen (collect p c m seen rs)
unfolding collect
collect-Fresh p c m seen [] = tt
collect-Fresh p c m seen (r ∷ rs) = elim (Bool-cases (any (same_key (opposite p c m r)) seen)) [
  | inl old ↦ rw old (collect-Fresh p c m seen rs)
  | inr new ↦ rw new (new, collect-Fresh p c m (opposite p c m r ∷ seen) rs)
]

-- No two counterparts of an answer have the same platform, chat, message and pair.
other_side-Fresh :
    (p : Platform) (c : Text) (m : ℕ) (pair_id : Option ℕ) (db : Database)
    → Fresh [] (other_side p c m pair_id db)
unfolding other_side
other_side-Fresh p c m pair_id db = collect-Fresh p c m [] _

platform_eq_refl : (p : Platform) → platform_eq p p ≡ true
unfolding platform_eq
platform_eq_refl tg = refl
platform_eq_refl bale = refl

same_key_refl : (o : Counterpart) → same_key o o ≡ true
unfolding same_key
same_key_refl o =
    ground
      (arith, platform_eq_refl o.platform, text_eq_refl o.chat, ==_refl o.msg, ==_refl o.pair_id)

-- A row is one of a table's.
abbrev In : MapRow → List MapRow → Type 0
In r [] = ⊥
In r (x ∷ xs) = (x ≡ r) ⊎ In r xs

-- The opposite end of each row is listed, unless it was seen.
collect_complete :
    (p : Platform) (c : Text) (m : ℕ) (seen : List Counterpart) (rs : List MapRow) (r : MapRow)
    → In r rs
    → (any (same_key (opposite p c m r)) seen ≡ true)
      ⊎ (any (same_key (opposite p c m r)) (collect p c m seen rs) ≡ true)
unfolding collect
collect_complete p c m seen [] r h = absurd h
collect_complete p c m seen (x ∷ xs) r (inl e) =
    subst
      (λ (y : MapRow).
        (any (same_key (opposite p c m y)) seen ≡ true)
        ⊎ (any (same_key (opposite p c m y)) (collect p c m seen (x ∷ xs)) ≡ true))
      e (ground (arith, same_key_refl (opposite p c m x)))
collect_complete p c m seen (x ∷ xs) r (inr h) = ground (
  arith,
  collect_complete p c m seen xs r h,
  collect_complete p c m (opposite p c m x ∷ seen) xs r h,
)

In-select :
    (p : MapRow → Bool) (r : MapRow) (rs : List MapRow) → In r rs → p r ≡ true → In r (select p rs)
In-select p r [] h e = absurd h
In-select p r (x ∷ xs) (inl q) e = rw (q, e) (inl refl)
In-select p r (x ∷ xs) (inr h) e = elim (Bool-cases (p x)) [
  | inl t ↦ rw t (inr (In-select p r xs h e))
  | inr f ↦ rw f (In-select p r xs h e)
]

-- An entry that is the opposite end of one of the rows, which matches the question.
abbrev FromRow : Platform → Text → ℕ → Option ℕ → List MapRow → Counterpart → Type 0
FromRow p c m pair_id rs o =
    (r : MapRow) × In r rs × (is_mapped p c m pair_id r ≡ true) × (o ≡ opposite p c m r)

head_or_tail :
    (p : MapRow → Bool) (r x : MapRow) (xs : List MapRow)
    → (In r (select p xs) → In r xs × (p r ≡ true))
    → p x ≡ true
    → (x ≡ r) ⊎ In r (select p xs)
    → In r (x ∷ xs) × (p r ≡ true)
head_or_tail p r x xs ih t (inl e) = (inl e, subst (λ y. p y ≡ true) e t)
head_or_tail p r x xs ih t (inr k) = let (i, e) = ih k in (inr i, e)

select-In :
    (p : MapRow → Bool) (r : MapRow) (rs : List MapRow)
    → In r (select p rs)
    → In r rs × (p r ≡ true)
select-In p r [] h = absurd h
select-In p r (x ∷ xs) h = elim (Bool-cases (p x)) [
  | inl t ↦ head_or_tail p r x xs (select-In p r xs) t (rw t at h)
  | inr f ↦ let (i, e) = select-In p r xs (rw f at h) in (inr i, e)
]

collect-FromRow :
    (p : Platform) (c : Text) (m : ℕ) (pair_id : Option ℕ) (all : List MapRow)
    (seen : List Counterpart) (rs : List MapRow)
    → ((r : MapRow) → In r rs → In r all × (is_mapped p c m pair_id r ≡ true))
    → All (FromRow p c m pair_id all) (collect p c m seen rs)
unfolding collect
collect-FromRow p c m pair_id all seen [] h = tt
collect-FromRow p c m pair_id all seen (r ∷ rs) h =
    elim (Bool-cases (any (same_key (opposite p c m r)) seen)) [
      | inl old ↦ rw old (collect-FromRow p c m pair_id all seen rs (λ x i. h x (inr i)))
      | inr new ↦
          let (i, e) = h r (inl refl) in
          rw new (
            (r, i, e, refl),
            collect-FromRow p c m pair_id all (opposite p c m r ∷ seen) rs (λ x i'. h x (inr i')),
          )
    ]

-- Every counterpart is the other end of a row of the map that matches the question.
other_side_sound :
    (p : Platform) (c : Text) (m : ℕ) (pair_id : Option ℕ) (db : Database)
    → All (FromRow p c m pair_id db.msg_map.rows) (other_side p c m pair_id db)
unfolding other_side
other_side_sound p c m pair_id db =
    collect-FromRow p c m pair_id db.msg_map.rows [] _
      (λ r h. select-In (is_mapped p c m pair_id) r db.msg_map.rows h)

-- The row joins the message asked for to the answer: its source is the one and its destination
-- the other, or its source is another message, its destination the one and its source the answer.
abbrev Joins : Platform → Text → ℕ → MapRow → Counterpart → Type 0
Joins p c m r o =
    (r.pair_id ≡ o.pair_id)
    × ((((r.src_platform ≡ p) × (r.src_chat ≡ c) × (r.src_msg ≡ m))
          × (r.dst_platform ≡ o.platform)
          × (r.dst_chat ≡ o.chat)
          × (r.dst_msg ≡ o.msg))
        ⊎ (¬ ((r.src_platform ≡ p) × (r.src_chat ≡ c) × (r.src_msg ≡ m))
            × ((r.dst_platform ≡ p) × (r.dst_chat ≡ c) × (r.dst_msg ≡ m))
            × (r.src_platform ≡ o.platform)
            × (r.src_chat ≡ o.chat)
            × (r.src_msg ≡ o.msg)))

platform_eq→eq : (a b : Platform) → platform_eq a b ≡ true → a ≡ b
unfolding platform_eq
platform_eq→eq tg tg h = refl
platform_eq→eq bale bale h = refl
platform_eq→eq tg bale h = cc
platform_eq→eq bale tg h = cc

-- The test for an end of a row, as equations.
end_iff :
    (a p : Platform) (b c : Text) (d m : ℕ)
    → ((platform_eq a p && (text_eq b c && d == m)) ≡ true) ↔ ((a ≡ p) × (b ≡ c) × (d ≡ m))
end_iff a p b c d m = (
  λ h. (
    platform_eq→eq a p (ground (arith, h)),
    text_eq→eq b c (ground (arith, h)),
    (==_iff d m).0 (ground (arith, h)),
  ),
  λ (x, y, z). rw (x, y, z) (ground (arith, platform_eq_refl p, text_eq_refl c, ==_refl m)),
)

same_key-eq :
    (a b : Counterpart)
    → same_key a b ≡ true
    → (b.pair_id ≡ a.pair_id) × (b.platform ≡ a.platform) × (b.chat ≡ a.chat) × (b.msg ≡ a.msg)
unfolding same_key
same_key-eq a b h =
    let (x, y, z) =
      (end_iff a.platform b.platform a.chat b.chat a.msg b.msg).0 (ground (arith, h)) in
    (ground (arith, h), sym x, sym y, sym z)

eq-same_key :
    (a b : Counterpart)
    → (b.pair_id ≡ a.pair_id) × (b.platform ≡ a.platform) × (b.chat ≡ a.chat) × (b.msg ≡ a.msg)
    → same_key a b ≡ true
unfolding same_key
eq-same_key a b (w, x, y, z) =
    rw (w, x, y, z)
      (ground
        (arith, platform_eq_refl a.platform, text_eq_refl a.chat, ==_refl a.msg, ==_refl a.pair_id))

-- The two entries are the same message of the same pair.
abbrev Same : Counterpart → Counterpart → Type 0
Same a b = (b.pair_id ≡ a.pair_id) × (b.platform ≡ a.platform) × (b.chat ≡ a.chat) × (b.msg ≡ a.msg)

-- The message is listed for the pair.
abbrev pub Listed : Counterpart → List Counterpart → Type 0
Listed o [] = ⊥
Listed o (x ∷ xs) = Same o x ⊎ Listed o xs

-- No message is listed twice for a pair.
abbrev pub OnceEach : List Counterpart → Type 0
OnceEach [] = Unit
OnceEach (x ∷ xs) = ¬ Listed x xs × OnceEach xs

Listed-any : (o : Counterpart) (xs : List Counterpart) → any (same_key o) xs ≡ true → Listed o xs
Listed-any o [] h = absurd (ground (arith, h))
Listed-any o (x ∷ xs) h = elim (Bool-cases (same_key o x)) [
  | inl t ↦ inl (same_key-eq o x t)
  | inr f ↦ inr (Listed-any o xs (ground (arith, h, f)))
]

any-Listed : (o : Counterpart) (xs : List Counterpart) → Listed o xs → any (same_key o) xs ≡ true
any-Listed o [] h = absurd h
any-Listed o (x ∷ xs) (inl e) = rw (eq-same_key o x e) refl
any-Listed o (x ∷ xs) (inr h) = ground (arith, any-Listed o xs h)

Listed-All :
    {P : Counterpart → Type 0} (o : Counterpart) (xs : List Counterpart)
    → All P xs
    → Listed o xs
    → (x : Counterpart) × P x × Same o x
Listed-All o [] k h = absurd h
Listed-All o (x ∷ xs) (k, ks) (inl e) = (x, k, e)
Listed-All o (x ∷ xs) (k, ks) (inr h) = Listed-All o xs ks h

Same-sym : (a b : Counterpart) → Same a b → Same b a
Same-sym a b (w, x, y, z) = (sym w, sym x, sym y, sym z)

Same-Listed : (a b : Counterpart) (xs : List Counterpart) → Same a b → Listed b xs → Listed a xs
Same-Listed a b [] s h = absurd h
Same-Listed a b (x ∷ xs) (v, w, y, z) (inl (v', w', y', z')) = inl (v' ∙ v, w' ∙ w, y' ∙ y, z' ∙ z)
Same-Listed a b (x ∷ xs) s (inr h) = inr (Same-Listed a b xs s h)

Fresh-Listed :
    (o : Counterpart) (seen xs : List Counterpart)
    → Fresh seen xs
    → ((y : Counterpart) → Same y o → any (same_key y) seen ≡ true)
    → ¬ Listed o xs
Fresh-Listed o seen [] f h k = absurd k
Fresh-Listed o seen (x ∷ xs) (n, f) h (inl e) = let s = h x (Same-sym o x e) in cc
Fresh-Listed o seen (x ∷ xs) (n, f) h (inr k) =
    Fresh-Listed o (x ∷ seen) xs f (λ y e. let s = h y e in ground (arith, s)) k

Fresh-OnceEach : (seen xs : List Counterpart) → Fresh seen xs → OnceEach xs
Fresh-OnceEach seen [] f = tt
Fresh-OnceEach seen (x ∷ xs) (n, f) = (
  Fresh-Listed x (x ∷ seen) xs f (λ y e. rw (eq-same_key y x e) refl),
  Fresh-OnceEach (x ∷ seen) xs f,
)

is_src_iff :
    (p : Platform) (c : Text) (m : ℕ) (r : MapRow)
    → (is_src p c m r ≡ true) ↔ ((r.src_platform ≡ p) × (r.src_chat ≡ c) × (r.src_msg ≡ m))
unfolding is_src
is_src_iff p c m r = end_iff r.src_platform p r.src_chat c r.src_msg m

is_dst_iff :
    (p : Platform) (c : Text) (m : ℕ) (r : MapRow)
    → (is_dst p c m r ≡ true) ↔ ((r.dst_platform ≡ p) × (r.dst_chat ≡ c) × (r.dst_msg ≡ m))
unfolding is_dst
is_dst_iff p c m r = end_iff r.dst_platform p r.dst_chat c r.dst_msg m

-- The opposite end of a row that matches is one that the row joins to the message.
opposite-Joins :
    (p : Platform) (c : Text) (m : ℕ) (r : MapRow) (o : Counterpart)
    → (is_src p c m r || is_dst p c m r) ≡ true
    → same_key o (opposite p c m r) ≡ true
    → Joins p c m r o
unfolding opposite dst_of src_of
opposite-Joins p c m r o h k = elim (Bool-cases (is_src p c m r)) [
  | inl t ↦
      let (v, x, y, z) = same_key-eq o (dst_of r) (rw t at k) in
      (v, inl ((is_src_iff p c m r).0 t, x, y, z))
  | inr f ↦
      let (v, x, y, z) = same_key-eq o (src_of r) (rw f at k) in
      let n : ¬ ((r.src_platform ≡ p) × (r.src_chat ≡ c) × (r.src_msg ≡ m)) =
        λ q. (let e = (is_src_iff p c m r).1 q in cc) in
      (v, inr (n, (is_dst_iff p c m r).0 (ground (arith, h, f)), x, y, z))
]

Joins-opposite :
    (p : Platform) (c : Text) (m : ℕ) (r : MapRow) (o : Counterpart)
    → Joins p c m r o
    → ((is_src p c m r || is_dst p c m r) ≡ true) × (same_key o (opposite p c m r) ≡ true)
unfolding opposite dst_of src_of
Joins-opposite p c m r o (k, inl (q, x, y, z)) =
    let t = (is_src_iff p c m r).1 q in rw t (refl, eq-same_key o (dst_of r) (k, x, y, z))
Joins-opposite p c m r o (k, inr (n, q, x, y, z)) = elim (Bool-cases (is_src p c m r)) [
  | inl t ↦ absurd (n ((is_src_iff p c m r).0 t))
  | inr f ↦ rw f ((is_dst_iff p c m r).1 q, eq-same_key o (src_of r) (k, x, y, z))
]

in_pair-eq : (k : Option ℕ) (r : MapRow) → in_pair k r ≡ true → (n : ℕ) → k ≡ some n → r.pair_id ≡ n
in_pair-eq k r h n e = (==_iff r.pair_id n).0 (rw e at h)

eq-in_pair :
    (k : Option ℕ) (r : MapRow) → ((n : ℕ) → k ≡ some n → r.pair_id ≡ n) → in_pair k r ≡ true
eq-in_pair none r h = refl
eq-in_pair (some n) r h = (==_iff r.pair_id n).1 (h n refl)

-- A row of the map, of the pair if one is given, joins the message asked for to the entry.
abbrev pub IsJoined : Platform → Text → ℕ → Option ℕ → List MapRow → Counterpart → Type 0
IsJoined p c m pair_id rs o =
    (r : MapRow) × In r rs × ((n : ℕ) → pair_id ≡ some n → r.pair_id ≡ n) × Joins p c m r o

Listed-IsJoined :
    (p : Platform) (c : Text) (m : ℕ) (pair_id : Option ℕ) (db : Database) (o : Counterpart)
    → Listed o (other_side p c m pair_id db)
    → IsJoined p c m pair_id db.msg_map.rows o
unfolding is_mapped
Listed-IsJoined p c m pair_id db o h =
    let (x, (r, i, e, q), s) = Listed-All o _ (other_side_sound p c m pair_id db) h in
    (
      r,
      i,
      in_pair-eq pair_id r (ground (arith, e)),
      opposite-Joins p c m r o (ground (arith, e))
          (eq-same_key o (opposite p c m r) (subst (λ (y : Counterpart). Same o y) q s)),
    )

IsJoined-Listed :
    (p : Platform) (c : Text) (m : ℕ) (pair_id : Option ℕ) (db : Database) (o : Counterpart)
    → IsJoined p c m pair_id db.msg_map.rows o
    → Listed o (other_side p c m pair_id db)
unfolding is_mapped other_side
IsJoined-Listed p c m pair_id db o (r, i, k, j) =
    let (hit, same) = Joins-opposite p c m r o j in
    let e : is_mapped p c m pair_id r ≡ true = rw (hit, eq-in_pair pair_id r k) refl in
    let listed =
      collect_complete p c m [] (select (is_mapped p c m pair_id) db.msg_map.rows) r
        (In-select (is_mapped p c m pair_id) r db.msg_map.rows i e) in
    Same-Listed o (opposite p c m r) _ (same_key-eq o (opposite p c m r) same)
      (Listed-any (opposite p c m r) _ (ground (arith, listed)))

-- The answer of `other_side` lists no message twice for a pair, and lists a message for a pair
-- exactly if a row of the map with that pair, and with the pair asked for if there is one, joins
-- it to the message asked for: the row has the one asked for as its source and the other as its
-- destination, or has another source, the one asked for as its destination, and the other as its
-- source.
pub other_side_lem :
    (p : Platform) (c : Text) (m : ℕ) (pair_id : Option ℕ) (db : Database)
    → OnceEach (other_side p c m pair_id db)
      × ((o : Counterpart)
          → Listed o (other_side p c m pair_id db) ↔ IsJoined p c m pair_id db.msg_map.rows o)
other_side_lem p c m pair_id db = (
  Fresh-OnceEach [] _ (other_side-Fresh p c m pair_id db),
  λ o. (Listed-IsJoined p c m pair_id db o, IsJoined-Listed p c m pair_id db o),
)
