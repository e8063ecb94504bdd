-- ===== src/Textfmt/Splitting/Laws.antt =====
-- bridge/textfmt/splitting.py: the parts of a text, and their lengths.
use tg_bale_bridge.Prelude.{
  ltb, leb, if◌then◌else◌, ltb→lt, leb→le, Bool-cases, length, take, null, All, concat,
  length-append, length-take, Text, ℕ, zero, suc, ◌+◌, ◌≤◌, ◌<◌, ◌≡◌, refl, sym, ap, subst, ◌∙◌,
  ◌⊎◌, inl, inr, true, false, not, ◌&&◌, some, List, [], ◌∷◌, ◌++◌, append-nil, append_assoc, arith,
}
use tg_bale_bridge.Textfmt.Splitting.{
  splitlines, ellipsis, truncate, chunks, Split, flush, place, split_line, split_lines, or_empty,
  split_text,
}
use tg_bale_bridge.Textfmt.Splitting.Pieces.{
  Fits, concat-append, All-append, concat-splitlines, concat-chunks, chunks-Fits,
}

-- What holds between two rounds, after the text `done` has been read.
record Inv (limit : ℕ) (done : Text) (s : Split) : Type 0 where
  kept : concat s.parts ++ concat s.buf ≡ done
  counted : length (concat s.buf) ≡ s.size
  small : s.size ≤ limit
  fit : All (Fits limit) s.parts

flush-Inv : {limit : ℕ} {done : Text} (s : Split) → Inv limit done s → Inv limit done (flush s)
unfolding flush
flush-Inv {limit} s v = record {
  kept = simp (concat-append, append-nil) v.kept;
  counted = refl;
  small = omega arith;
  fit =
      All-append (Fits limit) s.parts (concat s.buf ∷ []) v.fit
        (omega (arith, v.counted, v.small), tt);
}

place_long-Inv :
    (limit : ℕ) {done : Text} (s : Split) (line : Text)
    → 0 < limit
    → s.buf ≡ []
    → Inv limit done s
    → Inv limit (done ++ line) (record s { parts = s.parts ++ chunks (length line) limit line })
place_long-Inv limit {done} s line p e v =
    let kept' : concat s.parts ≡ done =
      sym (append-nil (concat s.parts)) ∙ ap (λ b. concat s.parts ++ concat b) (sym e) ∙ v.kept in
    record {
      kept =
          rw (e, concat-append s.parts (chunks (length line) limit line), append-nil)
            (rw (kept', concat-chunks (length line) limit line p (omega arith)));
      counted = v.counted;
      small = v.small;
      fit = All-append (Fits limit) s.parts _ v.fit (chunks-Fits (length line) limit line);
    }

place_short-Inv :
    (limit : ℕ) {done : Text} (s : Split) (line : Text)
    → s.size + length line ≤ limit
    → Inv limit done s
    → Inv limit (done ++ line) (record s { buf = s.buf ++ line ∷ []; size = s.size + length line })
place_short-Inv limit s line h v = record {
  kept =
      rw (concat-append s.buf (line ∷ []), append-nil line, ← append_assoc)
        (ap (λ t. t ++ line) v.kept);
  counted =
      rw (concat-append s.buf (line ∷ []), append-nil line)
        (omega (arith, length-append (concat s.buf) line, v.counted));
  small = h;
  fit = v.fit;
}

buf_empty :
    (limit : ℕ) (s : Split) (line : Text)
    → ltb limit (length line) ≡ true
    → (s.size + length line ≤ limit) ⊎ (s.buf ≡ [])
    → s.buf ≡ []
buf_empty limit s line long (inl h) = absurd (omega (arith, ltb→lt limit (length line) long))
buf_empty limit s line long (inr e) = e

has_room :
    (limit : ℕ) {done : Text} (s : Split) (line : Text)
    → Inv limit done s
    → ltb limit (length line) ≡ false
    → (s.size + length line ≤ limit) ⊎ (s.buf ≡ [])
    → s.size + length line ≤ limit
has_room limit s line v short (inl h) = h
has_room limit s line v short (inr e) =
    let empty : length (concat s.buf) ≡ 0 = ap (λ b. length (concat b)) e in
    ground (arith, v.counted, empty)

-- A line goes in if there is room for it, or if nothing waits in the buffer.
place-Inv :
    (limit : ℕ) {done : Text} (s : Split) (line : Text)
    → 0 < limit
    → (s.size + length line ≤ limit) ⊎ (s.buf ≡ [])
    → Inv limit done s
    → Inv limit (done ++ line) (place limit s line)
unfolding place
place-Inv limit s line p room v = elim (Bool-cases (ltb limit (length line))) [
  | inl long ↦ rw long (place_long-Inv limit s line p (buf_empty limit s line long room) v)
  | inr short ↦ rw short (place_short-Inv limit s line (has_room limit s line v short room) v)
]

null-buf : (xs : List Text) → null xs ≡ true → xs ≡ []
null-buf [] h = refl
null-buf (x ∷ xs) h = cc

stays :
    (limit : ℕ) (s : Split) (line : Text)
    → (ltb limit (s.size + length line) && not (null s.buf)) ≡ false
    → (s.size + length line ≤ limit) ⊎ (s.buf ≡ [])
stays limit s line h = elim (Bool-cases (null s.buf)) [
  | inl e ↦ inr (null-buf s.buf e)
  | inr e ↦ inl (ground arith)
]

split_line-Inv :
    (limit : ℕ) {done : Text} (s : Split) (line : Text)
    → 0 < limit
    → Inv limit done s
    → Inv limit (done ++ line) (split_line limit s line)
unfolding split_line
split_line-Inv limit s line p v =
    elim (Bool-cases (ltb limit (s.size + length line) && not (null s.buf))) [
      | inl full ↦
          rw full (place-Inv limit (flush s) line p (unfold flush in inr refl) (flush-Inv s v))
      | inr room ↦ rw room (place-Inv limit s line p (stays limit s line room) v)
    ]

split_lines-Inv :
    (limit : ℕ) {done : Text} (s : Split) (lines : List Text)
    → 0 < limit
    → Inv limit done s
    → Inv limit (done ++ concat lines) (split_lines limit s lines)
unfolding split_lines
split_lines-Inv limit {done} s [] p v = subst (λ d. Inv limit d s) (sym (append-nil done)) v
split_lines-Inv limit {done} s (line ∷ lines) p v =
    subst (λ d. Inv limit d (split_lines limit (split_line limit s line) lines))
      (append_assoc done line (concat lines))
      (split_lines-Inv limit (split_line limit s line) lines p (split_line-Inv limit s line p v))

abbrev start : Split
start = record { parts = []; buf = []; size = 0 }

start-Inv : (limit : ℕ) → Inv limit [] start
start-Inv limit = record { kept = refl; counted = refl; small = omega arith; fit = tt }

-- The state after the last line.
final-Inv :
    (limit : ℕ) (t : Text) → 0 < limit → Inv limit t (split_lines limit start (splitlines t))
final-Inv limit t p =
    subst (λ d. Inv limit d (split_lines limit start (splitlines t))) (concat-splitlines t)
      (split_lines-Inv limit start (splitlines t) p (start-Inv limit))

abbrev all_parts : Split → List Text
all_parts s = or_empty (if null s.buf then s.parts else s.parts ++ concat s.buf ∷ [])

concat-or_empty : (ps : List Text) → concat (or_empty ps) ≡ concat ps
concat-or_empty [] = refl
concat-or_empty (p ∷ ps) = refl

or_empty-Fits : (limit : ℕ) (ps : List Text) → All (Fits limit) ps → All (Fits limit) (or_empty ps)
or_empty-Fits limit [] h = (omega arith, tt)
or_empty-Fits limit (p ∷ ps) h = h

concat-all_parts : (limit : ℕ) {t : Text} (s : Split) → Inv limit t s → concat (all_parts s) ≡ t
concat-all_parts limit s v = elim (Bool-cases (null s.buf)) [
  | inl e ↦
      rw (e, concat-or_empty s.parts)
        (sym (append-nil (concat s.parts))
          ∙ ap (λ b. concat s.parts ++ concat b) (sym (null-buf s.buf e))
          ∙ v.kept)
  | inr e ↦ rw (e, concat-or_empty, concat-append s.parts (concat s.buf ∷ []), append-nil) v.kept
]

all_parts-Fits : (limit : ℕ) {t : Text} (s : Split) → Inv limit t s → All (Fits limit) (all_parts s)
unfolding flush
all_parts-Fits limit s v = elim (Bool-cases (null s.buf)) [
  | inl e ↦ rw e (or_empty-Fits limit s.parts v.fit)
  | inr e ↦ rw e (or_empty-Fits limit _ (flush-Inv s v).fit)
]

-- For a positive limit `split_text` returns parts that, put together, are the text, and each of
-- which is at most as long as the limit.
pub split_text_lem :
    (text : Text) (limit : ℕ)
    → 0 < limit
    → (ps : List Text) × (split_text text limit ≡ some ps)
      × (concat ps ≡ text)
      × All (Fits limit) ps
unfolding split_text
split_text_lem text zero p = absurd (omega arith)
split_text_lem text (suc k) p = elim (Bool-cases (leb (length text) (suc k))) [
  | inl fits ↦ (text ∷ [], rw fits, append-nil text, (leb→le (length text) (suc k) fits, tt))
  | inr long ↦
      let s = split_lines (suc k) start (splitlines text) in
      let v = final-Inv (suc k) text p in
      (all_parts s, rw long, concat-all_parts (suc k) s v, all_parts-Fits (suc k) s v)
]

-- `truncate` leaves a text that fits as it is, and makes of any other one of exactly `limit`
-- characters, for a positive limit.
truncate_lem :
    (text : Text) (limit : ℕ)
    → 0 < limit
    → (length text ≤ limit → truncate text limit ≡ text)
      × (limit < length text → length (truncate text limit) ≡ limit)
unfolding truncate
truncate_lem text zero p = absurd (omega arith)
truncate_lem text (suc k) p = (
  λ h. ground arith,
  λ h. ground (arith, length-append (take k text) (ellipsis ∷ []), length-take k text),
)
