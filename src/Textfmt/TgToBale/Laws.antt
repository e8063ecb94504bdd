-- ===== src/Textfmt/TgToBale/Laws.antt =====
-- bridge/textfmt/tg2bale.py: the characters of the converted text.
use tg_bale_bridge.Prelude.{
  ltb, leb, Bool-cases, take, drop, null, All, take-append-drop, Text, codes, strip, starts_with, ℕ,
  zero, suc, ◌-◌, ◌≤◌, ◌<◌, ◌≡◌, refl, sym, subst, inl, inr, Option, none, some, List, [], ◌∷◌,
  ◌++◌, arith,
}
use tg_bale_bridge.Textfmt.Utf16.{utf16_index_map}
use tg_bale_bridge.Textfmt.TgToBale.{
  TgEntity, Tag, bold_tag, italic_tag, url_tag, Span, span_at, collect_spans, span_le, insert_span,
  sort_spans, slice, markup, render_spans, tg_text_to_bale,
}

-- The first text is the second with some characters left out, in order.
pub data Subseq : Text → Text → Type 0 where
  done : Subseq [] []
  keep : (c : ℕ) {xs ys : Text} → Subseq xs ys → Subseq (c ∷ xs) (c ∷ ys)
  skip : (c : ℕ) {xs ys : Text} → Subseq xs ys → Subseq xs (c ∷ ys)

Subseq-refl : (xs : Text) → Subseq xs xs
Subseq-refl [] = done
Subseq-refl (c ∷ xs) = keep c (Subseq-refl xs)

Subseq-append : {xs ys us vs : Text} → Subseq xs ys → Subseq us vs → Subseq (xs ++ us) (ys ++ vs)
Subseq-append done q = q
Subseq-append (keep c p) q = keep c (Subseq-append p q)
Subseq-append (skip c p) q = skip c (Subseq-append p q)

Subseq-nil : (ys : Text) → Subseq [] ys
Subseq-nil [] = done
Subseq-nil (y ∷ ys) = skip y (Subseq-nil ys)

Subseq-append_right : (xs ys : Text) → Subseq xs (xs ++ ys)
Subseq-append_right [] ys = Subseq-nil ys
Subseq-append_right (x ∷ xs) ys = keep x (Subseq-append_right xs ys)

-- Whatever the tag, the marked-up chunk holds the chunk.
markup-Subseq : (tag : Tag) (chunk : Text) → Subseq chunk (markup tag chunk)
unfolding markup
markup-Subseq bold_tag chunk = skip _ (Subseq-append_right chunk _)
markup-Subseq italic_tag chunk = skip _ (Subseq-append_right chunk _)
markup-Subseq (url_tag url) chunk = elim (Bool-cases (starts_with (strip chunk) (codes "http"))) [
  | inl h ↦ rw h (Subseq-refl chunk)
  | inr h ↦ rw h (elim (Bool-cases (null url)) [
    | inl e ↦ rw e (Subseq-refl chunk)
    | inr e ↦ rw e (skip _ (Subseq-append_right chunk _))
  ])
]

take-nil : (n : ℕ) → take {A = ℕ} n [] ≡ []
take-nil zero = refl
take-nil (suc n) = refl

drop-eq-slice-append : (a b : ℕ) (t : Text) → a ≤ b → drop a t ≡ slice t a b ++ drop b t
drop-eq-slice-append zero b t h =
    let e : b - 0 ≡ b = omega arith in rw e (sym (take-append-drop b t))
drop-eq-slice-append (suc a) zero t h = absurd (omega arith)
drop-eq-slice-append (suc a) (suc b) [] h = rw take-nil
drop-eq-slice-append (suc a) (suc b) (c ∷ cs) h =
    let e : suc b - suc a ≡ b - a = omega arith in rw e (drop-eq-slice-append a b cs (omega arith))

-- One span, rendered at the cursor.
render_span-Subseq :
    (text rest : Text) (cursor : ℕ) (s : Span)
    → cursor ≤ s.start
    → s.start ≤ s.stop
    → Subseq (drop s.stop text) rest
    → Subseq
        (drop cursor text)
        (slice text cursor s.start ++ (markup s.tag (slice text s.start s.stop) ++ rest))
render_span-Subseq text rest cursor s p q r =
    let chunk = slice text s.start s.stop in
    let tail : Subseq (drop s.start text) (markup s.tag chunk ++ rest) =
      subst (λ d. Subseq d (markup s.tag chunk ++ rest))
        (sym (drop-eq-slice-append s.start s.stop text q))
        (Subseq-append (markup-Subseq s.tag chunk) r) in
    subst (λ d. Subseq d (slice text cursor s.start ++ (markup s.tag chunk ++ rest)))
      (sym (drop-eq-slice-append cursor s.start text p))
      (Subseq-append (Subseq-refl (slice text cursor s.start)) tail)

-- A span ends behind its start.
abbrev Ordered : Span → Type 0
Ordered s = s.start < s.stop

render_spans-Subseq :
    (text : Text) (cursor : ℕ) (ss : List Span)
    → All Ordered ss
    → Subseq (drop cursor text) (render_spans text cursor ss)
unfolding render_spans
render_spans-Subseq text cursor [] h = Subseq-refl (drop cursor text)
render_spans-Subseq text cursor (s ∷ ss) h = elim (Bool-cases (ltb s.start cursor)) [
  | inl overlap ↦ rw overlap (render_spans-Subseq text cursor ss h.1)
  | inr free ↦ rw free (
      render_span-Subseq text (render_spans text s.stop ss) cursor s (ground arith)
        (omega (arith, h.0)) (render_spans-Subseq text s.stop ss h.1))
]

span_at-Ordered : (a b : Option ℕ) (tag : Option Tag) → All Ordered (span_at a b tag)
unfolding span_at
span_at-Ordered none b tag = tt
span_at-Ordered (some a) none tag = tt
span_at-Ordered (some a) (some b) none = tt
span_at-Ordered (some a) (some b) (some tag) = elim (Bool-cases (leb b a)) [
  | inl h ↦ rw h tt
  | inr h ↦ rw h (ground arith, tt)
]

Ordered-append : (xs ys : List Span) → All Ordered xs → All Ordered ys → All Ordered (xs ++ ys)
Ordered-append [] ys h k = k
Ordered-append (x ∷ xs) ys h k = (h.0, Ordered-append xs ys h.1 k)

collect_spans-Ordered : (m : List (ℕ × ℕ)) (es : List TgEntity) → All Ordered (collect_spans m es)
unfolding collect_spans
collect_spans-Ordered m [] = tt
collect_spans-Ordered m (e ∷ es) =
    Ordered-append _ _ (span_at-Ordered _ _ _) (collect_spans-Ordered m es)

insert_span-Ordered :
    (s : Span) (ss : List Span) → Ordered s → All Ordered ss → All Ordered (insert_span s ss)
unfolding insert_span
insert_span-Ordered s [] p h = (p, tt)
insert_span-Ordered s (t ∷ ts) p h = elim (Bool-cases (span_le s t)) [
  | inl e ↦ rw e (p, h)
  | inr e ↦ rw e (h.0, insert_span-Ordered s ts p h.1)
]

sort_spans-Ordered : (ss : List Span) → All Ordered ss → All Ordered (sort_spans ss)
unfolding sort_spans
sort_spans-Ordered [] h = tt
sort_spans-Ordered (s ∷ ss) h =
    insert_span-Ordered s (sort_spans ss) h.0 (sort_spans-Ordered ss h.1)

-- Whatever the entities are, no character of a text is lost or moved on its way to Bale: the
-- text is a subsequence of what is sent.
tg_text_to_bale-Subseq :
    (text : Text) (entities : List TgEntity) → Subseq text (tg_text_to_bale text entities)
unfolding tg_text_to_bale
tg_text_to_bale-Subseq [] es = done
tg_text_to_bale-Subseq (c ∷ cs) [] = Subseq-refl (c ∷ cs)
tg_text_to_bale-Subseq (c ∷ cs) (e ∷ es) =
    let spans = collect_spans (utf16_index_map (c ∷ cs)) (e ∷ es) in
    elim (Bool-cases (null spans)) [
      | inl h ↦ rw h (Subseq-refl (c ∷ cs))
      | inr h ↦ rw h (
          render_spans-Subseq (c ∷ cs) 0 (sort_spans spans)
            (sort_spans-Ordered spans (collect_spans-Ordered _ (e ∷ es))))
    ]
