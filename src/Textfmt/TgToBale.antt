-- ===== src/Textfmt/TgToBale.antt =====
-- bridge/textfmt/tg2bale.py: a Telegram text with entities becomes Bale's Markdown.
pub mod Laws
use tg_bale_bridge.Prelude.{
  ltb, leb, ◌==◌, if◌then◌else◌, take, drop, null, Text, codes, strip, starts_with, ℕ, ◌+◌, ◌-◌,
  Bool, ◌&&◌, ◌||◌, Option, none, some, List, [], ◌∷◌, ◌++◌,
}
use tg_bale_bridge.Textfmt.Utf16.{utf16_index_map, lookup_index}

-- The class of a Telegram entity, with the address that a text link carries.
pub data EntityClass : Type 0 where
  bold_class italic_class plain_url_class other_class : EntityClass
  text_url_class : Text → EntityClass

pub record TgEntity : Type 0 where
  pub entity_class : EntityClass
  pub offset : ℕ
  pub len : ℕ

pub data Tag : Type 0 where
  bold_tag italic_tag : Tag
  -- the empty address stands for `None`
  url_tag : Text → Tag

supported : EntityClass → Option Tag
supported bold_class = some bold_tag
supported italic_class = some italic_tag
supported plain_url_class = some (url_tag [])
supported (text_url_class url) = some (url_tag url)
supported other_class = none

pub record Span : Type 0 where
  pub start : ℕ
  pub stop : ℕ
  pub tag : Tag

-- One round of the loop that collects the spans, given what the table says of both ends.
pub span_at : Option ℕ → Option ℕ → Option Tag → List Span
span_at (some start) (some stop) (some tag) =
    if leb stop start then [] else record { start = start; stop = stop; tag = tag } ∷ []
span_at _ _ _ = []

pub collect_spans : List (ℕ × ℕ) → List TgEntity → List Span
collect_spans m [] = []
collect_spans m (e ∷ es) =
    span_at (lookup_index e.offset m) (lookup_index (e.offset + e.len) m) (supported e.entity_class)
    ++ collect_spans m es

-- The order of the key `(start, -stop)`.
pub span_le : Span → Span → Bool
span_le a b = ltb a.start b.start || (a.start == b.start && leb b.stop a.stop)

pub insert_span : Span → List Span → List Span
insert_span s [] = s ∷ []
insert_span s (t ∷ ts) = let rest = insert_span s ts in if span_le s t then s ∷ t ∷ ts else t ∷ rest

pub sort_spans : List Span → List Span
sort_spans [] = []
sort_spans (s ∷ ss) = insert_span s (sort_spans ss)

-- `text[a:b]` for `a ≤ b`
abbrev pub slice : Text → ℕ → ℕ → Text
slice text a b = take (b - a) (drop a text)

pub markup : Tag → Text → Text
markup bold_tag chunk = b'*' ∷ (chunk ++ b'*' ∷ [])
markup italic_tag chunk = b'_' ∷ (chunk ++ b'_' ∷ [])
markup (url_tag url) chunk =
    if starts_with (strip chunk) (codes "http")
    then chunk
    else if null url
    then chunk
    else b'[' ∷ (chunk ++ (b']' ∷ b'(' ∷ (url ++ b')' ∷ [])))

-- The rendering loop, from the running `cursor`; a span that starts before it is skipped.
pub render_spans : Text → ℕ → List Span → Text
render_spans text cursor [] = drop cursor text
render_spans text cursor (s ∷ ss) =
    let skipped = render_spans text cursor ss in
    let rest = render_spans text s.stop ss in
    if ltb s.start cursor
    then skipped
    else slice text cursor s.start ++ (markup s.tag (slice text s.start s.stop) ++ rest)

pub tg_text_to_bale : Text → List TgEntity → Text
tg_text_to_bale [] entities = []
tg_text_to_bale (c ∷ cs) [] = c ∷ cs
tg_text_to_bale (c ∷ cs) (e ∷ es) =
    let spans = collect_spans (utf16_index_map (c ∷ cs)) (e ∷ es) in
    if null spans then c ∷ cs else render_spans (c ∷ cs) 0 (sort_spans spans)
