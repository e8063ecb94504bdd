-- ===== src/Textfmt/BaleToTg.antt =====
-- bridge/textfmt/bale2tg.py: Bale's Markdown becomes a plain text with entities, and the pattern
-- `MD_PAT` of bridge/textfmt/types_map.py. Offsets count code points of the plain text.
pub mod Laws
use tg_bale_bridge.Prelude.{
  ◌==◌, if◌then◌else◌, length, drop, Text, codes, is_space, starts_with, ℕ, zero, suc, ◌+◌, Bool,
  not, ◌&&◌, Option, none, some, List, [], ◌∷◌, ◌++◌,
}
use tg_bale_bridge.Textfmt.Utf16.{Style, bold, italic, link, Entity}

-- The longest prefix of characters that pass a test, and what follows.
pub span_of : (ℕ → Bool) → Text → Text × Text
span_of p [] = ([], [])
span_of p (c ∷ cs) = let (a, b) = span_of p cs in if p c then (c ∷ a, b) else ([], c ∷ cs)

-- A match of the pattern: the style, the body, and the text behind the match.
pub record Match : Type 0 where
  pub style : Style
  pub body : Text
  pub rest : Text

-- A nonempty body, closed by the character `stop`.
pub closed : ℕ → Style → Text × Text → Option Match
closed stop style ([], rest) = none
closed stop style (b ∷ bs, []) = none
closed stop style (b ∷ bs, c ∷ rest) =
    if c == stop then some (record { style = style; body = b ∷ bs; rest = rest }) else none

abbrev not_newline_nor : ℕ → ℕ → Bool
not_newline_nor stop c = not (c == stop) && not (c == 10)

abbrev url_char : ℕ → Bool
url_char c = not (c == b')') && not (is_space c)

-- `https?://`, and what follows
pub scheme : Text → Option (Text × Text)
scheme t =
    if starts_with t (codes "https://")
    then some (codes "https://", drop 8 t)
    else if starts_with t (codes "http://")
    then some (codes "http://", drop 7 t)
    else none

abbrev close_url : Text → Text → Option Match → Option Match
close_url address body none = none
close_url address body (some m) =
    some (record { style = link (address ++ m.body); body = body; rest = m.rest })

-- `(url)` behind the closing bracket of the body
pub link_target : Text → Text → Option Match
link_target body [] = none
link_target body (c ∷ t) =
    if c == b'('
    then elim (scheme t) [
      | none ↦ none
      | some (address, u) ↦ close_url address body (closed b')' bold (span_of url_char u))
    ]
    else none

abbrev link_after : Option Match → Option Match
link_after none = none
link_after (some m) = link_target m.body m.rest

abbrev or_else : Option Match → Option Match → Option Match
or_else none n = n
or_else (some m) n = some m

-- The pattern at one position: a link, bold, italic, in this order.
pub md_match : Text → Option Match
md_match [] = none
md_match (c ∷ cs) =
    if c == b'['
    then link_after (closed b']' bold (span_of (not_newline_nor b']') cs))
    else if c == b'*'
    then closed b'*' bold (span_of (not_newline_nor b'*') cs)
    else if c == b'_'
    then closed b'_' italic (span_of (not_newline_nor b'_') cs)
    else none

abbrev literal : ℕ → Text × List Entity → Text × List Entity
literal c r = (c ∷ r.0, r.1)

abbrev styled : ℕ → Match → Text × List Entity → Text × List Entity
styled cur m r =
    (m.body ++ r.0, record { style = m.style; offset = cur; len = length m.body } ∷ r.1)

-- The loop over `MD_PAT.finditer(text)`, a character or a match at a time, from the running
-- `cur_len`; `len(text)` rounds are enough, since each one reads a character at least.
pub md_scan : ℕ → ℕ → Text → Text × List Entity
md_scan zero cur t = (t, [])
md_scan (suc f) cur [] = ([], [])
md_scan (suc f) cur (c ∷ cs) = elim (md_match (c ∷ cs)) [
  | none ↦ literal c (md_scan f (cur + 1) cs)
  | some m ↦ styled cur m (md_scan f (cur + length m.body) m.rest)
]

pub bale_text_to_tg : Text → Text × List Entity
unfolding md_scan
bale_text_to_tg t = md_scan (length t) 0 t
