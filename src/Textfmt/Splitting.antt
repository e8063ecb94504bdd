-- ===== src/Textfmt/Splitting.antt =====
-- bridge/textfmt/splitting.py: cutting a text to the platform's limit.
-- Lengths count code points, as Python's `len` does. A limit is a natural number.
pub mod Pieces
pub mod Laws
use tg_bale_bridge.Prelude.{
  ltb, leb, ◌==◌, if◌then◌else◌, length, take, drop, null, concat, Text, strip, ℕ, zero, suc, ◌+◌,
  ◌-◌, Bool, false, not, ◌&&◌, ◌||◌, Option, none, some, List, [], ◌∷◌, ◌++◌,
}

-- The line boundaries of `str.splitlines`.
is_break : ℕ → Bool
is_break c = (leb 10 c && leb c 13) || (leb 28 c && leb c 30) || c == 133 || c == 8232 || c == 8233

abbrev starts_with_newline : Text → Bool
starts_with_newline [] = false
starts_with_newline (c ∷ cs) = c == 10

abbrev cons_first : ℕ → List Text → List Text
cons_first c [] = (c ∷ []) ∷ []
cons_first c (l ∷ ls) = (c ∷ l) ∷ ls

-- `str.splitlines(keepends=True)`: a carriage return before a newline does not end its line.
pub splitlines : Text → List Text
unfolding is_break
splitlines [] = []
splitlines (c ∷ cs) =
    let rest = splitlines cs in
    if is_break c && not (c == 13 && starts_with_newline cs)
    then (c ∷ []) ∷ rest
    else cons_first c rest

abbrev pub ellipsis : ℕ
ellipsis = 8230

-- With limit 0 the slice `text[: limit - 1]` counts from the end, and drops one character.
pub truncate : Text → ℕ → Text
truncate text zero =
    if leb (length text) 0 then text else take (length text - 1) text ++ ellipsis ∷ []
truncate text (suc k) = if leb (length text) (suc k) then text else take k text ++ ellipsis ∷ []

pub join_header : Text → Text → Text
join_header [] body = body
join_header (h ∷ hs) body = if null (strip body) then h ∷ hs else (h ∷ hs) ++ (10 ∷ body)

-- `line[i:i + limit]` for `i` in `range(0, len(line), limit)`; `len(line)` rounds are enough.
pub chunks : ℕ → ℕ → Text → List Text
chunks zero limit line = []
chunks (suc f) limit [] = []
chunks (suc f) limit (c ∷ cs) = take limit (c ∷ cs) ∷ chunks f limit (drop limit (c ∷ cs))

-- The loop's variables; `size` is the number of characters in `buf`.
pub record Split : Type 0 where
  pub parts : List Text
  pub buf : List Text
  pub size : ℕ

unfoldable pub flush : Split → Split
flush s = record { parts = s.parts ++ concat s.buf ∷ []; buf = []; size = 0 }

pub place : ℕ → Split → Text → Split
unfolding chunks
place limit s line =
    if ltb limit (length line)
    then record s { parts = s.parts ++ chunks (length line) limit line }
    else record s { buf = s.buf ++ line ∷ []; size = s.size + length line }

-- One round of the loop over the lines.
pub split_line : ℕ → Split → Text → Split
split_line limit s line =
    if ltb limit (s.size + length line) && not (null s.buf)
    then place limit (flush s) line
    else place limit s line

pub split_lines : ℕ → Split → List Text → Split
unfolding split_line flush place
split_lines limit s [] = s
split_lines limit s (line ∷ lines) = split_lines limit (split_line limit s line) lines

abbrev or_empty : List Text → List Text
or_empty [] = [] ∷ []
or_empty (p ∷ ps) = p ∷ ps

-- `none` is the `ValueError` of a `range` with step 0, which a text that is too long meets at
-- its first line.
pub split_text : Text → ℕ → Option (List Text)
unfolding split_lines splitlines flush
split_text text zero = if leb (length text) 0 then some (text ∷ []) else none
split_text text (suc k) =
    if leb (length text) (suc k)
    then some (text ∷ [])
    else (let s =
          split_lines (suc k) (record { parts = []; buf = []; size = 0 }) (splitlines text) in
        some (or_empty (if null s.buf then s.parts else s.parts ++ concat s.buf ∷ [])))
