-- ===== src/Textfmt/Utf16.antt =====
-- bridge/textfmt/types_map.py and `build_entities` of bridge/transfer/types_map.py: offsets in
-- UTF-16 units, as Telegram counts them, against Python's offsets in code points.
pub mod Laws
use tg_bale_bridge.Prelude.{
  ltb, ◌==◌, if◌then◌else◌, length, null, Text, ℕ, ◌+◌, ◌-◌, ◌||◌, Option, none, some, List, [],
  ◌∷◌, ◌++◌,
}

abbrev pub limit_text : ℕ
limit_text = 4096

-- The UTF-16 units of one character.
pub width : ℕ → ℕ
width c = if ltb 65535 c then 2 else 1

pub utf16_len : Text → ℕ
unfolding width
utf16_len [] = 0
utf16_len (c ∷ cs) = width c + utf16_len cs

-- The dict of the loop, from the running values of `u16` and `i`, as its list of entries.
pub index_map_from : ℕ → ℕ → Text → List (ℕ × ℕ)
unfolding width
index_map_from u i [] = (u, i) ∷ []
index_map_from u i (c ∷ cs) = (u, i) ∷ index_map_from (u + width c) (i + 1) cs

pub utf16_index_map : Text → List (ℕ × ℕ)
unfolding index_map_from
utf16_index_map t = index_map_from 0 0 t

-- `mapping.get(k)`
pub lookup_index : ℕ → List (ℕ × ℕ) → Option ℕ
lookup_index k [] = none
lookup_index k ((j, v) ∷ m) = if j == k then some v else lookup_index k m

-- The dict `p2u` of `build_entities`: from code-point offsets to UTF-16 offsets.
pub unit_map_from : ℕ → ℕ → Text → List (ℕ × ℕ)
unfolding width
unit_map_from u i [] = (i, u) ∷ []
unit_map_from u i (c ∷ cs) = (i, u) ∷ unit_map_from (u + width c) (i + 1) cs

pub data Style : Type 0 where
  bold italic : Style
  -- `text_link`, with its address; `None` and the empty address read alike
  link : Text → Style

-- An entity: its style, offset and length.
pub record Entity : Type 0 where
  pub style : Style
  pub offset : ℕ
  pub len : ℕ

abbrev or_zero : Option ℕ → ℕ → ℕ
or_zero none d = d
or_zero (some v) d = v

-- The entity in UTF-16 units; a link with no address is left out.
restyle : Entity → ℕ → ℕ → List Entity
restyle e off_u len_u = elim e.style [
  | bold ↦ record { style = bold; offset = off_u; len = len_u } ∷ []
  | italic ↦ record { style = italic; offset = off_u; len = len_u } ∷ []
  | link url ↦
      if null url then [] else record { style = link url; offset = off_u; len = len_u } ∷ []
]

-- One round of the loop of `build_entities`. Offsets are never negative in this model.
pub build_entity : Text → Entity → List Entity
unfolding restyle lookup_index unit_map_from
build_entity text e =
    let p2u = unit_map_from 0 0 text in
    let off_u = or_zero (lookup_index e.offset p2u) 0 in
    let len_u = or_zero (lookup_index (e.offset + e.len) p2u) (utf16_len text) - off_u in
    if ltb (length text) (e.offset + e.len) || e.len == 0 then [] else restyle e off_u len_u

unfoldable pub build_entities : Text → List Entity → List Entity
unfolding build_entity
build_entities text [] = []
build_entities text (e ∷ es) = build_entity text e ++ build_entities text es
