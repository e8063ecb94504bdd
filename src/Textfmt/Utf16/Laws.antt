-- ===== src/Textfmt/Utf16/Laws.antt =====
-- bridge/textfmt/types_map.py and bridge/transfer/types_map.py: both offset tables.
use tg_bale_bridge.Prelude.{
  length, take, Text, ℕ, zero, suc, ◌+◌, ◌-◌, ◌≤◌, ◌<◌, ◌≡◌, refl, ◌⊎◌, inl, inr, some, [], ◌∷◌,
  arith,
}
use tg_bale_bridge.Textfmt.Utf16.{
  width, utf16_len, index_map_from, utf16_index_map, lookup_index, unit_map_from, Style, bold,
  italic, link, Entity, restyle, build_entity,
}

width_pos : (c : ℕ) → 0 < width c
unfolding width
width_pos c = ground arith

-- The table from units to characters, at the units of a prefix.
index_map_from-prefix :
    (u i k : ℕ) (t : Text)
    → k ≤ length t
    → lookup_index (u + utf16_len (take k t)) (index_map_from u i t) ≡ some (i + k)
unfolding index_map_from lookup_index utf16_len
index_map_from-prefix u i zero [] h = ground arith
index_map_from-prefix u i zero (c ∷ cs) h = ground arith
index_map_from-prefix u i (suc k) [] h = absurd (omega arith)
index_map_from-prefix u i (suc k) (c ∷ cs) h =
    ground (arith, width_pos c, index_map_from-prefix (u + width c) (i + 1) k cs (omega arith))

unit_map_from-prefix :
    (u i k : ℕ) (t : Text)
    → k ≤ length t
    → lookup_index (i + k) (unit_map_from u i t) ≡ some (u + utf16_len (take k t))
unfolding unit_map_from lookup_index utf16_len
unit_map_from-prefix u i zero [] h = ground arith
unit_map_from-prefix u i zero (c ∷ cs) h = ground arith
unit_map_from-prefix u i (suc k) [] h = absurd (omega arith)
unit_map_from-prefix u i (suc k) (c ∷ cs) h =
    ground (arith, unit_map_from-prefix (u + width c) (i + 1) k cs (omega arith))

utf16_len_mono : (k n : ℕ) (t : Text) → k ≤ n → utf16_len (take k t) ≤ utf16_len (take n t)
unfolding utf16_len
utf16_len_mono zero n t h = omega arith
utf16_len_mono (suc k) zero t h = absurd (omega arith)
utf16_len_mono (suc k) (suc n) [] h = omega arith
utf16_len_mono (suc k) (suc n) (c ∷ cs) h = omega (arith, utf16_len_mono k n cs (omega arith))

-- The styles that `build_entities` keeps: all but a link with no address.
abbrev pub IsRendered : Style → Type 0
IsRendered (link []) = ⊥
IsRendered _ = Unit

restyle_lem :
    (s : Style) (e : Entity) (off_u len_u : ℕ)
    → e.style ≡ s
    → IsRendered s
    → restyle e off_u len_u ≡ record { style = e.style; offset = off_u; len = len_u } ∷ []
unfolding restyle
restyle_lem bold e off_u len_u p h = ground arith
restyle_lem italic e off_u len_u p h = ground arith
restyle_lem (link []) e off_u len_u p h = absurd h
restyle_lem (link (c ∷ cs)) e off_u len_u p h = ground arith

-- What `build_entity` makes of an entity inside the text.
build_entity_lem :
    (text : Text) (e : Entity)
    → 0 < e.len
    → e.offset + e.len ≤ length text
    → IsRendered e.style
    → let off_u = utf16_len (take e.offset text) in
      let end_u = utf16_len (take (e.offset + e.len) text) in
      build_entity text e ≡ record { style = e.style; offset = off_u; len = end_u - off_u } ∷ []
unfolding build_entity
build_entity_lem text e p q r = ground (
  arith,
  unit_map_from-prefix 0 0 e.offset text (omega arith),
  unit_map_from-prefix 0 0 (e.offset + e.len) text q,
  restyle_lem e.style e (utf16_len (take e.offset text))
      (utf16_len (take (e.offset + e.len) text) - utf16_len (take e.offset text)) refl r,
)

-- The UTF-16 offset and end that are built for a rendered, nonempty entity within the text are
-- read back by `utf16_index_map` as the code-point offset and end it came from.
pub build_entity-utf16_index_map :
    (text : Text) (e : Entity)
    → 0 < e.len
    → e.offset + e.len ≤ length text
    → IsRendered e.style
    → (f : Entity) × (build_entity text e ≡ f ∷ [])
      × (f.style ≡ e.style)
      × (lookup_index f.offset (utf16_index_map text) ≡ some e.offset)
      × (lookup_index (f.offset + f.len) (utf16_index_map text) ≡ some (e.offset + e.len))
unfolding utf16_index_map
build_entity-utf16_index_map text e p q r = (
  record {
    style = e.style;
    offset = utf16_len (take e.offset text);
    len = utf16_len (take (e.offset + e.len) text) - utf16_len (take e.offset text);
  },
  build_entity_lem text e p q r,
  refl,
  ground (arith, index_map_from-prefix 0 0 e.offset text (omega arith)),
  ground (
    arith,
    index_map_from-prefix 0 0 (e.offset + e.len) text q,
    utf16_len_mono e.offset (e.offset + e.len) text (omega arith),
  ),
)

-- An entity that reaches past the end, or is empty, is left out.
build_entity-nil :
    (text : Text) (e : Entity)
    → (e.len ≡ 0) ⊎ (length text < e.offset + e.len)
    → build_entity text e ≡ []
unfolding build_entity
build_entity-nil text e (inl h) = ground arith
build_entity-nil text e (inr h) = ground arith
