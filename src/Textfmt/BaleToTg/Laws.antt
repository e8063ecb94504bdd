-- ===== src/Textfmt/BaleToTg/Laws.antt =====
-- bridge/textfmt/bale2tg.py: the positions of the entities.
use tg_bale_bridge.Prelude.{
  ◌==◌, if◌then◌else◌, Option-cases, length, All, length-append, Text, codes, is_space, starts_with,
  ℕ, zero, suc, ◌+◌, ◌≤◌, ◌<◌, ◌≡◌, refl, ap, subst, inl, inr, Bool, true, false, Option, none,
  some, List, [], ◌∷◌, ◌++◌, arith,
}
use tg_bale_bridge.Textfmt.Utf16.{Style, bold, italic, link, Entity, build_entities}
use tg_bale_bridge.Textfmt.Utf16.Laws.{IsRendered, build_entity-utf16_index_map}
use tg_bale_bridge.Textfmt.BaleToTg.{
  span_of, Match, closed, url_char, scheme, close_url, link_target, link_after, md_match, literal,
  styled, md_scan, bale_text_to_tg,
}

sample : bale_text_to_tg (codes "a *b* _c_ [d](https://x.y) *") ≡ (
  codes "a b c d *",
  record { style = bold; offset = 2; len = 1 }
      ∷ record { style = italic; offset = 4; len = 1 }
      ∷ record { style = link (codes "https://x.y"); offset = 6; len = 1 }
      ∷ [],
)
unfolding bale_text_to_tg md_match closed span_of link_target scheme starts_with is_space
sample = refl

-- What a match of the pattern promises: a body, and an address if it is a link.
abbrev Good : Option Match → Type 0
Good none = Unit
Good (some m) = (0 < length m.body) × IsRendered m.style

Good-if : (b : Bool) (x y : Option Match) → Good x → Good y → Good (if b then x else y)
Good-if true x y p q = p
Good-if false x y p q = q

closed-Good :
    (stop : ℕ) (style : Style) (p : Text × Text) → IsRendered style → Good (closed stop style p)
unfolding closed
closed-Good stop style ([], rest) r = tt
closed-Good stop style (b ∷ bs, []) r = tt
closed-Good stop style (b ∷ bs, c ∷ rest) r = Good-if (c == stop) _ _ (omega arith, r) tt

IsRendered-link : (address url : Text) → 0 < length url → IsRendered (link (address ++ url))
IsRendered-link [] [] h = absurd (omega arith)
IsRendered-link [] (u ∷ us) h = tt
IsRendered-link (a ∷ as') url h = tt

close_url-Good :
    (address body : Text) (o : Option Match)
    → 0 < length body
    → Good o
    → Good (close_url address body o)
close_url-Good address body none p g = tt
close_url-Good address body (some m) p g = (p, IsRendered-link address m.body g.0)

link_target-Good : (body t : Text) → 0 < length body → Good (link_target body t)
unfolding link_target
link_target-Good body [] p = tt
link_target-Good body (c ∷ t) p = Good-if (c == b'(') _ none (target (scheme t)) tt
  where
    target :
        (s : Option (Text × Text))
        → Good (elim s [
          | none ↦ none
          | some (address, u) ↦ close_url address body (closed b')' bold (span_of url_char u))
        ])
    target none = tt
    target (some (address, u)) =
        close_url-Good address body (closed b')' bold (span_of url_char u)) p
          (closed-Good b')' bold (span_of url_char u) tt)

link_after-Good : (o : Option Match) → Good o → Good (link_after o)
link_after-Good none g = tt
link_after-Good (some m) g = link_target-Good m.body m.rest g.0

md_match-Good : (t : Text) → Good (md_match t)
unfolding md_match
md_match-Good [] = tt
md_match-Good (c ∷ cs) = Good-if (c == b'[') _ _ (link_after-Good _ (closed-Good b']' bold _ tt)) (
    Good-if (c == b'*') _ _ (closed-Good b'*' bold _ tt)
      (Good-if (c == b'_') _ none (closed-Good b'_' italic _ tt) tt))

-- The entity is not empty, lies in a text of `n` characters that starts at `cur`, and
-- `build_entities` keeps its style.
abbrev pub InRange : ℕ → ℕ → Entity → Type 0
InRange cur n e = (0 < e.len) × (cur ≤ e.offset) × (e.offset + e.len ≤ cur + n) × IsRendered e.style

widen :
    (cur n cur' n' : ℕ) (es : List Entity)
    → cur ≤ cur'
    → cur' + n' ≤ cur + n
    → All (InRange cur' n') es
    → All (InRange cur n) es
widen cur n cur' n' [] p q h = tt
widen cur n cur' n' (e ∷ es) p q h =
    ((h.0.0, omega (arith, h.0.1), omega (arith, h.0.2), h.0.3), widen cur n cur' n' es p q h.1)

-- A result whose entities lie in its own text.
abbrev Sound : ℕ → Text × List Entity → Type 0
Sound cur r = All (InRange cur (length r.0)) r.1

literal-Sound : (cur c : ℕ) (r : Text × List Entity) → Sound (cur + 1) r → Sound cur (literal c r)
literal-Sound cur c r h = widen cur _ (cur + 1) (length r.0) r.1 (omega arith) (omega arith) h

styled-Sound :
    (cur : ℕ) (m : Match) (r : Text × List Entity)
    → (0 < length m.body) × IsRendered m.style
    → Sound (cur + length m.body) r
    → Sound cur (styled cur m r)
styled-Sound cur m r g h =
    let total = length-append m.body r.0 in
    (
      (g.0, omega arith, omega (arith, total), g.1),
      widen cur _ (cur + length m.body) (length r.0) r.1 (omega arith) (omega (arith, total)) h,
    )

md_scan-Sound : (f cur : ℕ) (t : Text) → Sound cur (md_scan f cur t)
unfolding md_scan
md_scan-Sound zero cur t = tt
md_scan-Sound (suc f) cur [] = tt
md_scan-Sound (suc f) cur (c ∷ cs) = elim (Option-cases (md_match (c ∷ cs))) [
  | inl e ↦
      rw (e, md_scan) (literal-Sound cur c (md_scan f (cur + 1) cs) (md_scan-Sound f (cur + 1) cs))
  | inr (m, e) ↦
      rw (e, md_scan)
        (styled-Sound cur m (md_scan f (cur + length m.body) m.rest)
          (subst Good e (md_match-Good (c ∷ cs))) (md_scan-Sound f (cur + length m.body) m.rest))
]

-- Every entity that is read from a Bale text lies within the plain text that is sent with it.
pub bale_text_to_tg-InRange :
    (t : Text) → All (InRange 0 (length (bale_text_to_tg t).0)) (bale_text_to_tg t).1
unfolding bale_text_to_tg
bale_text_to_tg-InRange t = md_scan-Sound (length t) 0 t

length-build_entities :
    (text : Text) (es : List Entity)
    → All (InRange 0 (length text)) es
    → length (build_entities text es) ≡ length es
unfolding build_entities
length-build_entities text [] h = refl
length-build_entities text (e ∷ es) h =
    let (f, p, _, _, _) = build_entity-utf16_index_map text e h.0.0 (omega (arith, h.0.2)) h.0.3 in
    rw p (ap suc (length-build_entities text es h.1))

-- So none of them is lost on the way to Telegram's UTF-16 offsets.
length-build_entities-bale_text_to_tg :
    (t : Text)
    → let (plain, ents) = bale_text_to_tg t in length (build_entities plain ents) ≡ length ents
length-build_entities-bale_text_to_tg t = length-build_entities _ _ (bale_text_to_tg-InRange t)
