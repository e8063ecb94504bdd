-- ===== src/BotApi/Albums.antt =====
-- bridge/botapi/types_map.py: an album and its files.
use tg_bale_bridge.Prelude.{
  if◌then◌else◌, Bool-cases, take, drop, Text, codes, text_eq, text_eq→eq, text_eq_refl,
  starts_with, ℕ, suc, ◌<◌, ◌≡◌, refl, sym, ap, ◌∙◌, inl, inr, false, Option, none, some, List, [],
  ◌∷◌, map, arith,
}
use tg_bale_bridge.Prelude.Int.{pos, str_nat, int_of, int_of-str_nat}
use tg_bale_bridge.Prelude.Dict.{Dict, get, assign, get-assign}
use tg_bale_bridge.BotApi.Methods.{
  Media, group_caption_max, Item, file_key, media_from, files_from, build_media_group,
}

-- What the server makes of an entry: the file under the name after "attach://"; without these
-- characters the link names no file of the request.
abbrev linked : Text → Dict Text → Option Text
linked link files = if starts_with link (codes "attach://") then get (drop 9 link) files else none

abbrev item_at : Dict Text → Media → Text × Option Text × Text
item_at files m = (m.type, linked m.media files, m.caption)

abbrev pub read_back : Dict Text × List Media → List (Text × Option Text × Text)
read_back (files, media) = map (item_at files) media

-- The items as they should arrive: each with its file, and its caption cut.
abbrev arrived : Item → Text × Option Text × Text
arrived (type, path, caption) = (type, some path, take group_caption_max caption)

str_nat-eq : (i j : ℕ) → str_nat i ≡ str_nat j → i ≡ j
str_nat-eq i j h =
    let e : some (pos i) ≡ some (pos j) =
      sym (int_of-str_nat i) ∙ (ap int_of h ∙ int_of-str_nat j) in
    ground (arith, e)

file_key-ne : (i j : ℕ) → j < i → text_eq (file_key i) (file_key j) ≡ false
unfolding text_eq
file_key-ne i j h = elim (Bool-cases (text_eq (str_nat i) (str_nat j))) [
  | inl e ↦ absurd (omega (arith, str_nat-eq i j (text_eq→eq (str_nat i) (str_nat j) e)))
  | inr e ↦ rw e refl
]

-- Later files do not replace an earlier one.
get-files_from :
    (i j : ℕ) (xs : List Item) (d : Dict Text)
    → j < i
    → get (file_key j) (files_from i xs d) ≡ get (file_key j) d
unfolding files_from
get-files_from i j [] d h = refl
get-files_from i j ((type, path, caption) ∷ xs) d h =
    get-files_from (suc i) j xs (assign (file_key i) path d) (omega arith)
    ∙ (get-assign (file_key i) (file_key j) path d ∙ (rw (file_key-ne i j h) refl))

read_back-from :
    (i : ℕ) (xs : List Item) (d : Dict Text)
    → map (item_at (files_from i xs d)) (media_from i xs) ≡ map arrived xs
unfolding files_from media_from starts_with
read_back-from i [] d = refl
read_back-from i ((type, path, caption) ∷ xs) d =
    let d' = assign (file_key i) path d in
    let here : get (file_key i) (files_from (suc i) xs d') ≡ some path =
      get-files_from (suc i) i xs d' (omega arith)
      ∙ (get-assign (file_key i) (file_key i) path d ∙ (rw (text_eq_refl (file_key i)) refl)) in
    rw (here, read_back-from (suc i) xs d') refl

-- An album arrives as it was given: each entry is attached to the file of its item and has its
-- caption, cut to the limit.
pub read_back-build_media_group :
    (items : List Item) → read_back (build_media_group items) ≡ map arrived items
unfolding build_media_group
read_back-build_media_group items = read_back-from 0 items []
