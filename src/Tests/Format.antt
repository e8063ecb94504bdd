-- ===== src/Tests/Format.antt =====
-- Tests of the texts.
use tg_bale_bridge.Prelude.{
  length, All, concat, Text, codes, ◌+◌, ◌≡◌, refl, some, List, [], ◌∷◌, arith,
}
use tg_bale_bridge.Db.{both}
use tg_bale_bridge.Textfmt.Utf16.{utf16_index_map, lookup_index, bold, Entity, build_entity}
use tg_bale_bridge.Textfmt.Splitting.{split_text}
use tg_bale_bridge.Textfmt.Splitting.Pieces.{Fits}
use tg_bale_bridge.Textfmt.TgToBale.{bold_class, TgEntity}
use tg_bale_bridge.Textfmt.BaleToTg.{bale_text_to_tg}
use tg_bale_bridge.Transfer.MirrorT2b.{send_text}
use tg_bale_bridge.Textfmt.Splitting.Laws.{split_text_lem}
use tg_bale_bridge.Textfmt.Utf16.Laws.{build_entity-utf16_index_map}
use tg_bale_bridge.Textfmt.BaleToTg.Laws.{InRange, bale_text_to_tg-InRange}
use tg_bale_bridge.Transfer.MirrorT2b.Texts.{chunk_calls, TakesAll, Sent, send_text-Sent}
use tg_bale_bridge.Tests.{hello, bale_chat, easy_env, world_of}

split_text_lem_example :
    (ps : List Text) × (split_text hello 3 ≡ some ps) × (concat ps ≡ hello) × All (Fits 3) ps
split_text_lem_example = split_text_lem hello 3 (omega arith)

-- The second character takes two UTF-16 units.
abbrev smile : Text
smile = 97 ∷ 128512 ∷ 98 ∷ []

abbrev smile_entity : Entity
smile_entity = record { style = bold; offset = 1; len = 2 }

build_entity-utf16_index_map_example :
    (f : Entity) × (build_entity smile smile_entity ≡ f ∷ [])
    × (f.style ≡ bold)
    × (lookup_index f.offset (utf16_index_map smile) ≡ some 1)
    × (lookup_index (f.offset + f.len) (utf16_index_map smile) ≡ some 3)
build_entity-utf16_index_map_example =
    build_entity-utf16_index_map smile smile_entity (omega arith) (omega arith) tt

abbrev bold_first : TgEntity
bold_first = record { entity_class = bold_class; offset = 0; len = 1 }

bale_text_to_tg-InRange_example :
    All
      (InRange 0 (length (bale_text_to_tg (codes "a *b* c")).0))
      (bale_text_to_tg (codes "a *b* c")).1
bale_text_to_tg-InRange_example = bale_text_to_tg-InRange (codes "a *b* c")

easy_env-TakesAll : TakesAll easy_env
easy_env-TakesAll t c = (100 + length t, refl)

send_text-Sent_example :
    (parts : List Text) × (concat parts ≡ hello)
    × All (Fits 4) parts
    × Sent
        (send_text easy_env bale_chat (some 3) hello (world_of both))
        (world_of both)
        (chunk_calls bale_chat (some 3) parts)
send_text-Sent_example =
    send_text-Sent easy_env easy_env-TakesAll bale_chat (some 3) hello (world_of both) (omega arith)
