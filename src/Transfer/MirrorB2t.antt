-- ===== src/Transfer/MirrorB2t.antt =====
-- bridge/transfer/mirror_b2t.py: from Bale to Telegram. Logging and the removal of temporary files
-- are left out; a path is relative to TMP_DIR.
pub mod Album
pub mod Mirror
use tg_bale_bridge.Prelude.{
  ltb, leb, if◌then◌else◌, length, drop, Text, codes, ℕ, ◌+◌, ◌-◌, ◌/◌, Option, none, List, [], ◌∷◌,
  ◌++◌, map,
}
use tg_bale_bridge.Prelude.Int.{ℤ, str_nat}
use tg_bale_bridge.Textfmt.Utf16.{Entity, build_entities}
use tg_bale_bridge.Textfmt.Splitting.{truncate, join_header, split_text}
use tg_bale_bridge.Textfmt.BaleToTg.{bale_text_to_tg}
use tg_bale_bridge.Textfmt.Notices.{file_prefix, upload_size, download_suffix}
use tg_bale_bridge.Textfmt.Headers.{or_text, bale_forward_header}
use tg_bale_bridge.Transfer.Types.{Kind, kind_name, BaleMsg, Content, bale_content}
use tg_bale_bridge.Transfer.Exec.{
  value_error, FileFlag, no_flag, voice_flag, document_flag, video_flag, bale_download_file,
  tg_get_input_entity, tg_get_entity, tg_send_message, tg_send_contact, tg_send_location,
  tg_send_file, Env, M, pure, ◌>>=◌, ◌>>◌, try_catch, try_type, ask, lift,
}
use tg_bale_bridge.Transfer.MirrorT2b.{file_name_of, megabyte}

-- EXT_BY_KIND
extension : Kind → Text
extension Kind.photo = codes ".jpg"
extension Kind.video = codes ".mp4"
extension Kind.animation = codes ".mp4"
extension Kind.audio = codes ".mp3"
extension Kind.voice = codes ".ogg"
extension Kind.sticker = codes ".webp"
extension _ = []

-- `text[-n:]`
abbrev last_chars : ℕ → Text → Text
last_chars n t = drop (length t - n) t

-- The name under which a file of Bale is stored.
download_path : Content → Text
unfolding extension
download_path c =
    codes "bale_"
    ++ (last_chars 12 (or_text c.file.file_id (codes "None"))
        ++ (b'_' ∷ file_name_of (or_text c.file.file_name (kind_name c.kind ++ extension c.kind))))

-- The length of the header's line.
abbrev shift_of : Text → ℕ
shift_of [] = 0
shift_of (h ∷ hs) = length (h ∷ hs) + 1

abbrev moved : ℕ → List Entity → List Entity
moved shift ents = map (λ (e : Entity). record e { offset = e.offset + shift }) ents

-- The entities of a text that follows a header.
entities_for : Text → Text → List Entity → List Entity
entities_for header full ents = build_entities full (moved (shift_of header) ents)

-- How the branches of `msg_to_tg` divide the kinds.
pub data TgRoute : Type 0 where
  text_route contact_route location_route media_route : TgRoute

tg_route : Kind → TgRoute
tg_route Kind.text = text_route
tg_route Kind.unsupported = text_route
tg_route Kind.contact = contact_route
tg_route Kind.location = location_route
tg_route _ = media_route

download_note : Content → Text
download_note c =
    file_prefix
    ++ (or_text c.file.file_name (kind_name c.kind)
        ++ (upload_size ++ (str_nat (c.file.file_size / megabyte) ++ download_suffix)))

flag_of : Kind → FileFlag
flag_of Kind.voice = voice_flag
flag_of Kind.document = document_flag
flag_of Kind.video = video_flag
flag_of _ = no_flag

module _ (env : Env) where
  -- The two ways to resolve a chat.
  unfoldable pub resolve : ℤ → M (Unit {0})
  resolve chat_id =
      try_catch (ask env.act (tg_get_input_entity chat_id))
        (λ _. ask env.act (tg_get_entity chat_id))

  pub download : Content → M Text
  download c = do
    ask env.act (bale_download_file c.file.file_id (download_path c))
    pure (download_path c)

  -- `send_file`: without the entities if this Telethon does not take them.
  send_file : FileFlag → ℤ → Text → Text → List Entity → Option ℕ → M ℕ
  send_file flag dst path caption ents reply_to =
      try_type (ask env.send (tg_send_file flag dst path caption ents reply_to))
        (ask env.send (tg_send_file flag dst path caption [] reply_to))

  send_parts : ℤ → Option ℕ → List Text → M (List ℕ)
  send_parts dst reply_to [] = pure []
  send_parts dst reply_to (chunk ∷ rest) = do
    m ← ask env.send (tg_send_message dst chunk [] reply_to)
    ids ← send_parts dst none rest
    pure (m ∷ ids)

  send_formatted : ℤ → Option ℕ → Text → Text × List Entity → M (List ℕ)
  unfolding send_parts
  send_formatted dst reply_to header (plain, ents) =
      let full = join_header header plain in
      if leb (length full) env.cfg.limit_text
      then (do
        m ←
            try_type
              (ask env.send (tg_send_message dst full (entities_for header full ents) reply_to))
              (ask env.send (tg_send_message dst full [] reply_to))
        pure (m ∷ []))
      else (do
        parts ← lift value_error (split_text full env.cfg.limit_text)
        send_parts dst reply_to parts)

  send_captioned : ℤ → Option ℕ → Content → Text → Text × List Entity → M (List ℕ)
  unfolding download send_file
  send_captioned dst reply_to c header (plain, ents) = do
    path ← download c
    let full = truncate (join_header header plain) env.cfg.limit_caption
    m ← send_file (flag_of c.kind) dst path full (entities_for header full ents) reply_to
    pure (m ∷ [])

  by_tg_route : TgRoute → Content → Text → ℤ → Option ℕ → M (List ℕ)
  unfolding send_formatted send_captioned
  by_tg_route text_route c header dst reply_to =
      send_formatted dst reply_to header (bale_text_to_tg c.text)
  by_tg_route contact_route c header dst reply_to = do
    m ← ask env.send (tg_send_contact dst c.contact reply_to)
    pure (m ∷ [])
  by_tg_route location_route c header dst reply_to = do
    m ← ask env.send (tg_send_location dst c.location reply_to)
    pure (m ∷ [])
  by_tg_route media_route c header dst reply_to =
      if ltb env.cfg.max_bale_download c.file.file_size
      then (do m ← ask env.send (tg_send_message dst (download_note c) [] reply_to); pure (m ∷ []))
      else send_captioned dst reply_to c header (bale_text_to_tg c.text)

  -- The identifiers of the messages made in Telegram.
  pub msg_to_tg : BaleMsg → ℤ → Option ℕ → M (List ℕ)
  unfolding resolve by_tg_route
  msg_to_tg m dst reply_to = do
    resolve dst
    by_tg_route (tg_route (bale_content m).kind) (bale_content m)
        (bale_forward_header m.forward_from_chat m.forward_from) dst reply_to
