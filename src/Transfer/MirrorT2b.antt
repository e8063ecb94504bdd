-- ===== src/Transfer/MirrorT2b.antt =====
-- bridge/transfer/mirror_t2b.py: from Telegram to Bale. Logging and the removal of temporary files
-- are left out. The downloads of an album, which the code runs at once, are made in order.
pub mod Frame
pub mod Album
pub mod Mirror
pub mod Texts
use tg_bale_bridge.Prelude.{
  ltb, leb, ◌==◌, if◌then◌else◌, any, null, Text, ℕ, ◌*◌, ◌/◌, Option, none, some, List, [], ◌∷◌,
  ◌++◌,
}
use tg_bale_bridge.Prelude.Int.{str_nat}
use tg_bale_bridge.Textfmt.Splitting.{truncate, join_header, split_text}
use tg_bale_bridge.Textfmt.TgToBale.{tg_text_to_bale}
use tg_bale_bridge.Textfmt.Notices.{
  game_prefix, game_notice, download_failed, file_prefix, upload_size, upload_suffix, photo_as_file,
  video_as_file, gif_as_file, voice_as_file, sticker_as_file, round_video, round_as_file,
}
use tg_bale_bridge.Textfmt.Headers.{Forward, tg_header}
use tg_bale_bridge.Textfmt.Renderers.{
  render_tg_poll, render_tg_dice, render_tg_venue, render_tg_service, render_unsupported_tg,
}
use tg_bale_bridge.Transfer.Types.{Kind, TgMsg, tg_kind}
use tg_bale_bridge.Transfer.Exec.{
  value_error, bale_send_message, bale_send_contact, bale_send_location, bale_send_media,
  tg_get_sender, tg_download_media, File, Env, M, pure, ◌>>=◌, ◌>>◌, try_catch, try_bot_api, ask,
  lift,
}

-- `Path(path).name`: what follows the last slash.
pub file_name_of : Text → Text
file_name_of [] = []
file_name_of (c ∷ cs) = if any (λ d. d == b'/') (c ∷ cs) then file_name_of cs else c ∷ cs

abbrev pub megabyte : ℕ
megabyte = 1024 * 1024

-- The text of the kinds that travel as a text.
text_for : Kind → TgMsg → Text → Text
text_for Kind.poll msg body = render_tg_poll msg.poll
text_for Kind.dice msg body = render_tg_dice msg.dice
text_for Kind.service msg body = render_tg_service (action_name msg.action)
  where
    action_name : Option Text → Text
    action_name none = []
    action_name (some n) = n
text_for Kind.game msg body = if null body then game_notice else game_prefix ++ body
text_for Kind.unsupported msg body = render_unsupported_tg msg.message
text_for _ msg body = body

-- How the branches of `msg_to_bale` divide the kinds.
pub data Route : Type 0 where
  as_text as_contact as_venue as_location as_media : Route

route : Kind → Route
route Kind.text = as_text
route Kind.poll = as_text
route Kind.dice = as_text
route Kind.service = as_text
route Kind.unsupported = as_text
route Kind.game = as_text
route Kind.contact = as_contact
route Kind.venue = as_venue
route Kind.location = as_location
route _ = as_media

module _ (env : Env) where
  abbrev look_up : Forward → Option ℕ → M Text
  look_up f none = pure []
  look_up f (some sender) = try_catch (ask env.sender_name (tg_get_sender sender)) (λ _. pure [])

  -- textfmt/headers.py: `tg_forward_header`
  pub tg_forward_header : Option Forward → M Text
  tg_forward_header none = pure []
  tg_forward_header (some f) = do
    found ← (if null f.from_name then look_up f f.from_id else pure [])
    pure (tg_header f found)

  -- The chunks of a text, the first one as a reply.
  pub send_chunks : Text → Option ℕ → List Text → M (List ℕ)
  send_chunks dst reply_to [] = pure []
  send_chunks dst reply_to (chunk ∷ rest) = do
    m ← ask env.send (bale_send_message dst chunk reply_to)
    ids ← send_chunks dst none rest
    pure (m ∷ ids)

  pub send_text : Text → Option ℕ → Text → M (List ℕ)
  unfolding send_chunks
  send_text dst reply_to full = do
    parts ← lift value_error (split_text full env.cfg.limit_text)
    send_chunks dst reply_to parts

  -- `as_doc(note)`
  pub as_doc : Text → Text → Text → Text → Option ℕ → M ℕ
  as_doc note dst path caption reply_to = ask env.send (
      bale_send_media Kind.document dst path
        (if null note then caption else truncate (join_header note caption) env.cfg.limit_caption)
        reply_to)

  -- A kind, and the ways that are tried after it when Bale refuses.
  unfoldable pub send_media : Kind → Text → Text → Text → Option ℕ → ℕ → M ℕ
  unfolding as_doc
  send_media Kind.photo dst path caption reply_to size =
      if leb size env.cfg.max_bale_photo
      then try_bot_api (ask env.send (bale_send_media Kind.photo dst path caption reply_to))
          (as_doc photo_as_file dst path caption reply_to)
      else as_doc photo_as_file dst path caption reply_to
  send_media Kind.video dst path caption reply_to size =
      try_bot_api (ask env.send (bale_send_media Kind.video dst path caption reply_to))
        (as_doc video_as_file dst path caption reply_to)
  send_media Kind.animation dst path caption reply_to size =
      try_bot_api (ask env.send (bale_send_media Kind.animation dst path caption reply_to)) (
        try_bot_api (ask env.send (bale_send_media Kind.video dst path caption reply_to))
          (as_doc gif_as_file dst path caption reply_to))
  send_media Kind.audio dst path caption reply_to size =
      try_bot_api (ask env.send (bale_send_media Kind.audio dst path caption reply_to))
        (as_doc [] dst path caption reply_to)
  send_media Kind.voice dst path caption reply_to size =
      try_bot_api (ask env.send (bale_send_media Kind.voice dst path caption reply_to))
        (as_doc voice_as_file dst path caption reply_to)
  send_media Kind.sticker dst path caption reply_to size =
      try_bot_api (ask env.send (bale_send_media Kind.sticker dst path [] reply_to))
        (as_doc sticker_as_file dst path caption reply_to)
  send_media Kind.video_note dst path caption reply_to size =
      try_bot_api (ask env.send (bale_send_media Kind.video_note dst path [] reply_to)) (
        try_bot_api (ask env.send (bale_send_media Kind.video dst path round_video reply_to))
          (as_doc round_as_file dst path caption reply_to))
  send_media _ dst path caption reply_to size = as_doc [] dst path caption reply_to

  too_large_note : File → Text
  too_large_note f =
      file_prefix
      ++ (file_name_of f.path ++ (upload_size ++ (str_nat (f.size / megabyte) ++ upload_suffix)))

  -- The branch for media, after the download.
  pub send_download : Kind → Text → Text → Option ℕ → Option File → M ℕ
  send_download kind dst caption reply_to none =
      ask env.send (bale_send_message dst download_failed none)
  send_download kind dst caption reply_to (some f) =
      if ltb env.cfg.max_bale_upload f.size
      then ask env.send (bale_send_message dst (too_large_note f) reply_to)
      else send_media kind dst f.path caption reply_to f.size

  unfoldable pub send_venue : TgMsg → Text → Option ℕ → Text → M (List ℕ)
  send_venue msg dst reply_to header = do
    _ ← ask env.send (bale_send_location dst msg.geo reply_to)
    m ← ask env.send (
        bale_send_message dst
          (truncate (join_header header (render_tg_venue msg.venue)) env.cfg.limit_text) none)
    pure (m ∷ [])

  pub by_route : Route → TgMsg → Text → Option ℕ → Text → Text → M (List ℕ)
  unfolding send_text send_venue
  by_route as_text msg dst reply_to header body =
      send_text dst reply_to (join_header header (text_for (tg_kind msg) msg body))
  by_route as_contact msg dst reply_to header body = do
    m ← ask env.send (bale_send_contact dst msg.contact reply_to)
    pure (m ∷ [])
  by_route as_venue msg dst reply_to header body = send_venue msg dst reply_to header
  by_route as_location msg dst reply_to header body = do
    m ← ask env.send (bale_send_location dst msg.geo reply_to)
    pure (m ∷ [])
  by_route as_media msg dst reply_to header body = do
    file ← ask env.download (tg_download_media msg.id)
    m ←
        send_download (tg_kind msg) dst (truncate (join_header header body) env.cfg.limit_caption)
          reply_to file
    pure (m ∷ [])

  -- The identifiers of the messages made in Bale. The optional arguments `preloaded` and `kind`
  -- have no caller.
  pub msg_to_bale : TgMsg → Text → Option ℕ → M (List ℕ)
  unfolding tg_forward_header by_route
  msg_to_bale msg dst reply_to = do
    header ← tg_forward_header msg.forward
    by_route (route (tg_kind msg)) msg dst reply_to header
        (tg_text_to_bale msg.message msg.entities)
