-- ===== src/Transfer/MirrorT2b/Frame.antt =====
-- bridge/transfer/mirror_t2b.py: what sending leaves alone.
use tg_bale_bridge.Prelude.{if◌then◌else◌, null, Text, ℕ, Option, none, some, List, [], ◌∷◌}
use tg_bale_bridge.Textfmt.Headers.{Forward, tg_header}
use tg_bale_bridge.Transfer.Types.{Kind, TgMsg}
use tg_bale_bridge.Transfer.Exec.{bale_send_message, File, Env, pure, ask}
use tg_bale_bridge.Transfer.Exec.Frame.{
  Frames, Frames-pure, Frames-ask, Frames-if, Frames-bind, frame_rules,
}
use tg_bale_bridge.Transfer.MirrorT2b.{
  Route, as_text, as_contact, as_venue, as_location, as_media, look_up, tg_forward_header,
  send_chunks, send_text, as_doc, send_media, send_download, by_route, msg_to_bale,
}

module _ (env : Env) where
  look_up-Frames : (f : Forward) (o : Option ℕ) → Frames (look_up env f o)
  look_up-Frames f none = Frames-pure []
  look_up-Frames f (some s) = search frame_rules

  tg_forward_header-Frames : (f : Option Forward) → Frames (tg_forward_header env f)
  unfolding tg_forward_header
  tg_forward_header-Frames none = search frame_rules
  tg_forward_header-Frames (some f) =
      Frames-bind (if null f.from_name then look_up env f f.from_id else pure []) _
        (Frames-if (null f.from_name) _ _ (look_up-Frames f f.from_id) (Frames-pure []))
        (λ found. Frames-pure (tg_header f found))

  send_chunks-Frames :
      (dst : Text) (r : Option ℕ) (parts : List Text) → Frames (send_chunks env dst r parts)
  unfolding send_chunks
  send_chunks-Frames dst r [] = search frame_rules
  send_chunks-Frames dst r (p ∷ ps) =
      Frames-bind (ask env.send (bale_send_message dst p r)) _ (Frames-ask env.send _) (λ m.
        Frames-bind (send_chunks env dst none ps) _ (send_chunks-Frames dst none ps)
          (λ ids. Frames-pure (m ∷ ids)))

  send_text-Frames : (dst : Text) (r : Option ℕ) (t : Text) → Frames (send_text env dst r t)
  unfolding send_text
  send_text-Frames dst r t = search (frame_rules, send_chunks-Frames)

  as_doc-Frames :
      (note dst path caption : Text) (r : Option ℕ) → Frames (as_doc env note dst path caption r)
  unfolding as_doc
  as_doc-Frames note dst path caption r = search frame_rules

  send_media-Frames :
      (k : Kind) (dst path caption : Text) (r : Option ℕ) (size : ℕ)
      → Frames (send_media env k dst path caption r size)
  unfolding send_media
  send_media-Frames Kind.photo dst path caption r size = search frame_rules
  send_media-Frames _ dst path caption r size = search frame_rules

  send_download-Frames :
      (k : Kind) (dst caption : Text) (r : Option ℕ) (f : Option File)
      → Frames (send_download env k dst caption r f)
  unfolding send_download
  send_download-Frames k dst caption r none = search frame_rules
  send_download-Frames k dst caption r (some f) = search (frame_rules, send_media-Frames)

  by_route-Frames :
      (r : Route) (msg : TgMsg) (dst : Text) (reply_to : Option ℕ) (header body : Text)
      → Frames (by_route env r msg dst reply_to header body)
  unfolding by_route
  by_route-Frames as_text msg dst reply_to header body = search (frame_rules, send_chunks-Frames)
  by_route-Frames as_contact msg dst reply_to header body = search frame_rules
  by_route-Frames as_venue msg dst reply_to header body = search frame_rules
  by_route-Frames as_location msg dst reply_to header body = search frame_rules
  by_route-Frames as_media msg dst reply_to header body = search (frame_rules, send_download-Frames)

  -- Sending a message to Bale, whatever its kind and whatever the platforms answer, changes
  -- neither the database nor the marks.
  pub msg_to_bale-Frames :
      (msg : TgMsg) (dst : Text) (reply_to : Option ℕ) → Frames (msg_to_bale env msg dst reply_to)
  unfolding msg_to_bale
  msg_to_bale-Frames msg dst reply_to =
      Frames-bind (tg_forward_header env msg.forward) _ (tg_forward_header-Frames msg.forward)
        (λ header. by_route-Frames _ msg dst reply_to header _)
