-- ===== src/BaleClient/Flow/Resolved.antt =====
-- bridge/bale: a name is resolved once.
use tg_bale_bridge.Prelude.{
  Bool-cases, Text, text_eq_refl, strip, lstrip_char, is_digits, ◌≡◌, refl, inl, inr, false, Option,
  none, some, List, [], ◌∷◌, arith,
}
use tg_bale_bridge.Prelude.Int.{ℤ, int_of}
use tg_bale_bridge.Prelude.Dict.{get-assign}
use tg_bale_bridge.BaleClient.Account.{
  Answer, gave, threw, Found, call_search_username, Client, Account, Act, next_with, ask,
}
use tg_bale_bridge.BaleClient.Resolving.{
  name, extract_id, parsed, remember_id, found_chat, cached_or_search, resolve_name, resolve_id,
}
use tg_bale_bridge.BaleClient.Sending.{
  send_photo, send_video, send_voice, send_audio, send_document, send_sticker, send_video_note,
  send_location, send_venue, send_contact, send_poll, send_dice, edit_message_caption,
}
use tg_bale_bridge.BaleClient.Facade.{
  Request, get_me_of, stop_all, message, photo, video, voice, audio, document, animation, sticker,
  video_note, location, venue, contact, poll, dice, media_group, edit_text, edit_caption, delete,
  download, file_of, chat_info, make_admin, forward, chat_action, Response, giving, perform,
  perform_all,
}
use tg_bale_bridge.BaleClient.Flow.Names.{
  known_id, Remembers, Remembers-pure, Remembers-throw, Remembers->>=,
}
use tg_bale_bridge.BaleClient.Flow.Requests.{
  send_message-Remembers, send_media-Remembers, send_animation-Remembers,
  send_media_group-Remembers, delete_message-Remembers, edit_message_text-Remembers,
  download_file-Remembers,
}
use tg_bale_bridge.BaleClient.Flow.Chats.{
  add_admin-Remembers, get_me-Remembers, get_chat-Remembers, stop-Remembers, get_file-Remembers,
}

module _ (key : Text) (i : ℤ) (k : Client) where
  -- What a request returns, made of the result of a method.
  giving-Remembers :
      {A : Type 0} (f : A → Response) (m : Act A) → Remembers key i m → Remembers key i (giving f m)
  giving-Remembers f m h = Remembers->>= m _ h (λ x. Remembers-pure (f x))

  perform-Remembers : (r : Request) → Remembers key i (perform k r)
  unfolding perform send_photo send_video send_voice send_audio send_document send_sticker
      send_video_note send_location send_venue send_contact send_poll send_dice edit_message_caption
  perform-Remembers get_me_of = giving-Remembers _ _ (get_me-Remembers k)
  perform-Remembers stop_all = giving-Remembers _ _ (stop-Remembers k)
  perform-Remembers (message r t n) = giving-Remembers _ _ (send_message-Remembers k r t n)
  perform-Remembers (photo r f c n) = giving-Remembers _ _ (send_media-Remembers k _ _ f r c n)
  perform-Remembers (video r f c n) = giving-Remembers _ _ (send_media-Remembers k _ _ f r c n)
  perform-Remembers (voice r f c n) = giving-Remembers _ _ (send_media-Remembers k _ _ f r c n)
  perform-Remembers (audio r f c n) = giving-Remembers _ _ (send_media-Remembers k _ _ f r c n)
  perform-Remembers (document r f c n) = giving-Remembers _ _ (send_media-Remembers k _ _ f r c n)
  perform-Remembers (animation r f c n) = giving-Remembers _ _ (send_animation-Remembers k r f c n)
  perform-Remembers (sticker r f n) = giving-Remembers _ _ (send_media-Remembers k _ _ f r [] n)
  perform-Remembers (video_note r f n) = giving-Remembers _ _ (send_media-Remembers k _ _ f r [] n)
  perform-Remembers (location r g n) = giving-Remembers _ _ (send_message-Remembers k r _ n)
  perform-Remembers (venue r g a b n) = giving-Remembers _ _ (send_message-Remembers k r _ n)
  perform-Remembers (contact r c n) = giving-Remembers _ _ (send_message-Remembers k r _ n)
  perform-Remembers (poll r q o) = giving-Remembers _ _ (send_message-Remembers k r _ 0)
  perform-Remembers (dice r e) = giving-Remembers _ _ (send_message-Remembers k r _ 0)
  perform-Remembers (media_group r is n) =
      giving-Remembers _ _ (send_media_group-Remembers k r is n)
  perform-Remembers (edit_text r m t) = giving-Remembers _ _ (edit_message_text-Remembers k r m t)
  perform-Remembers (edit_caption r m t) =
      giving-Remembers _ _ (edit_message_text-Remembers k r m t)
  perform-Remembers (delete r m) = giving-Remembers _ _ (delete_message-Remembers k r m)
  perform-Remembers (download f d) = giving-Remembers _ _ (download_file-Remembers k f d)
  perform-Remembers (file_of f) = giving-Remembers _ _ (get_file-Remembers k f)
  perform-Remembers (chat_info r) = giving-Remembers _ _ (get_chat-Remembers k r)
  perform-Remembers (make_admin c u t) = giving-Remembers _ _ (add_admin-Remembers k c u t)
  perform-Remembers (forward a b m) = Remembers-throw _
  perform-Remembers (chat_action a b) = Remembers-pure _

  perform_all-known_id :
      (rs : List Request) (a : Account)
      → known_id key a.session ≡ some i
      → known_id key (perform_all k rs a).session ≡ some i
  unfolding perform_all
  perform_all-known_id [] a h = h
  perform_all-known_id (r ∷ rs) a h =
      perform_all-known_id rs (perform k r a).1 ((perform-Remembers r).keeps a h)

module _ (k : Client) where
  found_chat-known :
      (j : Text) (x : Found) (i : ℤ) (a : Account)
      → (found_chat j x a).0 ≡ gave i
      → known_id j (found_chat j x a).1.session ≡ some i
  unfolding remember_id
  found_chat-known j x i a h =
      ground (arith, h, get-assign j j (extract_id x) a.session.id_cache, text_eq_refl j)

  searched-known :
      (j : Text) (i : ℤ) (r : Answer Found × Account)
      → (next_with (found_chat j) r).0 ≡ gave i
      → known_id j (next_with (found_chat j) r).1.session ≡ some i
  searched-known j i (gave x, a) h = found_chat-known j x i a h
  searched-known j i (threw e, a) h = cc

  looked_up-known :
      (j : Text) (o : Option ℤ) (i : ℤ) (a : Account)
      → known_id j a.session ≡ o
      → (cached_or_search k j o a).0 ≡ gave i
      → known_id j (cached_or_search k j o a).1.session ≡ some i
  looked_up-known j (some n) i a e h = ground (arith, e, h)
  looked_up-known j none i a e h =
      searched-known j i (ask k.search (call_search_username (lstrip_char b'@' j)) a) h

  -- The text is a number, or its chat is known.
  known_again :
      (t : Text) (i : ℤ) (a b : Account)
      → is_digits (lstrip_char b'-' t) ≡ false
      → known_id t b.session ≡ some i
      → resolve_name k t b ≡ (gave i, b)
  known_again t i a b z h = rw (z, h) refl

  parsed-gave :
      (o : Option ℤ) (i : ℤ) (a b : Account) → (parsed o a).0 ≡ gave i → parsed o b ≡ (gave i, b)
  parsed-gave none i a b h = cc
  parsed-gave (some n) i a b h = ground (arith, h)

  -- A chat that was resolved is resolved to the same identifier again, without a call of the
  -- client and without a change, whatever requests of whatever kind and outcome have come in
  -- between.
  pub resolve_id-perform_all :
      (t : Text) (i : ℤ) (rs : List Request) (a : Account)
      → (resolve_id k (name t) a).0 ≡ gave i
      → resolve_id k (name t) (perform_all k rs (resolve_id k (name t) a).1)
        ≡ (gave i, perform_all k rs (resolve_id k (name t) a).1)
  unfolding resolve_id
  resolve_id-perform_all t i rs a h = elim (Bool-cases (is_digits (lstrip_char b'-' (strip t)))) [
    | inl z ↦ rw z (parsed-gave (int_of (strip t)) i a _ (rw z at h))
    | inr z ↦
        let first = resolve_name k (strip t) a in
        let known : known_id (strip t) first.1.session ≡ some i =
          rw z (looked_up-known (strip t) (known_id (strip t) a.session) i a refl (rw z at h)) in
        known_again (strip t) i a (perform_all k rs first.1) z
          (perform_all-known_id (strip t) i k rs first.1 known)
  ]
