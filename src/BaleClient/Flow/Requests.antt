-- ===== src/BaleClient/Flow/Requests.antt =====
-- bridge/bale: a name that was resolved, whatever requests come after.
use tg_bale_bridge.Prelude.{Text, codes, ℕ, zero, suc, refl, Option, none, some, List, [], ◌∷◌}
use tg_bale_bridge.Prelude.Int.{ℤ}
use tg_bale_bridge.BaleClient.{chat_type_of, date_for, access_hash_for}
use tg_bale_bridge.BaleClient.Account.{
  call_delete_message, Sent, Client, Act, ◌>>=◌, wrapped, wrapped_all, use_session,
}
use tg_bale_bridge.BaleClient.Resolving.{Ref, reply_ref}
use tg_bale_bridge.BaleClient.Sending.{
  sent_id, last_sent, snapshot_result, target, send_message, send_media, send_photo, send_video,
  send_voice, send_audio, send_document, send_animation, method_for, send_media_group,
  edit_message_text, delete_at, delete_message, download_with, download_file,
}
use tg_bale_bridge.BaleClient.Flow.Names.{
  remember_date-id_cache, date_for-id_cache, access_hash_for-id_cache, Remembers, Remembers-pure,
  Remembers-throw, Remembers-ask, Remembers-try, Remembers-as_bot_api, Remembers-if_bot_api,
  Remembers-if, Remembers-use, Remembers-change, Remembers->>=, start-Remembers, attempt-Remembers,
  type_for-Remembers, parsed-Remembers, resolve_id-Remembers,
}

module _ {key : Text} {i : ℤ} (k : Client) where
  snapshot-Remembers : (c : ℤ) (ms : List Sent) → Remembers key i (snapshot_result c ms)
  unfolding snapshot_result
  snapshot-Remembers c [] = Remembers-pure 0
  snapshot-Remembers c (m ∷ ms) = search (
    Remembers->>=,
    Remembers-pure,
    Remembers-change,
    remember_date-id_cache c (sent_id (last_sent m ms)) (last_sent m ms).date,
  )

  reply_ref-Remembers : (c : ℤ) (m : ℕ) → Remembers key i (reply_ref c m)
  unfolding reply_ref
  reply_ref-Remembers c zero = Remembers-pure none
  reply_ref-Remembers c (suc m) = search (
    Remembers->>=,
    Remembers-pure,
    Remembers-use (date_for c (suc m)) (date_for-id_cache c (suc m)),
    Remembers-use (λ s. (chat_type_of c s, s)) (λ s. refl),
  )

  target-Remembers : (ref : Ref) → Remembers key i (target k ref)
  unfolding target
  target-Remembers ref =
      search
        (Remembers->>=, Remembers-pure, start-Remembers, resolve_id-Remembers, type_for-Remembers)

  pub wrapped-Remembers :
      {A : Type 0} (what : Text) (m : Act A) → Remembers key i m → Remembers key i (wrapped what m)
  wrapped-Remembers what m h = Remembers-try m _ h (Remembers-as_bot_api what)

  pub wrapped_all-Remembers :
      {A : Type 0} (what : Text) (m : Act A)
      → Remembers key i m
      → Remembers key i (wrapped_all what m)
  wrapped_all-Remembers what m h = Remembers-try m _ h (λ e. Remembers-throw _)

  ruleset steps = (
    Remembers->>=, Remembers-pure, Remembers-throw, Remembers-ask, wrapped-Remembers,
    wrapped_all-Remembers, attempt-Remembers, start-Remembers, resolve_id-Remembers,
    type_for-Remembers, target-Remembers, reply_ref-Remembers, snapshot-Remembers,
  )

  pub send_message-Remembers :
      (ref : Ref) (t : Text) (n : ℕ) → Remembers key i (send_message k ref t n)
  unfolding send_message
  send_message-Remembers ref t n = search steps depth 9

  pub send_media-Remembers :
      (method kw f : Text) (ref : Ref) (caption : Text) (n : ℕ)
      → Remembers key i (send_media k method kw f ref caption n)
  unfolding send_media
  send_media-Remembers method kw f ref caption n = search steps depth 9

  pub send_animation-Remembers :
      (ref : Ref) (f caption : Text) (n : ℕ) → Remembers key i (send_animation k ref f caption n)
  unfolding send_animation send_document
  send_animation-Remembers ref f caption n =
      Remembers-try _ _ (send_media-Remembers _ _ f ref caption n)
        (λ e. Remembers-if_bot_api _ e (send_media-Remembers _ _ f ref caption n))

  method_for-Remembers :
      (kind : Text) (ref : Ref) (f caption : Text) (n : ℕ)
      → Remembers key i (method_for k kind ref f caption n)
  unfolding method_for send_photo send_video send_voice send_audio send_document
  method_for-Remembers kind ref f caption n =
      search (Remembers-if, send_media-Remembers, send_animation-Remembers) depth 12

  pub send_media_group-Remembers :
      (ref : Ref) (items : List (Text × Text × Text)) (n : ℕ)
      → Remembers key i (send_media_group k ref items n)
  unfolding send_media_group
  send_media_group-Remembers ref [] n = Remembers-pure []
  send_media_group-Remembers ref ((kind, f, caption) ∷ items) n =
      Remembers->>= (method_for k kind ref f caption n) _
        (method_for-Remembers kind ref f caption n)
        (λ m.
          Remembers->>= (send_media_group k ref items n) _ (send_media_group-Remembers ref items n)
            (λ ms. Remembers-pure (m ∷ ms)))

  pub delete_message-Remembers : (ref : Ref) (m : ℕ) → Remembers key i (delete_message k ref m)
  unfolding delete_message
  delete_message-Remembers ref m =
      wrapped_all-Remembers (codes "delete_message") (target k ref >>= delete_at k m) (
        Remembers->>= (target k ref) (delete_at k m) (target-Remembers ref) (λ x.
          Remembers->>= (use_session (date_for x.0 m)) _
            (Remembers-use (date_for x.0 m) (date_for-id_cache x.0 m))
            (λ d. Remembers-ask k.act (call_delete_message m d x.0 x.1))))

  pub edit_message_text-Remembers :
      (ref : Ref) (m : ℕ) (t : Text) → Remembers key i (edit_message_text k ref m t)
  unfolding edit_message_text
  edit_message_text-Remembers ref m t = search steps depth 9

  download_with-Remembers :
      (f dest : Text) (h : Option ℕ) → Remembers key i (download_with k f dest h)
  download_with-Remembers f dest none = Remembers-throw _
  download_with-Remembers f dest (some h) = search (steps, parsed-Remembers) depth 9

  pub download_file-Remembers : (f dest : Text) → Remembers key i (download_file k f dest)
  unfolding download_file
  download_file-Remembers f dest =
      Remembers->>= _ _ (Remembers-use (access_hash_for f) (access_hash_for-id_cache f))
        (download_with-Remembers f dest)
