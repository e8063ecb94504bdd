-- ===== src/BaleClient/Flow/Chats.antt =====
-- bridge/bale: the identifier of a name through administrators, profiles and files.
use tg_bale_bridge.Prelude.{Text, codes, strip, lstrip_char, ℕ, ◌≡◌, refl, Option, none, some}
use tg_bale_bridge.Prelude.Int.{ℤ}
use tg_bale_bridge.Prelude.Dict.{get}
use tg_bale_bridge.BaleClient.{ChatType, chat_key, GroupInfo, note_chat, access_hash_for}
use tg_bale_bridge.BaleClient.Account.{
  Found, call_stop, call_search_username, call_get_full_group, call_load_user, call_invite_user,
  call_make_user_admin, UserInfo, Client, Account, pure, ◌>>◌, try_except, wrapped, wrapped_all,
  ask, use_session, change, attempt, set_started, start, stop, type_for,
}
use tg_bale_bridge.BaleClient.Resolving.{
  Ref, number, name, extract_user, resolve_id, known_user, resolve_user,
}
use tg_bale_bridge.BaleClient.Sending.{file_with, get_file}
use tg_bale_bridge.BaleClient.Members.{
  unless_member, invitee, promote, add_admin, me_with, own_info, fill, load_names, get_me,
  described, get_chat,
}
use tg_bale_bridge.BaleClient.Flow.Names.{
  known_id, access_hash_for-id_cache, note_chat-id_cache, Remembers, Remembers-pure,
  Remembers-throw, Remembers-ask, Remembers-try, Remembers-if, Remembers-use, Remembers-change,
  Remembers->>=, start-Remembers, attempt-Remembers, type_for-Remembers, resolve_id-Remembers,
}
use tg_bale_bridge.BaleClient.Flow.Requests.{wrapped-Remembers, wrapped_all-Remembers}

module _ {key : Text} {i : ℤ} (k : Client) where
  known-Remembers : (t : Text) (o : Option Found) → Remembers key i (known_user k t o)
  known-Remembers t none = Remembers-throw _
  known-Remembers t (some u) = Remembers-if _ _ _ (Remembers-throw _) (Remembers-pure _)

  resolve_user-Remembers : (ref : Ref) → Remembers key i (resolve_user k ref)
  unfolding resolve_user
  resolve_user-Remembers (number n) = Remembers-pure (n, none)
  resolve_user-Remembers (name t) =
      Remembers->>= (ask k.search (call_search_username (lstrip_char b'@' (strip t)))) _
        (Remembers-ask k.search _) (λ x. known-Remembers t (extract_user x))

  invite-Remembers :
      (c : ℤ) (title : Text) (x : ℤ × Option Found) → Remembers key i (promote k c title x)
  invite-Remembers c title (n, u) = wrapped-Remembers k (codes "add_admin") _ (
      Remembers->>= (try_except (ask k.act (call_invite_user c (invitee (n, u)))) unless_member) _
        (Remembers-try _ _ (Remembers-ask k.act _)
          (λ e. Remembers-if _ _ _ (Remembers-pure tt) (Remembers-throw e)))
        (λ _.
          Remembers->>= (ask k.act (call_make_user_admin c n title)) _ (Remembers-ask k.act _)
            (λ _. Remembers-pure (c, n))))

  pub add_admin-Remembers :
      (chat user : Ref) (title : Text) → Remembers key i (add_admin k chat user title)
  unfolding add_admin
  add_admin-Remembers chat user title = Remembers->>= (start k) _ (start-Remembers k) (λ _.
      Remembers->>= (resolve_id k chat) _ (resolve_id-Remembers k chat) (λ c.
        Remembers->>= (type_for k c) _ (type_for-Remembers k c) (λ t.
          Remembers-if _ _ _ (Remembers-throw _) (
            Remembers->>= (resolve_user k user) _ (resolve_user-Remembers user)
              (invite-Remembers c title)))))

  load_names-Remembers : (u : UserInfo) → Remembers key i (load_names k u)
  load_names-Remembers u =
      Remembers-if _ _ _
        (Remembers->>= (attempt (ask k.users (call_load_user u.id))) _
          (attempt-Remembers k _ (Remembers-ask k.users _)) (λ o. Remembers-pure (fill k u o)))
        (Remembers-pure u)

  own_info-Remembers : Remembers key i (own_info k)
  own_info-Remembers = record { keeps = λ a h. own (k.me a.calls) a h }
    where
      own :
          (o : Option UserInfo) (a : Account)
          → known_id key a.session ≡ some i
          → known_id key (me_with k o a).1.session ≡ some i
      own none a h = h
      own (some u) a h = h

  pub get_me-Remembers : Remembers key i (get_me k)
  unfolding get_me
  get_me-Remembers =
      Remembers->>= (wrapped_all (codes "get_me") (start k >> own_info k)) _
        (wrapped_all-Remembers k (codes "get_me") _
          (Remembers->>= (start k) _ (start-Remembers k) (λ _. own_info-Remembers)))
        (λ u. Remembers->>= (load_names k u) _ (load_names-Remembers u) (λ v. Remembers-pure _))

  described-Remembers :
      (c : ℤ) (t : Option ChatType) (o : Option GroupInfo) → Remembers key i (described k c t o)
  described-Remembers c t (some g) = Remembers-pure _
  described-Remembers c t none =
      Remembers->>= (attempt (ask k.users (call_load_user c))) _
        (attempt-Remembers k _ (Remembers-ask k.users _)) (λ u. Remembers-pure _)

  pub get_chat-Remembers : (ref : Ref) → Remembers key i (get_chat k ref)
  unfolding get_chat
  get_chat-Remembers ref = Remembers->>= (start k) _ (start-Remembers k) (λ _.
      Remembers->>= (wrapped (codes "get_chat") (resolve_id k ref)) _
        (wrapped-Remembers k (codes "get_chat") _ (resolve_id-Remembers k ref))
        (λ c.
          Remembers->>= (use_session (λ s. (get (chat_key c) s.chat_types, s))) _
            (Remembers-use _ (λ s. refl))
            (λ t.
              Remembers->>= (attempt (ask k.groups (call_get_full_group c))) _
                (attempt-Remembers k _ (Remembers-ask k.groups _))
                (λ g. Remembers->>= (described k c t g) _ (described-Remembers c t g) (λ n.
                  Remembers->>= (change (note_chat n.id n.kind n.title n.username)) _
                    (Remembers-change _ (note_chat-id_cache n.id n.kind n.title n.username))
                    (λ _. Remembers-pure n))))))

  pub stop-Remembers : Remembers key i (stop k)
  unfolding stop set_started
  stop-Remembers =
      Remembers->>= (try_except (ask k.act call_stop) (λ e. pure tt)) _
        (Remembers-try _ _ (Remembers-ask k.act _) (λ e. Remembers-pure tt))
        (λ _. Remembers-change _ (λ s. refl))

  file_with-Remembers : (f : Text) (h : Option ℕ) → Remembers key i (file_with f h)
  file_with-Remembers f none = Remembers-throw _
  file_with-Remembers f (some h) = Remembers-pure _

  pub get_file-Remembers : (f : Text) → Remembers key i (get_file f)
  unfolding get_file
  get_file-Remembers f =
      Remembers->>= (use_session (access_hash_for f)) _
        (Remembers-use (access_hash_for f) (access_hash_for-id_cache f)) (file_with-Remembers f)
