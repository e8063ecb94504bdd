-- ===== src/BaleClient/Members.antt =====
-- bridge/bale: making administrators, and what is known of the account and of chats (admin_ops.py,
-- profile.py).
use tg_bale_bridge.Prelude.{
  if◌then◌else◌, null, Text, codes, contains_text, Bool, true, false, not, ◌&&◌, ◌||◌, Option, none,
  some, [], ◌∷◌,
}
use tg_bale_bridge.Prelude.Int.{ℤ, pos, int_eq}
use tg_bale_bridge.Prelude.Dict.{get}
use tg_bale_bridge.Db.Pairs.{lower, strip_at}
use tg_bale_bridge.Textfmt.Headers.{or_text}
use tg_bale_bridge.BaleClient.{
  ChatType, private, group, channel, group_or_channel, chat_key, GroupInfo, is_channel, note_chat,
}
use tg_bale_bridge.BaleClient.Account.{
  Failure, bot_api, Found, Invitee, by_object, by_id, call_get_me, call_get_full_group,
  call_load_user, call_invite_user, call_make_user_admin, UserInfo, Client, Act, pure, throw, ◌>>=◌,
  ◌>>◌, try_except, text_of, wrapped, wrapped_all, ask, use_session, change, attempt, start,
  type_for,
}
use tg_bale_bridge.BaleClient.Resolving.{Ref, resolve_id, resolve_user}

-- _ALREADY_MEMBER_HINTS
abbrev is_member_hint : Text → Bool
is_member_hint t =
    contains_text t (codes "already")
    || contains_text t (codes "member")
    || contains_text t (codes "exists")
    || contains_text t (codes "invite")

unfoldable pub already_member : Failure → Bool
unfolding lower contains_text
already_member e = is_member_hint (lower (text_of e))

abbrev pub unless_member : Failure → Act (Unit {0})
unless_member e = if already_member e then pure tt else throw e

abbrev pub invitee : ℤ × Option Found → Invitee
invitee (i, none) = by_id i
invitee (i, some u) = by_object u

-- The text of the error for a private chat.
abbrev no_admin_in_private : Text
no_admin_in_private =
    1583 ∷ 1585 ∷ 32 ∷ 1670 ∷ 1578 ∷ 32 ∷ 1582 ∷ 1589 ∷ 1608 ∷ 1589 ∷ 1740 ∷ 32 ∷ 1606 ∷ 1605 ∷ 1740
    ∷ 8204 ∷ 1578 ∷ 1608 ∷ 1575 ∷ 1606 ∷ 32 ∷ 1575 ∷ 1583 ∷ 1605 ∷ 1740 ∷ 1606 ∷ 32 ∷ 1575 ∷ 1590
    ∷ 1575 ∷ 1601 ∷ 1607 ∷ 32 ∷ 1705 ∷ 1585 ∷ 1583 ∷ []

abbrev is_private_type : ChatType → Bool
is_private_type private = true
is_private_type group = false
is_private_type channel = false
is_private_type group_or_channel = false

-- What `get_chat` answers; the type may be missing.
pub record ChatInfo : Type 0 where
  pub id : ℤ
  pub kind : Option ChatType
  pub title : Text
  pub username : Text

module _ (k : Client) where
  abbrev pub promote : ℤ → Text → ℤ × Option Found → Act (ℤ × ℤ)
  promote c title (i, u) = wrapped (codes "add_admin") (do
    try_except (ask k.act (call_invite_user c (invitee (i, u)))) unless_member
    ask k.act (call_make_user_admin c i title)
    pure (c, i))

  abbrev promote_in : ℤ → Ref → Text → ChatType → Act (ℤ × ℤ)
  promote_in c user title t =
      if is_private_type t
      then throw (bot_api no_admin_in_private)
      else (resolve_user k user >>= promote c title)

  -- The chat and the user. An empty title stands for `None`.
  unfoldable pub add_admin : Ref → Ref → Text → Act (ℤ × ℤ)
  unfolding already_member
  add_admin chat user title = do
    start k
    c ← resolve_id k chat
    t ← type_for k c
    promote_in c user title t

  abbrev pub me_with : Option UserInfo → Act UserInfo
  me_with (some i) = pure i
  me_with none = ask k.users call_get_me

  -- The client's own user, or the answer of `get_me`.
  abbrev pub own_info : Act UserInfo
  own_info a = me_with (k.me a.calls) a

  abbrev pub fill : UserInfo → Option UserInfo → UserInfo
  fill i none = i
  fill i (some u) = record i {
    name = or_text i.name u.name;
    username = or_text i.username u.username;
  }

  abbrev pub load_names : UserInfo → Act UserInfo
  load_names i =
      if not (int_eq i.id (pos 0)) && (null i.name || null i.username)
      then (attempt (ask k.users (call_load_user i.id)) >>= λ u. pure (fill i u))
      else pure i

  abbrev own_names : UserInfo → UserInfo
  own_names i = record i {
    name = or_text i.name (codes "Bale user");
    username = strip_at i.username;
  }

  unfoldable pub get_me : Act UserInfo
  unfolding strip_at
  get_me = do
    i ← wrapped_all (codes "get_me") (start k >> own_info)
    j ← load_names i
    pure (own_names j)

  abbrev group_chat : ℤ → GroupInfo → ChatInfo
  group_chat c i = record {
    id = c;
    kind = some (if is_channel i then channel else group);
    title = i.title;
    username = strip_at i.username;
  }

  abbrev user_chat : ℤ → UserInfo → ChatInfo
  user_chat c i = record {
    id = c;
    kind = some private;
    title = i.name;
    username = strip_at i.username;
  }

  -- `out.setdefault("type", …)` changes nothing, since the key is there already.
  abbrev bare_chat : ℤ → Option ChatType → ChatInfo
  bare_chat c t = record { id = c; kind = t; title = []; username = [] }

  abbrev pub described : ℤ → Option ChatType → Option GroupInfo → Act ChatInfo
  described c t (some i) = pure (group_chat c i)
  described c t none = do
    u ← attempt (ask k.users (call_load_user c))
    pure (elim u [ none ↦ bare_chat c t | some i ↦ user_chat c i ])

  abbrev keep_note : ChatInfo → Act ChatInfo
  keep_note i = change (note_chat i.id i.kind i.title i.username) >> pure i

  unfoldable pub get_chat : Ref → Act ChatInfo
  unfolding strip_at
  get_chat ref = do
    start k
    c ← wrapped (codes "get_chat") (resolve_id k ref)
    t ← use_session (λ s. (get (chat_key c) s.chat_types, s))
    info ← attempt (ask k.groups (call_get_full_group c))
    i ← described c t info
    keep_note i
