-- ===== src/BaleClient/Resolving.antt =====
-- bridge/bale: references to chats, users and messages (resolver.py, types_map.py).
use tg_bale_bridge.Prelude.{
  if◌then◌else◌, Text, codes, strip, lstrip_char, is_digits, ℕ, zero, suc, Option, none, some, ◌++◌,
}
use tg_bale_bridge.Prelude.Int.{ℤ, pos, int_eq, int_of}
use tg_bale_bridge.Prelude.Dict.{get, assign}
use tg_bale_bridge.BaleClient.{
  ChatType, private, group, channel, group_or_channel, Session, chat_type_of, date_for,
}
use tg_bale_bridge.BaleClient.Account.{
  bot_api, other, PeerType, peer_private, peer_group, InfoMessage, Found, absent, object, mapping,
  call_search_username, Client, Act, pure, throw, ◌>>=◌, ◌>>◌, ask, use_session, change,
}

-- A chat or a user as the callers name it: by an identifier, or by a text.
pub data Ref : Type 0 where
  number : ℤ → Ref
  name : Text → Ref

-- 0 stands for "not found", as in the code.
abbrev first_id : Option ℤ → Option ℤ → Option ℤ → Option ℤ
first_id (some i) u c = some i
first_id none (some u) c = some u
first_id none none c = c

abbrev or_found : ℤ → ℤ → ℤ
or_found i j = if int_eq i (pos 0) then j else i

-- `extract_id` of a dict: its own identifiers, then those of the dicts within.
id_in_mapping : Found → ℤ
unfolding int_eq
id_in_mapping absent = pos 0
id_in_mapping (object i u c s a b d e f) = pos 0
id_in_mapping (mapping i u c a b d e) =
    let inner =
      or_found (id_in_mapping a)
        (or_found (id_in_mapping b) (or_found (id_in_mapping d) (id_in_mapping e))) in
    elim (first_id i u c) [ none ↦ inner | some n ↦ n ]

unfoldable pub extract_id : Found → ℤ
unfolding id_in_mapping
extract_id absent = pos 0
extract_id (mapping i u c a b d e) = id_in_mapping (mapping i u c a b d e)
extract_id (object i u c s a b d e f) =
    let inner = or_found (extract_id a) (
      or_found (extract_id b) (or_found (extract_id d) (or_found (extract_id e) (extract_id f)))) in
    elim (first_id i u c) [ none ↦ inner | some n ↦ n ]

-- An object with an attribute `id`.
abbrev has_id : Found → Option Found
has_id (object (some i) u c s a b d e f) = some (object (some i) u c s a b d e f)
has_id (object none u c s a b d e f) = none
has_id absent = none
has_id (mapping i u c a b d e) = none

abbrev or_else : Option Found → Option Found → Option Found
or_else (some x) o = some x
or_else none o = o

-- `extract_user`: in the order `user`, `contact`, `data`, `peer`, then the object itself.
pub extract_user : Found → Option Found
extract_user absent = none
extract_user (mapping i u c a b d e) = none
extract_user (object i u c s user chat contact peer inner) = or_else (has_id user) (
    or_else (has_id contact) (
      or_else (has_id inner) (
        or_else (has_id peer)
          (if s then has_id (object i u c s user chat contact peer inner) else none))))

-- `peer_type`
unfoldable pub peer_type : ChatType → PeerType
peer_type group = peer_group
peer_type channel = peer_group
peer_type private = peer_private
peer_type group_or_channel = peer_private

-- `int(key)`, with its `ValueError`.
abbrev pub parsed : Option ℤ → Act ℤ
parsed none = throw (other (codes "invalid literal for int()"))
parsed (some n) = pure n

unfoldable pub remember_id : Text → ℤ → Session → Session
remember_id key i s = record s { id_cache = assign key i s.id_cache }

abbrev pub found_chat : Text → Found → Act ℤ
found_chat key found =
    let i = extract_id found in
    (if int_eq i (pos 0)
      then throw (bot_api (codes "chat not found: " ++ key))
      else (change (remember_id key i) >> pure i))

module _ (k : Client) where
  abbrev search_chat : Text → Act ℤ
  search_chat key = do
    found ← ask k.search (call_search_username (lstrip_char b'@' key))
    found_chat key found

  abbrev pub cached_or_search : Text → Option ℤ → Act ℤ
  cached_or_search key (some i) = pure i
  cached_or_search key none = search_chat key

  -- `resolve_id` of a stripped text
  abbrev pub resolve_name : Text → Act ℤ
  resolve_name key a =
      if is_digits (lstrip_char b'-' key)
      then parsed (int_of key) a
      else cached_or_search key (get key a.session.id_cache) a

  unfoldable pub resolve_id : Ref → Act ℤ
  unfolding remember_id
  resolve_id (number n) = pure n
  resolve_id (name t) = resolve_name (strip t)

  abbrev pub known_user : Text → Option Found → Act (ℤ × Option Found)
  known_user t none = throw (bot_api (codes "user not found: " ++ t))
  known_user t (some u) =
      let i = extract_id u in
      (if int_eq i (pos 0)
        then throw (bot_api (codes "user id not resolved: " ++ t))
        else pure (i, some u))

  unfoldable pub resolve_user : Ref → Act (ℤ × Option Found)
  resolve_user (number n) = pure (n, none)
  resolve_user (name t) = do
    found ← ask k.search (call_search_username (lstrip_char b'@' (strip t)))
    known_user t (extract_user found)

-- `reply_ref`; 0 stands for no reply.
unfoldable pub reply_ref : ℤ → ℕ → Act (Option InfoMessage)
unfolding peer_type
reply_ref c zero = pure none
reply_ref c (suc m) = do
  date ← use_session (date_for c (suc m))
  t ← use_session (λ s. (chat_type_of c s, s))
  pure (some (record { peer_type = peer_type t; peer_id = c; message_id = suc m; date = date }))
