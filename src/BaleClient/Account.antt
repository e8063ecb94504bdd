-- ===== src/BaleClient/Account.antt =====
-- bridge/bale: the client of a user account at work (session.py, resolver.py). The client of aiobale
-- is the record Client: what it answers to a call, given the calls before it. An exception is a
-- `BotAPIError` or another one, with its text; where the text shows a reference by `repr`, it is
-- shown as it is, or left out.
use tg_bale_bridge.Prelude.{
  if◌then◌else◌, Text, codes, ℕ, Bool, true, false, Option, none, some, List, ◌∷◌, ◌++◌,
}
use tg_bale_bridge.Prelude.Int.{ℤ}
use tg_bale_bridge.Prelude.Dict.{get}
use tg_bale_bridge.BaleClient.{
  ChatType, group_or_channel, Session, chat_key, GroupInfo, ensure_chat_type,
}

pub data Failure : Type 0 where
  bot_api other : Text → Failure

pub data Answer (A : Type 0) : Type 0 where
  gave : A → Answer A
  threw : Failure → Answer A

-- `PeerType`, and `InfoMessage`: the message that is answered.
pub data PeerType : Type 0 where
  peer_private peer_group : PeerType

pub record InfoMessage : Type 0 where
  pub peer_type : PeerType
  pub peer_id : ℤ
  pub message_id : ℕ
  pub date : ℕ

-- What `search_username` answers: objects and dicts within one another. The fields of an object are
-- `id`, `user_id`, `chat_id`, whether it has `access_hash` or `username`, then `user`, `group`,
-- `contact`, `peer`, `data`; those of a dict are `id`, `user_id`, `chat_id`, then `user`, `group`,
-- `contact`, `peer`. A value that is neither is `absent`.
pub data Found : Type 0 where
  absent : Found
  object : Option ℤ → Option ℤ → Option ℤ → Bool → Found → Found → Found → Found → Found → Found
  mapping : Option ℤ → Option ℤ → Option ℤ → Found → Found → Found → Found → Found

-- Who is invited: the user that was found, or an identifier.
pub data Invitee : Type 0 where
  by_object : Found → Invitee
  by_id : ℤ → Invitee

pub data ClientCall : Type 0 where
  call_start call_stop call_get_me : ClientCall
  call_search_username : Text → ClientCall
  call_get_full_group call_load_user : ℤ → ClientCall
  call_send_message : Text → ℤ → ChatType → Option InfoMessage → ClientCall
  -- The method, the name of the file's argument, the file, the chat and its type, the caption.
  call_send_media : Text → Text → Text → ℤ → ChatType → Text → Option InfoMessage → ClientCall
  call_edit_message : Text → ℕ → ℤ → ChatType → ClientCall
  call_delete_message : ℕ → ℕ → ℤ → ChatType → ClientCall
  call_invite_user : ℤ → Invitee → ClientCall
  call_make_user_admin : ℤ → ℤ → Text → ClientCall
  call_download_file : ℤ → ℕ → Text → ClientCall

-- A message as a method of sending returns it; 0 for a field that is missing or no number.
pub record Sent : Type 0 where
  pub message_id : ℕ
  pub id : ℕ
  pub rid : ℕ
  pub date : ℕ

-- A user; an empty text for a missing name.
pub record UserInfo : Type 0 where
  pub id : ℤ
  pub name : Text
  pub username : Text

abbrev pub Says : Type 0 → Type 0
Says A = List ClientCall → ClientCall → Answer A

-- `send` gives the messages of a result: one, a list of them, or none for `None`.
pub record Client : Type 0 where
  pub me : List ClientCall → Option UserInfo
  pub users : Says UserInfo
  pub search : Says Found
  pub groups : Says GroupInfo
  pub send : Says (List Sent)
  pub act : Says (Unit {0})

pub record Account : Type 0 where
  pub session : Session
  pub calls : List ClientCall

abbrev pub Act : Type 0 → Type 0
Act A = Account → Answer A × Account

abbrev pub pure : {A : Type 0} → A → Act A
pure x a = (gave x, a)

abbrev pub throw : {A : Type 0} → Failure → Act A
throw e a = (threw e, a)

abbrev pub next_with : {A B : Type 0} → (A → Act B) → Answer A × Account → Answer B × Account
next_with f (gave x, a) = f x a
next_with f (threw e, a) = (threw e, a)

infixl 5 ◌>>=◌ ◌>>◌
abbrev pub ◌>>=◌ : {A B : Type 0} → Act A → (A → Act B) → Act B
◌>>=◌ m f a = next_with f (m a)

abbrev pub ◌>>◌ : {B : Type 0} → Act (Unit {0}) → Act B → Act B
m >> k = m >>= λ _. k

abbrev pub caught_by : {A : Type 0} → (Failure → Act A) → Answer A × Account → Answer A × Account
caught_by h (gave x, a) = (gave x, a)
caught_by h (threw e, a) = h e a

-- `try: m; except Exception as e: h(e)`
abbrev pub try_except : {A : Type 0} → Act A → (Failure → Act A) → Act A
try_except m h a = caught_by h (m a)

-- `str(exc)`
abbrev pub text_of : Failure → Text
text_of (bot_api t) = t
text_of (other t) = t

-- `except BotAPIError: raise`, and `raise BotAPIError(f"{what} failed: {exc}")` for any other.
abbrev pub as_bot_api : {A : Type 0} → Text → Failure → Act A
as_bot_api what (bot_api t) = throw (bot_api t)
as_bot_api what (other t) = throw (bot_api (what ++ codes " failed: " ++ t))

abbrev pub wrapped : {A : Type 0} → Text → Act A → Act A
wrapped what m = try_except m (as_bot_api what)

-- `raise BotAPIError(f"{what} failed: {exc}")` for all.
abbrev pub wrapped_all : {A : Type 0} → Text → Act A → Act A
wrapped_all what m = try_except m (λ e. throw (bot_api (what ++ codes " failed: " ++ text_of e)))

-- `try: m; except BotAPIError: k`
abbrev pub if_bot_api : {A : Type 0} → Act A → Failure → Act A
if_bot_api k (bot_api t) = k
if_bot_api k (other t) = throw (other t)

abbrev pub try_bot_api : {A : Type 0} → Act A → Act A → Act A
try_bot_api m k = try_except m (if_bot_api k)

-- A call of the client.
abbrev pub ask : {A : Type 0} → Says A → ClientCall → Act A
ask says c a = (says a.calls c, record a { calls = c ∷ a.calls })

-- A function of the session, with an answer; `change`, without.
abbrev pub use_session : {A : Type 0} → (Session → A × Session) → Act A
use_session f a = let (x, s) = f a.session in (gave x, record a { session = s })

abbrev pub change : (Session → Session) → Act (Unit {0})
change f a = (gave tt, record a { session = f a.session })

-- The answer as an option, for a call that is allowed to fail.
abbrev pub attempt : {A : Type 0} → Act A → Act (Option A)
attempt m = try_except (m >>= λ x. pure (some x)) (λ e. pure none)

unfoldable pub set_started : Bool → Session → Session
set_started b s = record s { started = b }

abbrev pub is_settled : Option ChatType → Bool
is_settled none = false
is_settled (some group_or_channel) = false
is_settled (some t) = true

module _ (k : Client) where
  -- `start`, and `ensure_started`
  unfoldable pub start : Act (Unit {0})
  unfolding set_started
  start a =
      let run : Act (Unit {0}) = ask k.act call_start >> change (set_started true) in
      (if a.session.started then pure tt a else run a)

  unfoldable pub stop : Act (Unit {0})
  unfolding set_started
  stop = try_except (ask k.act call_stop) (λ e. pure tt) >> change (set_started false)

  -- `ensure_chat_type`, with the probe
  unfoldable pub type_for : ℤ → Act ChatType
  type_for c a =
      if is_settled (get (chat_key c) a.session.chat_types)
      then use_session (ensure_chat_type c none) a
      else (attempt (ask k.groups (call_get_full_group c)) >>= λ probe.
            use_session (ensure_chat_type c probe))
          a
