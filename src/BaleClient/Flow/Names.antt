-- ===== src/BaleClient/Flow/Names.antt =====
-- bridge/bale: what keeps the identifier that a name was resolved to: rules for each way to build an
-- action, and the steps of the session.
use tg_bale_bridge.Prelude.{
  if◌then◌else◌, Bool-cases, Text, text_eq_iff, strip, lstrip_char, is_digits, ℕ, ◌≡◌, refl, ap,
  ◌∙◌, inl, inr, Bool, true, false, Option, none, some, arith,
}
use tg_bale_bridge.Prelude.Int.{ℤ, pos, int_eq, int_of}
use tg_bale_bridge.Prelude.Dict.{get, get-assign}
use tg_bale_bridge.BaleClient.{
  ChatType, private, group, channel, group_or_channel, Session, chat_key, GroupInfo, note_chat,
  ensure_with, ensure_chat_type, remember_date, date_for, access_hash_for,
}
use tg_bale_bridge.BaleClient.Account.{
  Failure, bot_api, other, Answer, gave, threw, Found, ClientCall, call_start, call_search_username,
  call_get_full_group, Says, Client, Account, Act, pure, throw, next_with, ◌>>=◌, caught_by,
  try_except, as_bot_api, if_bot_api, ask, use_session, change, attempt, set_started, is_settled,
  start, type_for,
}
use tg_bale_bridge.BaleClient.Resolving.{
  Ref, number, name, extract_id, parsed, remember_id, found_chat, cached_or_search, resolve_id,
}

-- What a name stands for.
abbrev pub known_id : Text → Session → Option ℤ
known_id key s = get key s.id_cache

ensure_with-id_cache :
    (c : ℤ) (o : Option ChatType) (p : Option GroupInfo) (s : Session)
    → (ensure_with c o p s).1.id_cache ≡ s.id_cache
unfolding note_chat
ensure_with-id_cache c none none s = refl
ensure_with-id_cache c none (some g) s = refl
ensure_with-id_cache c (some private) p s = refl
ensure_with-id_cache c (some group) p s = refl
ensure_with-id_cache c (some channel) p s = refl
ensure_with-id_cache c (some group_or_channel) none s = refl
ensure_with-id_cache c (some group_or_channel) (some g) s = refl

pub remember_date-id_cache :
    (c : ℤ) (m d : ℕ) (s : Session) → (remember_date c m d s).id_cache ≡ s.id_cache
unfolding remember_date
remember_date-id_cache c m d s = refl

pub date_for-id_cache : (c : ℤ) (m : ℕ) (s : Session) → (date_for c m s).1.id_cache ≡ s.id_cache
unfolding date_for
date_for-id_cache c m s = ground arith

pub access_hash_for-id_cache :
    (f : Text) (s : Session) → (access_hash_for f s).1.id_cache ≡ s.id_cache
unfolding access_hash_for
access_hash_for-id_cache f s = ground arith

pub note_chat-id_cache :
    (c : ℤ) (t : Option ChatType) (title user : Text) (s : Session)
    → (note_chat c t title user s).id_cache ≡ s.id_cache
unfolding note_chat
note_chat-id_cache c t title user s = refl

module _ (key : Text) (i : ℤ) where
  -- The action keeps what the name stands for.
  pub record Remembers {A : Type 0} (m : Act A) : Type 0 where
    pub keeps :
        (a : Account) → known_id key a.session ≡ some i → known_id key (m a).1.session ≡ some i

module _ (key : Text) (i : ℤ) (k : Client) where
  -- A name that is not known yet is another one.
  found-known_id :
      (j : Text) (n : ℤ) (s : Session)
      → known_id j s ≡ none
      → known_id key s ≡ some i
      → known_id key (remember_id j n s) ≡ some i
  unfolding remember_id
  found-known_id j n s e h = ground (arith, get-assign j key n s.id_cache, text_eq_iff j key, e, h)

  found_chat-known_id :
      (j : Text) (found : Found) (a : Account)
      → known_id j a.session ≡ none
      → known_id key a.session ≡ some i
      → known_id key (found_chat j found a).1.session ≡ some i
  found_chat-known_id j found a e h = elim (Bool-cases (int_eq (extract_id found) (pos 0))) [
    | inl z ↦ rw z h
    | inr z ↦ rw z (found-known_id j (extract_id found) a.session e h)
  ]

  searched-known_id :
      (j : Text) (r : Answer Found × Account)
      → known_id j r.1.session ≡ none
      → known_id key r.1.session ≡ some i
      → known_id key (next_with (found_chat j) r).1.session ≡ some i
  searched-known_id j (gave x, a) e h = found_chat-known_id j x a e h
  searched-known_id j (threw x, a) e h = h

  looked_up :
      (j : Text) (o : Option ℤ) (a : Account)
      → known_id j a.session ≡ o
      → known_id key a.session ≡ some i
      → known_id key (cached_or_search k j o a).1.session ≡ some i
  looked_up j (some n) a e h = h
  looked_up j none a e h =
      searched-known_id j (ask k.search (call_search_username (lstrip_char b'@' j)) a) e h

module _ {key : Text} {i : ℤ} where
  module _ {A : Type 0} where
    pub Remembers-pure : (x : A) → Remembers key i (pure x)
    Remembers-pure x = record { keeps = λ a h. h }

    pub Remembers-throw : (e : Failure) → Remembers key i (throw {A = A} e)
    Remembers-throw e = record { keeps = λ a h. h }

    pub Remembers-ask : (says : Says A) (c : ClientCall) → Remembers key i (ask says c)
    Remembers-ask says c = record { keeps = λ a h. h }

    caught-known_id :
        (h : Failure → Act A) (r : Answer A × Account)
        → ((e : Failure) → Remembers key i (h e))
        → known_id key r.1.session ≡ some i
        → known_id key (caught_by h r).1.session ≡ some i
    caught-known_id h (gave x, a) f p = p
    caught-known_id h (threw e, a) f p = (f e).keeps a p

    pub Remembers-try :
        (m : Act A) (h : Failure → Act A)
        → Remembers key i m
        → ((e : Failure) → Remembers key i (h e))
        → Remembers key i (try_except m h)
    Remembers-try m h fm fh = record { keeps = λ a p. caught-known_id h (m a) fh (fm.keeps a p) }

    pub Remembers-as_bot_api :
        (what : Text) (e : Failure) → Remembers key i (as_bot_api {A = A} what e)
    Remembers-as_bot_api what (bot_api t) = record { keeps = λ a h. h }
    Remembers-as_bot_api what (other t) = record { keeps = λ a h. h }

    pub Remembers-if_bot_api :
        (m : Act A) (e : Failure) → Remembers key i m → Remembers key i (if_bot_api m e)
    Remembers-if_bot_api m (bot_api t) h = h
    Remembers-if_bot_api m (other t) h = record { keeps = λ a p. p }

    pub Remembers-if :
        (b : Bool) (m n : Act A)
        → Remembers key i m
        → Remembers key i n
        → Remembers key i (if b then m else n)
    Remembers-if true m n fm fn = fm
    Remembers-if false m n fm fn = fn

    -- A function of the session that leaves the names alone.
    pub Remembers-use :
        (f : Session → A × Session)
        → ((s : Session) → (f s).1.id_cache ≡ s.id_cache)
        → Remembers key i (use_session f)
    Remembers-use f h = record { keeps = λ a p. ap (get key) (h a.session) ∙ p }

  pub Remembers-change :
      (f : Session → Session)
      → ((s : Session) → (f s).id_cache ≡ s.id_cache)
      → Remembers key i (change f)
  Remembers-change f h = record { keeps = λ a p. ap (get key) (h a.session) ∙ p }

  next-known_id :
      {A B : Type 0} (f : A → Act B) (r : Answer A × Account)
      → ((x : A) → Remembers key i (f x))
      → known_id key r.1.session ≡ some i
      → known_id key (next_with f r).1.session ≡ some i
  next-known_id f (gave x, a) g p = (g x).keeps a p
  next-known_id f (threw e, a) g p = p

  pub Remembers->>= :
      {A B : Type 0} (m : Act A) (f : A → Act B)
      → Remembers key i m
      → ((x : A) → Remembers key i (f x))
      → Remembers key i (m >>= f)
  Remembers->>= m f fm fg = record { keeps = λ a p. next-known_id f (m a) fg (fm.keeps a p) }

  module _ (k : Client) where
    pub start-Remembers : Remembers key i (start k)
    unfolding start set_started
    start-Remembers = record { keeps = λ a h. ground (arith, h, k.act a.calls call_start) }

    ensured : (c : ℤ) (p : Option GroupInfo) → Remembers key i (use_session (ensure_chat_type c p))
    unfolding ensure_chat_type
    ensured c p = Remembers-use _ (λ s. ensure_with-id_cache c (get (chat_key c) s.chat_types) p s)

    pub attempt-Remembers :
        {A : Type 0} (m : Act A) → Remembers key i m → Remembers key i (attempt m)
    attempt-Remembers m h =
        Remembers-try _ _ (Remembers->>= m _ h (λ x. Remembers-pure (some x)))
          (λ e. Remembers-pure none)

    pub type_for-Remembers : (c : ℤ) → Remembers key i (type_for k c)
    unfolding type_for
    type_for-Remembers c = record {
      keeps = λ a h. elim (Bool-cases (is_settled (get (chat_key c) a.session.chat_types))) [
        | inl e ↦ rw e ((ensured c none).keeps a h)
        | inr e ↦
            let asked = attempt-Remembers _ (Remembers-ask k.groups (call_get_full_group c)) in
            rw e ((Remembers->>= _ _ asked (ensured c)).keeps a h)
      ];
    }

    pub parsed-Remembers : (o : Option ℤ) → Remembers key i (parsed o)
    parsed-Remembers none = Remembers-throw _
    parsed-Remembers (some n) = Remembers-pure n

    pub resolve_id-Remembers : (ref : Ref) → Remembers key i (resolve_id k ref)
    unfolding resolve_id
    resolve_id-Remembers (number n) = Remembers-pure n
    resolve_id-Remembers (name t) = record {
      keeps = λ a h. elim (Bool-cases (is_digits (lstrip_char b'-' (strip t)))) [
        | inl e ↦ rw e ((parsed-Remembers (int_of (strip t))).keeps a h)
        | inr e ↦ rw e (looked_up key i k (strip t) (known_id (strip t) a.session) a refl h)
      ];
    }
