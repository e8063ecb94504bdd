-- ===== src/BaleClient/Laws.antt =====
-- bridge/bale: what the caches are good for.
use tg_bale_bridge.Prelude.{
  ◌==◌, All, Text, text_eq_refl, ℕ, suc, ◌≡◌, refl, Bool, true, false, ◌||◌, Option, none, some,
  List, [], ◌∷◌, arith,
}
use tg_bale_bridge.Prelude.Int.{ℤ, str_nat, int_of-str_nat}
use tg_bale_bridge.Prelude.Dict.{Dict, get, assign, get-assign}
use tg_bale_bridge.Db.Meta.{get_meta-set_meta}
use tg_bale_bridge.BaleClient.{
  ChatType, private, group, channel, group_or_channel, Session, chat_type_name,
  group_like_type_value, chat_key, set_default, note_type, GroupInfo, is_channel, ensure_with,
  ensure_chat_type, date_key, remember_date, date_for, restart,
}

-- The date that is remembered of a message is what is looked up for it, and a date other than 0
-- also after a restart, from the database.
date_for-restart :
    (c : ℤ) (m d : ℕ) (s : Session)
    → ((date_for c m (remember_date c m d s)).0 ≡ d)
      × ((date_for c m (restart (remember_date c m (suc d) s))).0 ≡ suc d)
unfolding date_for remember_date restart get
date_for-restart c m d s = (
  ground (arith, get-assign (date_key c m) (date_key c m) d s.dates, text_eq_refl (date_key c m)),
  ground (
    arith,
    get_meta-set_meta s.db (date_key c m) (date_key c m) (str_nat (suc d)),
    text_eq_refl (date_key c m),
    int_of-str_nat (suc d),
  ),
)

-- What a message of a channel reports as its type: CHANNEL, or a type that groups have too.
abbrev pub IsChannelLike : ℕ × Bool → Type 0
IsChannelLike (raw, from_peer) = (raw == 3 || group_like_type_value raw from_peer) ≡ true

abbrev note_all : ℤ → List (ℕ × Bool) → Session → Session
note_all c [] s = s
note_all c ((raw, from_peer) ∷ us) s = note_all c us (note_type c raw from_peer s)

-- Nothing says that the chat is a private one or a group.
abbrev pub is_open : Option ChatType → Bool
is_open none = true
is_open (some channel) = true
is_open (some group_or_channel) = true
is_open (some group) = false
is_open (some private) = false

pub default-open :
    (k : Text) (o : Option ChatType) (d : Dict ChatType)
    → get k d ≡ o
    → is_open o ≡ true
    → is_open (get k (set_default k group_or_channel o d)) ≡ true
default-open k none d e h = ground (arith, get-assign k k group_or_channel d, text_eq_refl k)
default-open k (some t) d e h = ground (arith, e, h)

assign-open : (k : Text) (d : Dict ChatType) → is_open (get k (assign k channel d)) ≡ true
assign-open k d = ground (arith, get-assign k k channel d, text_eq_refl k)

pub note_type-open :
    (c : ℤ) (raw : ℕ) (from_peer : Bool) (s : Session)
    → IsChannelLike (raw, from_peer)
    → is_open (get (chat_key c) s.chat_types) ≡ true
    → is_open (get (chat_key c) (note_type c raw from_peer s).chat_types) ≡ true
unfolding note_type chat_type_name group_like_type_value
note_type-open c raw from_peer s h o = ground (
  arith,
  default-open (chat_key c) (get (chat_key c) s.chat_types) s.chat_types refl o,
  assign-open (chat_key c) s.chat_types,
)

note_all-open :
    (c : ℤ) (us : List (ℕ × Bool)) (s : Session)
    → All IsChannelLike us
    → is_open (get (chat_key c) s.chat_types) ≡ true
    → is_open (get (chat_key c) (note_all c us s).chat_types) ≡ true
note_all-open c [] s h o = o
note_all-open c ((raw, from_peer) ∷ us) s h o =
    note_all-open c us _ h.1 (note_type-open c raw from_peer s h.0 o)

pub ensure-open :
    (c : ℤ) (o : Option ChatType) (i : GroupInfo) (s : Session)
    → is_open o ≡ true
    → is_channel i ≡ true
    → (ensure_with c o (some i) s).0 ≡ channel
ensure-open c none i s h p = rw p refl
ensure-open c (some channel) i s h p = refl
ensure-open c (some group_or_channel) i s h p = rw p refl
ensure-open c (some group) i s h p = cc
ensure-open c (some private) i s h p = cc

-- For a chat whose type is not known yet, whatever updates come in that report the type of a
-- channel or one that groups have too, the type for sending is that of a channel if the probe of
-- the chat says so.
ensure_chat_type-note_all :
    (c : ℤ) (us : List (ℕ × Bool)) (i : GroupInfo) (s : Session)
    → get (chat_key c) s.chat_types ≡ none
    → All IsChannelLike us
    → is_channel i ≡ true
    → (ensure_chat_type c (some i) (note_all c us s)).0 ≡ channel
unfolding ensure_chat_type
ensure_chat_type-note_all c us i s e h p =
    ensure-open c _ i (note_all c us s) (note_all-open c us s h (ground (arith, e))) p
