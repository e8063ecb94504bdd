-- ===== src/BaleClient/Flow.antt =====
-- bridge/bale: from the events of a user account to what it sends and deletes.
pub mod Dates
pub mod Types
pub mod Offsets
pub mod Names
pub mod Requests
pub mod Chats
pub mod Resolved
use tg_bale_bridge.Prelude.{Bool-cases, ◌≡◌, refl, inl, inr, true, List, [], ◌∷◌, arith}
use tg_bale_bridge.BaleClient.{Session}
use tg_bale_bridge.BaleClient.Account.{gave, call_start, Client, Account, set_started, start}
use tg_bale_bridge.BaleClient.Events.{Event, receive}

-- The events, one after the other.
abbrev pub receive_all : List Event → Session → Session
receive_all [] s = s
receive_all (e ∷ es) s = receive_all es (receive e s).1

module _ (k : Client) (a : Account) where
  -- The client is there, and the caches are as they were.
  pub record Begun (b : Account) : Type 0 where
    pub same_types : b.session.chat_types ≡ a.session.chat_types
    pub same_dates : b.session.dates ≡ a.session.dates
    pub same_db : b.session.db ≡ a.session.db

  pub start-gave :
      k.act a.calls call_start ≡ gave tt → (b : Account) × (start k a ≡ (gave tt, b)) × Begun b
  unfolding start set_started
  start-gave h = elim (Bool-cases a.session.started) [
    | inl e ↦
        (a, ground (arith, e), record { same_types = refl; same_dates = refl; same_db = refl })
    | inr e ↦ (
      record { session = record a.session { started = true }; calls = call_start ∷ a.calls },
      ground (arith, e, h),
      record { same_types = refl; same_dates = refl; same_db = refl },
    )
  ]
