-- ===== src/BaleClient/Gateway.antt =====
-- bridge/bale/gateway.py on the client of a user account: a chat by its reference, and the probe of the
-- access to it. The notes beside the answer of the probe are left out.
use tg_bale_bridge.Prelude.{
  ◌==◌, if◌then◌else◌, Text, codes, strip, starts_with, is_digits, ℕ, zero, suc, ◌≡◌, refl, Bool,
  true, false, ◌&&◌, ◌||◌, [], ◌∷◌,
}
use tg_bale_bridge.Prelude.Int.{ℤ, str_int}
use tg_bale_bridge.Textfmt.Headers.{or_text}
use tg_bale_bridge.BaleClient.Account.{
  other, Answer, gave, threw, Client, Account, Act, pure, throw, next_with, ◌>>=◌, ◌>>◌, caught_by,
  try_except, text_of,
}
use tg_bale_bridge.BaleClient.Resolving.{number, name}
use tg_bale_bridge.BaleClient.Sending.{send_message, delete_message}
use tg_bale_bridge.BaleClient.Members.{ChatInfo, get_chat}

-- `ref.isdigit() or (ref.startswith("-") and ref[1:].isdigit())`
abbrev is_number : Text → Bool
is_number [] = false
is_number (c ∷ cs) = is_digits (c ∷ cs) || (c == b'-' && is_digits cs)

-- A number and a name with its sign stay; another name gets the sign.
chat_name : Text → Text
unfolding is_digits starts_with
chat_name ref = if is_number ref || starts_with ref (codes "@") then ref else b'@' ∷ ref

-- The text that is sent to see whether one may.
abbrev probe_text : Text
probe_text =
    128276 ∷ 32 ∷ 1578 ∷ 1587 ∷ 1578 ∷ 32 ∷ 1583 ∷ 1587 ∷ 1578 ∷ 1585 ∷ 1587 ∷ 1740 ∷ 32 ∷ 1662
    ∷ 1604 ∷ []

module _ (k : Client) where
  abbrev described_by : ChatInfo → Text × Text × Text
  described_by i = (str_int i.id, or_text i.title i.username, i.username)

  -- The identifier, a label and the username; any exception becomes a `ValueError`.
  unfoldable pub resolve : Text → Act (Text × Text × Text)
  unfolding chat_name strip
  resolve ref =
      try_except (get_chat k (name (chat_name (strip ref))) >>= λ i. pure (described_by i))
        (λ e. throw (other (text_of e)))

  -- The message that was sent is deleted again; whether that works is of no interest.
  abbrev clean_up : ℤ → ℕ → Act Bool
  clean_up c zero = pure false
  clean_up c (suc m) =
      try_except (delete_message k (number c) (suc m) >> pure true) (λ e. pure true)

  probe_access : ℤ → Act Bool
  probe_access c =
      try_except (send_message k (number c) probe_text 0 >>= clean_up c) (λ e. pure false)

  -- A message with an identifier was sent.
  abbrev was_sent : Answer ℕ → Bool
  was_sent (gave zero) = false
  was_sent (gave (suc m)) = true
  was_sent (threw e) = false

  -- The account after the message is deleted, if there is one.
  abbrev cleaned : ℤ → Answer ℕ × Account → Account
  cleaned c (gave zero, a) = a
  cleaned c (gave (suc m), a) = (delete_message k (number c) (suc m) a).1
  cleaned c (threw e, a) = a

  deleted_too :
      (r : Answer (Unit {0}) × Account)
      → caught_by (λ e. pure true) (next_with (λ _. pure true) r) ≡ (gave true, r.1)
  deleted_too (gave x, a) = refl
  deleted_too (threw e, a) = refl

  probed_by :
      (c : ℤ) (r : Answer ℕ × Account)
      → caught_by (λ e. pure false) (next_with (clean_up c) r) ≡ (gave (was_sent r.0), cleaned c r)
  probed_by c (gave zero, a) = refl
  probed_by c (gave (suc m), a) = rw (deleted_too (delete_message k (number c) (suc m) a)) refl
  probed_by c (threw e, a) = refl

  -- The probe raises nothing. It says yes exactly if a message with an identifier was sent, and has
  -- then tried to delete this message and done nothing else.
  probe_access_lem :
      (c : ℤ) (a : Account)
      → let sent = send_message k (number c) probe_text 0 a in
        probe_access c a ≡ (gave (was_sent sent.0), cleaned c sent)
  unfolding probe_access
  probe_access_lem c a = probed_by c (send_message k (number c) probe_text 0 a)
