-- ===== src/BaleClient/Engine/Laws.antt =====
-- bridge/bale with bridge/transfer: deletions in Bale through a user account.
use tg_bale_bridge.Prelude.{Text, ℕ, ◌≡◌, refl, List, [], ◌∷◌, arith}
use tg_bale_bridge.Db.Pairs.{get_pair}
use tg_bale_bridge.Db.MsgMap.{Counterpart, remove_map_row}
use tg_bale_bridge.BaleClient.Account.{bot_api, other, Answer, gave, threw, Client, Account}
use tg_bale_bridge.BaleClient.Resolving.{name}
use tg_bale_bridge.BaleClient.Facade.{delete, Response, perform}
use tg_bale_bridge.BaleClient.Failures.{perform-IsHandled}
use tg_bale_bridge.BaleClient.Exceptions.{IsHandled}
use tg_bale_bridge.BaleClient.Engine.{acted, account_after, account_env}
use tg_bale_bridge.Transfer.Exec.{
  bot_api_error, type_error, value_error, other_error, Outcome, ok, raised, bale_delete_message,
  Env, World, M, for_each,
}
use tg_bale_bridge.Transfer.Deletes.{
  delete_on_bale, tg_delete_one, tg_delete_message_copies, process_tg_delete,
}
use tg_bale_bridge.Transfer.Deletes.Laws.{BaleOutcome, delete_on_bale_lem}

-- A result, or a `BotAPIError`.
abbrev IsTaken : {A : Type 0} → Outcome A → Type 0
IsTaken (ok a) = Unit
IsTaken (raised bot_api_error) = Unit
IsTaken (raised type_error) = ⊥
IsTaken (raised value_error) = ⊥
IsTaken (raised other_error) = ⊥

acted-IsTaken : (r : Answer Response) → IsHandled r → IsTaken (acted r)
acted-IsTaken (gave x) h = tt
acted-IsTaken (threw (bot_api t)) h = tt
acted-IsTaken (threw (other t)) h = absurd h

ends_of_outcome :
    (env : Env) (o : Counterpart) (w : World) (a : Outcome (Unit {0}))
    (r : Outcome (Unit {0}) × World)
    → IsTaken a
    → BaleOutcome env o w a r
    → (r.0 ≡ ok tt) × (r.1.db ≡ remove_map_row o.row_id w.db)
ends_of_outcome env o w (ok a) r t h = (h.0, h.1)
ends_of_outcome env o w (raised bot_api_error) r t h = (h.0, h.1)
ends_of_outcome env o w (raised type_error) r t h = absurd t
ends_of_outcome env o w (raised value_error) r t h = absurd t
ends_of_outcome env o w (raised other_error) r t h = absurd t

-- The action ends without an exception, whatever the world is.
record Ends (m : M (Unit {0})) : Type 0 where
  ends : (w : World) → (m w).0 ≡ ok tt

Ends-for_each :
    {A : Type 0} (f : A → M (Unit {0})) (xs : List A)
    → ((x : A) → Ends (f x))
    → Ends (for_each f xs)
unfolding for_each
Ends-for_each f [] h = record { ends = λ w. refl }
Ends-for_each f (x ∷ xs) h = record {
  ends = λ w. ground (arith, (h x).ends w, (Ends-for_each f xs h).ends (f x w).1);
}

module _ (k : Client) (start : Account) (base : Env) where
  delete_act-IsTaken :
      (o : Counterpart) (w : World)
      → IsTaken ((account_env k start base).act w.trace (bale_delete_message o.chat o.msg))
  unfolding account_env
  delete_act-IsTaken o w =
      let request = delete (name o.chat) o.msg in
      let past = account_after k start w.trace in
      acted-IsTaken (perform k request past).0 (perform-IsHandled k request past refl)

  -- Through a user account, a copy in Bale is deleted without an exception and its row leaves the
  -- map, whatever aiobale does.
  delete_on_bale-account_env :
      (o : Counterpart) (w : World)
      → ((delete_on_bale (account_env k start base) o w).0 ≡ ok tt)
        × ((delete_on_bale (account_env k start base) o w).1.db ≡ remove_map_row o.row_id w.db)
  delete_on_bale-account_env o w =
      let env = account_env k start base in
      ends_of_outcome env o w (env.act w.trace (bale_delete_message o.chat o.msg)) _
        (delete_act-IsTaken o w) (delete_on_bale_lem env o w)

  tg_delete_one-Ends : (o : Counterpart) → Ends (tg_delete_one (account_env k start base) o)
  unfolding tg_delete_one
  tg_delete_one-Ends o = record {
    ends = λ w. ground (arith, get_pair o.pair_id w.db, (delete_on_bale-account_env o w).0);
  }

  copies-Ends :
      (chat : Text) (m : ℕ) → Ends (tg_delete_message_copies (account_env k start base) chat m)
  unfolding tg_delete_message_copies
  copies-Ends chat m = record {
    ends =
        λ w. (Ends-for_each (tg_delete_one (account_env k start base)) _ tg_delete_one-Ends).ends _;
  }

  -- With a user account as the client of Bale, a batch of deletions in Telegram ends without an
  -- exception, whatever aiobale does and whatever the map holds.
  pub process_tg_delete-account_env :
      (chat : Text) (ids : List ℕ) (w : World)
      → (process_tg_delete (account_env k start base) chat ids w).0 ≡ ok tt
  unfolding process_tg_delete
  process_tg_delete-account_env chat ids w = (Ends-for_each _ ids (copies-Ends chat)).ends w
