-- ===== src/BotApi/Laws.antt =====
-- bridge/botapi/transport.py: the number of requests, and the result.
use tg_bale_bridge.Prelude.{
  ltb, ℕ, zero, suc, ◌+◌, ◌≤◌, ◌<◌, ◌≡◌, refl, ap, ◌∙◌, Bool, true, false, ◌&&◌, arith,
}
use tg_bale_bridge.BotApi.{
  max_attempts, network_retries, rate_limit_retries, Reply, accepted, refused, null_body, not_json,
  network_error, returned, Run, attempt_once, call_from, call,
}

module _ {A : Type 0} where
  -- The answer makes the loop go on.
  abbrev pub retried : ℕ → Reply A → Bool
  retried k (accepted a) = false
  retried k (refused desc code retry_after) = ltb 0 retry_after && ltb k rate_limit_retries
  retried k null_body = true
  retried k not_json = false
  retried k (network_error e) = ltb k network_retries

  attempt_once-retried :
      (k : ℕ) (r : Reply A) (later : Run A)
      → retried k r ≡ true
      → ((attempt_once k r later).result ≡ later.result)
        × ((attempt_once k r later).requests ≡ suc later.requests)
  unfolding attempt_once
  attempt_once-retried k (accepted a) later h = cc
  attempt_once-retried k (refused d c ra) later h = ground arith
  attempt_once-retried k null_body later h = (refl, refl)
  attempt_once-retried k not_json later h = cc
  attempt_once-retried k (network_error e) later h = ground arith

  attempt_once_requests :
      (k : ℕ) (r : Reply A) (later : Run A)
      → (1 ≤ (attempt_once k r later).requests)
        × ((attempt_once k r later).requests ≤ suc later.requests)
  unfolding attempt_once
  attempt_once_requests k (accepted a) later = (omega arith, omega arith)
  attempt_once_requests k (refused d c ra) later = ground arith
  attempt_once_requests k null_body later = (omega arith, omega arith)
  attempt_once_requests k not_json later = (omega arith, omega arith)
  attempt_once_requests k (network_error e) later = ground arith

  call_from_requests :
      (left k : ℕ) (replies : ℕ → Reply A) → (call_from left k replies).requests ≤ left
  unfolding call_from
  call_from_requests zero k replies = omega arith
  call_from_requests (suc left) k replies =
      let (_, most) = attempt_once_requests k (replies k) (call_from left (suc k) replies) in
      let later = call_from_requests left (suc k) replies in omega arith

  -- Whatever the server does, a call makes at least one request and at most four.
  call_requests :
      (replies : ℕ → Reply A)
      → (1 ≤ (call replies).requests) × ((call replies).requests ≤ max_attempts)
  unfolding call call_from
  call_requests replies = (
    (attempt_once_requests 0 (replies 0) (call_from 3 1 replies)).0,
    call_from_requests max_attempts 0 replies,
  )

  recovered :
      (d left k : ℕ) (replies : ℕ → Reply A) (a : A)
      → d < left
      → ((j : ℕ) → k ≤ j → j < k + d → retried j (replies j) ≡ true)
      → replies (k + d) ≡ accepted a
      → ((call_from left k replies).result ≡ returned a)
        × ((call_from left k replies).requests ≡ d + 1)
  unfolding call_from
  recovered d zero k replies a h retry e = absurd (omega arith)
  recovered zero (suc left) k replies a h retry e =
      let here : k ≡ k + 0 = omega arith in
      let e' : replies k ≡ accepted a = ap replies here ∙ e in rw e' (refl, omega arith)
  recovered (suc d) (suc left) k replies a h retry e =
      let here : suc k + d ≡ k + suc d = omega arith in
      let later = call_from left (suc k) replies in
      let again = attempt_once-retried k (replies k) later (retry k (omega arith) (omega arith)) in
      let (result, requests) =
        recovered d left (suc k) replies a (omega arith)
          (λ j p q. retry j (omega arith) (omega arith)) (ap replies here ∙ e) in
      (again.0 ∙ result, again.1 ∙ (omega arith))

  -- If the answers before the k-th of the four attempts are of those that are tried again, and
  -- that attempt is accepted, the call returns its result, after k + 1 requests.
  pub call_recovers :
      (replies : ℕ → Reply A) (k : ℕ) (a : A)
      → k < max_attempts
      → ((j : ℕ) → j < k → retried j (replies j) ≡ true)
      → replies k ≡ accepted a
      → ((call replies).result ≡ returned a) × ((call replies).requests ≡ k + 1)
  unfolding call
  call_recovers replies k a h retry e =
      let here : 0 + k ≡ k = omega arith in
      recovered k max_attempts 0 replies a h (λ j p q. retry j (omega arith)) (ap replies here ∙ e)
