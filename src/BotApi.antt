-- ===== src/BotApi.antt =====
-- bridge/botapi/transport.py: a call of a Bot-API method, with its retries. What the session
-- answers to the attempts is the function `replies`; the naps are counted in half seconds, and
-- `retry_after` in whole ones. Methods has the requests.
pub mod Laws
pub mod Methods
pub mod Albums
pub mod Facade
use tg_bale_bridge.Prelude.{
  ltb, if◌then◌else◌, Text, ℕ, zero, suc, ◌+◌, ◌*◌, ◌&&◌, List, [], ◌∷◌, ◌++◌,
}

abbrev pub max_attempts : ℕ
max_attempts = 4

abbrev pub network_retries : ℕ
network_retries = 2

abbrev pub rate_limit_retries : ℕ
rate_limit_retries = 3

-- What one attempt brings: a payload with "ok" and its result, one without, with its description,
-- code and "retry_after" (0 for none), the JSON text "null", a body that is not JSON, or an error of
-- the network.
pub data Reply (A : Type 0) : Type 0 where
  accepted : A → Reply A
  refused : Text → ℕ → ℕ → Reply A
  null_body : Reply A
  not_json : Reply A
  network_error : Text → Reply A

-- What the call returns, or the `BotAPIError` it raises, or the exception of a body that is not
-- JSON, which is passed on.
pub data CallResult (A : Type 0) : Type 0 where
  returned : A → CallResult A
  api_error : Text → ℕ → CallResult A
  network_failed : Text → CallResult A
  json_failed : CallResult A
  out_of_attempts : CallResult A

pub record Run (A : Type 0) : Type 0 where
  pub result : CallResult A
  pub naps : List ℕ
  pub requests : ℕ

module _ {A : Type 0} where
  abbrev ended : CallResult A → Run A
  ended r = record { result = r; naps = []; requests = 1 }

  -- A nap, and the attempts after it.
  abbrev resumed : List ℕ → Run A → Run A
  resumed nap run = record {
    result = run.result;
    naps = nap ++ run.naps;
    requests = suc run.requests;
  }

  -- The body of the loop, given the run of the later attempts.
  pub attempt_once : ℕ → Reply A → Run A → Run A
  attempt_once attempt (accepted a) later = ended (returned a)
  attempt_once attempt (refused desc code retry_after) later =
      if ltb 0 retry_after && ltb attempt rate_limit_retries
      then resumed ((2 * retry_after + 1) ∷ []) later
      else ended (api_error desc code)
  attempt_once attempt null_body later = resumed [] later
  attempt_once attempt not_json later = ended json_failed
  attempt_once attempt (network_error e) later =
      if ltb attempt network_retries
      then resumed ((3 * (attempt + 1)) ∷ []) later
      else ended (network_failed e)

  -- The loop, with the number of attempts left.
  pub call_from : ℕ → ℕ → (ℕ → Reply A) → Run A
  unfolding attempt_once
  call_from zero attempt replies = record { result = out_of_attempts; naps = []; requests = 0 }
  call_from (suc left) attempt replies =
      attempt_once attempt (replies attempt) (call_from left (suc attempt) replies)

  pub call : (ℕ → Reply A) → Run A
  unfolding call_from
  call replies = call_from max_attempts 0 replies
