-- ===== src/BaleClient/Exceptions.antt =====
-- bridge/bale: which exceptions an action lets out: rules for each way to build an action.
use tg_bale_bridge.Prelude.{if◌then◌else◌, Text, codes, Bool, true, false, none, some, ◌++◌}
use tg_bale_bridge.BaleClient.{Session}
use tg_bale_bridge.BaleClient.Account.{
  bot_api, other, Answer, gave, threw, Account, Act, pure, throw, next_with, ◌>>=◌, caught_by,
  text_of, as_bot_api, wrapped, wrapped_all, if_bot_api, try_bot_api, use_session, attempt,
}

-- A result, or a `BotAPIError`.
abbrev pub IsHandled : {A : Type 0} → Answer A → Type 0
IsHandled (gave x) = Unit
IsHandled (threw (bot_api t)) = Unit
IsHandled (threw (other t)) = ⊥

-- Whatever the state, no other exception comes out.
pub record OnlyBotApi {A : Type 0} (m : Act A) : Type 0 where
  pub always : (a : Account) → IsHandled (m a).0

module _ {A : Type 0} where
  pub OnlyBotApi-pure : (x : A) → OnlyBotApi (pure x)
  OnlyBotApi-pure x = record { always = λ a. tt }

  pub OnlyBotApi-throw : (t : Text) → OnlyBotApi (throw {A = A} (bot_api t))
  OnlyBotApi-throw t = record { always = λ a. tt }

  as_bot_api-IsHandled :
      (what : Text) (r : Answer A × Account) → IsHandled (caught_by (as_bot_api what) r).0
  as_bot_api-IsHandled what (gave x, a) = tt
  as_bot_api-IsHandled what (threw (bot_api t), a) = tt
  as_bot_api-IsHandled what (threw (other t), a) = tt

  pub OnlyBotApi-wrapped : (what : Text) (m : Act A) → OnlyBotApi (wrapped what m)
  OnlyBotApi-wrapped what m = record { always = λ a. as_bot_api-IsHandled what (m a) }

  all-IsHandled :
      (what : Text) (r : Answer A × Account)
      → IsHandled (caught_by (λ e. throw (bot_api (what ++ codes " failed: " ++ text_of e))) r).0
  all-IsHandled what (gave x, a) = tt
  all-IsHandled what (threw e, a) = tt

  pub OnlyBotApi-wrapped_all : (what : Text) (m : Act A) → OnlyBotApi (wrapped_all what m)
  OnlyBotApi-wrapped_all what m = record { always = λ a. all-IsHandled what (m a) }

  second-IsHandled :
      (h : Act A) (r : Answer A × Account)
      → OnlyBotApi h
      → IsHandled r.0
      → IsHandled (caught_by (if_bot_api h) r).0
  second-IsHandled h (gave x, a) fh p = tt
  second-IsHandled h (threw (bot_api t), a) fh p = fh.always a
  second-IsHandled h (threw (other t), a) fh p = p

  pub OnlyBotApi-try : (m h : Act A) → OnlyBotApi m → OnlyBotApi h → OnlyBotApi (try_bot_api m h)
  OnlyBotApi-try m h fm fh = record { always = λ a. second-IsHandled h (m a) fh (fm.always a) }

  attempt-gave : (m : Act A) (a : Account) → IsHandled (attempt m a).0
  attempt-gave m a = attempted (m a)
    where
      attempted :
          (r : Answer A × Account)
          → IsHandled (caught_by (λ e. pure none) (next_with (λ x. pure (some x)) r)).0
      attempted (gave x, b) = tt
      attempted (threw e, b) = tt

  pub OnlyBotApi-attempt : (m : Act A) → OnlyBotApi (attempt m)
  OnlyBotApi-attempt m = record { always = attempt-gave m }

  pub OnlyBotApi-use_session : (f : Session → A × Session) → OnlyBotApi (use_session f)
  OnlyBotApi-use_session f = record { always = λ a. tt }

  pub OnlyBotApi-if :
      (b : Bool) (m n : Act A) → OnlyBotApi m → OnlyBotApi n → OnlyBotApi (if b then m else n)
  OnlyBotApi-if true m n fm fn = fm
  OnlyBotApi-if false m n fm fn = fn

next-IsHandled :
    {A B : Type 0} (f : A → Act B) (r : Answer A × Account)
    → IsHandled r.0
    → ((x : A) → OnlyBotApi (f x))
    → IsHandled (next_with f r).0
next-IsHandled f (gave x, a) h g = (g x).always a
next-IsHandled f (threw (bot_api t), a) h g = tt
next-IsHandled f (threw (other t), a) h g = h

pub OnlyBotApi->>= :
    {A B : Type 0} (m : Act A) (f : A → Act B)
    → OnlyBotApi m
    → ((x : A) → OnlyBotApi (f x))
    → OnlyBotApi (m >>= f)
OnlyBotApi->>= m f h g = record { always = λ a. next-IsHandled f (m a) (h.always a) g }

pub ruleset handled = (
  OnlyBotApi-pure, OnlyBotApi-throw, OnlyBotApi-wrapped, OnlyBotApi-wrapped_all, OnlyBotApi-try,
  OnlyBotApi-attempt, OnlyBotApi-use_session, OnlyBotApi-if, OnlyBotApi->>=,
)
