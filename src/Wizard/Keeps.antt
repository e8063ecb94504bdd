-- ===== src/Wizard/Keeps.antt =====
-- What a handler of the wizard leaves alone: rules for each way to build one.
use tg_bale_bridge.Prelude.{if◌then◌else◌, ◌≡◌, refl, ◌∙◌, Bool, true, false, List, ◌∷◌}
use tg_bale_bridge.Prelude.Int.{ℤ}
use tg_bale_bridge.Transfer.Exec.{Exc, Outcome, ok, raised}
use tg_bale_bridge.Wizard.{
  Notice, Ask, Wiz, W, pure, raise, continue, ◌>>=◌, handle, or_else, modify, gets, ask, query, say,
  answer,
}

-- Whatever happens, a part of the state is as it was.
pub record Keeps {X A : Type 0} (f : Wiz → X) (m : W A) : Type 0 where
  pub kept : (w : Wiz) → f (m w).1 ≡ f w

-- A part of the state that the messages and the calls are no part of.
pub record IsQuiet {X : Type 0} (f : Wiz → X) : Type 0 where
  pub said_apart : (w : Wiz) (l : List (ℤ × Notice)) → f (record w { said = l }) ≡ f w
  pub asked_apart : (w : Wiz) (l : List Ask) → f (record w { asked = l }) ≡ f w

module _ {X : Type 0} (f : Wiz → X) where
  pub Keeps-pure : {A : Type 0} (a : A) → Keeps f (pure a)
  Keeps-pure a = record { kept = λ w. refl }

  pub Keeps-raise : {A : Type 0} (e : Exc) → Keeps f (raise {A = A} e)
  Keeps-raise e = record { kept = λ w. refl }

  pub Keeps-gets : {A : Type 0} (g : Wiz → A) → Keeps f (gets g)
  Keeps-gets g = record { kept = λ w. refl }

  pub Keeps-modify : (g : Wiz → Wiz) → ((w : Wiz) → f (g w) ≡ f w) → Keeps f (modify g)
  Keeps-modify g h = record { kept = h }

  pub Keeps-ask :
      {A : Type 0} (q : IsQuiet f) (answer : List Ask → Ask → Outcome A) (c : Ask)
      → Keeps f (ask answer c)
  Keeps-ask q answer c = record { kept = λ w. q.asked_apart w (c ∷ w.asked) }

  pub Keeps-query :
      {A : Type 0} (q : IsQuiet f) (answer : List Ask → Ask → A) (c : Ask)
      → Keeps f (query answer c)
  Keeps-query q answer c = record { kept = λ w. q.asked_apart w (c ∷ w.asked) }

  pub Keeps-say : (q : IsQuiet f) (c : ℤ) (n : Notice) → Keeps f (say c n)
  Keeps-say q c n = record { kept = λ w. q.said_apart w ((c, n) ∷ w.said) }

  pub Keeps-if :
      {A : Type 0} (b : Bool) (m n : W A) → Keeps f m → Keeps f n → Keeps f (if b then m else n)
  Keeps-if true m n km kn = km
  Keeps-if false m n km kn = kn

  handle-kept :
      {A : Type 0} (a : A) (r : Outcome A × Wiz) (x : X) → f r.1 ≡ x → f (handle a r).1 ≡ x
  handle-kept a (ok b, w) x p = p
  handle-kept a (raised e, w) x p = p

  pub Keeps-or_else : {A : Type 0} (a : A) (m : W A) → Keeps f m → Keeps f (or_else a m)
  Keeps-or_else a m km = record { kept = λ w. handle-kept a (m w) (f w) (km.kept w) }

  continue-kept :
      {A B : Type 0} (k : A → W B) (r : Outcome A × Wiz) (x : X)
      → ((a : A) → Keeps f (k a))
      → f r.1 ≡ x
      → f (continue k r).1 ≡ x
  continue-kept k (ok a, w) x kk p = (kk a).kept w ∙ p
  continue-kept k (raised e, w) x kk p = p

  pub Keeps-bind :
      {A B : Type 0} (m : W A) (k : A → W B)
      → Keeps f m
      → ((a : A) → Keeps f (k a))
      → Keeps f (m >>= k)
  Keeps-bind m k km kk = record { kept = λ w. continue-kept k (m w) (f w) kk (km.kept w) }

pub ruleset keep_rules = (
  Keeps-pure, Keeps-raise, Keeps-gets, Keeps-modify, Keeps-ask, Keeps-query, Keeps-say, Keeps-if,
  Keeps-or_else, Keeps-bind,
)
