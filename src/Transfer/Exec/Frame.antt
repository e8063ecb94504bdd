-- ===== src/Transfer/Exec/Frame.antt =====
-- What an action leaves alone: rules for each way to build an action.
use tg_bale_bridge.Prelude.{
  if◌then◌else◌, ◌≡◌, refl, ◌∙◌, Bool, true, false, Option, none, some, List, [], ◌∷◌, ◌++◌,
}
use tg_bale_bridge.Db.{Database}
use tg_bale_bridge.Guard.{Guard}
use tg_bale_bridge.Transfer.Exec.{
  Exc, bot_api_error, type_error, value_error, other_error, Outcome, ok, raised, Call, World, M,
  pure, raise, continue, ◌>>=◌, handle, try_catch, only_bot_api, try_bot_api, only_type_error,
  try_type, gather, ask, lift,
}

-- The action may call the clients; it changes neither the database nor the guard.
pub record Frames {A : Type 0} (m : M A) : Type 0 where
  pub db_kept : (w : World) → (m w).1.db ≡ w.db
  pub guard_kept : (w : World) → (m w).1.guard ≡ w.guard

module _ {A : Type 0} where
  pub Frames-pure : (a : A) → Frames (pure a)
  Frames-pure a = record { db_kept = λ w. refl; guard_kept = λ w. refl }

  pub Frames-raise : (e : Exc) → Frames (raise {A = A} e)
  Frames-raise e = record { db_kept = λ w. refl; guard_kept = λ w. refl }

  pub Frames-ask : (answer : List Call → Call → Outcome A) (c : Call) → Frames (ask answer c)
  Frames-ask answer c = record { db_kept = λ w. refl; guard_kept = λ w. refl }

  pub Frames-lift : (e : Exc) (o : Option A) → Frames (lift e o)
  Frames-lift e none = record { db_kept = λ w. refl; guard_kept = λ w. refl }
  Frames-lift e (some a) = record { db_kept = λ w. refl; guard_kept = λ w. refl }

  pub Frames-if : (b : Bool) (m n : M A) → Frames m → Frames n → Frames (if b then m else n)
  Frames-if true m n fm fn = fm
  Frames-if false m n fm fn = fn

  handle-db :
      (h : Exc → M A) (r : Outcome A × World) (d : Database)
      → ((e : Exc) → Frames (h e))
      → r.1.db ≡ d
      → (handle h r).1.db ≡ d
  handle-db h (ok a, w) d fh p = p
  handle-db h (raised e, w) d fh p = (fh e).db_kept w ∙ p

  handle-guard :
      (h : Exc → M A) (r : Outcome A × World) (g : Guard)
      → ((e : Exc) → Frames (h e))
      → r.1.guard ≡ g
      → (handle h r).1.guard ≡ g
  handle-guard h (ok a, w) g fh p = p
  handle-guard h (raised e, w) g fh p = (fh e).guard_kept w ∙ p

  pub Frames-try :
      (m : M A) (h : Exc → M A) → Frames m → ((e : Exc) → Frames (h e)) → Frames (try_catch m h)
  Frames-try m h fm fh = record {
    db_kept = λ w. handle-db h (m w) w.db fh (fm.db_kept w);
    guard_kept = λ w. handle-guard h (m w) w.guard fh (fm.guard_kept w);
  }

  only_bot_api-Frames : (h : M A) → Frames h → (e : Exc) → Frames (only_bot_api h e)
  only_bot_api-Frames h fh bot_api_error = fh
  only_bot_api-Frames h fh type_error = Frames-raise type_error
  only_bot_api-Frames h fh value_error = Frames-raise value_error
  only_bot_api-Frames h fh other_error = Frames-raise other_error

  pub Frames-try_bot_api : (m h : M A) → Frames m → Frames h → Frames (try_bot_api m h)
  Frames-try_bot_api m h fm fh = Frames-try m (only_bot_api h) fm (only_bot_api-Frames h fh)

  only_type-Frames : (h : M A) → Frames h → (e : Exc) → Frames (only_type_error h e)
  only_type-Frames h fh type_error = fh
  only_type-Frames h fh bot_api_error = Frames-raise bot_api_error
  only_type-Frames h fh value_error = Frames-raise value_error
  only_type-Frames h fh other_error = Frames-raise other_error

  pub Frames-try_type : (m h : M A) → Frames m → Frames h → Frames (try_type m h)
  Frames-try_type m h fm fh = Frames-try m (only_type_error h) fm (only_type-Frames h fh)

module _ {A B : Type 0} where
  continue-db :
      (f : A → M B) (r : Outcome A × World) (d : Database)
      → ((a : A) → Frames (f a))
      → r.1.db ≡ d
      → (continue f r).1.db ≡ d
  continue-db f (ok a, w) d ff p = (ff a).db_kept w ∙ p
  continue-db f (raised e, w) d ff p = p

  continue-guard :
      (f : A → M B) (r : Outcome A × World) (g : Guard)
      → ((a : A) → Frames (f a))
      → r.1.guard ≡ g
      → (continue f r).1.guard ≡ g
  continue-guard f (ok a, w) g ff p = (ff a).guard_kept w ∙ p
  continue-guard f (raised e, w) g ff p = p

  pub Frames-bind : (m : M A) (f : A → M B) → Frames m → ((a : A) → Frames (f a)) → Frames (m >>= f)
  Frames-bind m f fm ff = record {
    db_kept = λ w. continue-db f (m w) w.db ff (fm.db_kept w);
    guard_kept = λ w. continue-guard f (m w) w.guard ff (fm.guard_kept w);
  }

module _ {A B : Type 0} where
  pub Frames-gather :
      (f : A → M (List B)) (xs : List A) → ((a : A) → Frames (f a)) → Frames (gather f xs)
  unfolding gather
  Frames-gather f [] ff = Frames-pure []
  Frames-gather f (x ∷ xs) ff =
      Frames-bind (f x) _ (ff x)
        (λ ys. Frames-bind (gather f xs) _ (Frames-gather f xs ff) (λ zs. Frames-pure (ys ++ zs)))

pub ruleset frame_rules = (
  Frames-pure, Frames-raise, Frames-ask, Frames-lift, Frames-if, Frames-try, Frames-try_bot_api,
  Frames-try_type, Frames-bind, Frames-gather,
)
