-- ===== src/Wizard/Edges.antt =====
-- bridge/wizard/facade.py: the diagram of the conversation, and rules for what moves along an edge.
use tg_bale_bridge.Prelude.{if◌then◌else◌, ◌≡◌, refl, ap, ◌∙◌, Bool, true, false}
use tg_bale_bridge.Prelude.Int.{ℤ}
use tg_bale_bridge.Transfer.Exec.{Outcome, ok, raised}
use tg_bale_bridge.Wizard.{
  Step, Answers, Conv, Wiz, W, continue, ◌>>=◌, modify, conv_of, set_conv, conv_at-put_conv_same,
  to_step, answer,
}
use tg_bale_bridge.Wizard.Keeps.{Keeps}
use tg_bale_bridge.Wizard.Apart.{IsApart}

infix 4 ◌⟶◌
-- Where one message may take a conversation.
pub data ◌⟶◌ : Step → Step → Type 0 where
  stay : {s : Step} → s ⟶ s
  fresh_menu : Step.fresh ⟶ Step.menu
  fresh_pair : Step.fresh ⟶ Step.pair_tg
  fresh_paired : Step.fresh ⟶ Step.pair_bale
  menu_pair : Step.menu ⟶ Step.pair_tg
  menu_paired : Step.menu ⟶ Step.pair_bale
  id_hash : Step.tg_api_id ⟶ Step.tg_api_hash
  hash_phone : Step.tg_api_hash ⟶ Step.tg_phone
  phone_code : Step.tg_phone ⟶ Step.tg_code
  code_password : Step.tg_code ⟶ Step.tg_password
  code_menu : Step.tg_code ⟶ Step.menu
  password_menu : Step.tg_password ⟶ Step.menu
  bale_phone_code : Step.bale_phone ⟶ Step.bale_code
  bale_code_menu : Step.bale_code ⟶ Step.menu
  token_menu : Step.bbot_token ⟶ Step.menu
  tg_bale : Step.pair_tg ⟶ Step.pair_bale
  bale_dir : Step.pair_bale ⟶ Step.pair_dir
  dir_menu : Step.pair_dir ⟶ Step.menu

unfoldable pub step_at : ℤ → Wiz → Step
step_at c w = (conv_of c w).step

pub step_at-IsApart : (c : ℤ) → IsApart (step_at c)
unfolding step_at
step_at-IsApart c = record {
  quiet = record { said_apart = λ w l. refl; asked_apart = λ w l. refl };
  cfg_apart = λ w i h. refl;
  pending_apart = λ w d. refl;
  txn_apart = λ w t. refl;
}

-- A handler that takes a conversation from the step along an edge.
pub record Moves {A : Type 0} (c : ℤ) (s : Step) (m : W A) : Type 0 where
  pub moved : (w : Wiz) → step_at c w ≡ s → s ⟶ step_at c (m w).1

module _ (c : ℤ) (s : Step) where
  kept_stay : (t : Step) → t ≡ s → s ⟶ t
  kept_stay t p = rw p stay

  pub Moves-Keeps : {A : Type 0} (m : W A) → Keeps (step_at c) m → Moves c s m
  Moves-Keeps m km = record { moved = λ w p. kept_stay _ (km.kept w ∙ p) }

  Moves-modify :
      (g : Wiz → Wiz) (t : Step) → ((w : Wiz) → step_at c (g w) ≡ t) → s ⟶ t → Moves c s (modify g)
  Moves-modify g t h e = record { moved = λ w p. rw (h w) e }

  pub Moves-if :
      {A : Type 0} (b : Bool) (m n : W A)
      → Moves c s m
      → Moves c s n
      → Moves c s (if b then m else n)
  Moves-if true m n km kn = km
  Moves-if false m n km kn = kn

  continue-moved :
      {A B : Type 0} (k : A → W B) (r : Outcome A × Wiz)
      → ((a : A) → Moves c s (k a))
      → step_at c r.1 ≡ s
      → s ⟶ step_at c (continue k r).1
  continue-moved k (ok a, w) kk p = (kk a).moved w p
  continue-moved k (raised e, w) kk p = kept_stay _ p

  -- What comes before the move.
  pub Moves-before :
      {A B : Type 0} (m : W A) (k : A → W B)
      → Keeps (step_at c) m
      → ((a : A) → Moves c s (k a))
      → Moves c s (m >>= k)
  Moves-before m k km kk = record { moved = λ w p. continue-moved k (m w) kk (km.kept w ∙ p) }

  continue-stayed :
      {A B : Type 0} (k : A → W B) (r : Outcome A × Wiz)
      → ((a : A) → Keeps (step_at c) (k a))
      → s ⟶ step_at c r.1
      → s ⟶ step_at c (continue k r).1
  continue-stayed k (ok a, w) kk e = rw ((kk a).kept w) e
  continue-stayed k (raised x, w) kk e = e

  -- What comes after it.
  pub Moves-after :
      {A B : Type 0} (m : W A) (k : A → W B)
      → Moves c s m
      → ((a : A) → Keeps (step_at c) (k a))
      → Moves c s (m >>= k)
  Moves-after m k mm kk = record { moved = λ w p. continue-stayed k (m w) kk (mm.moved w p) }

  to_step-at : (t : Step) (w : Wiz) → step_at c (to_step c t w).1 ≡ t
  unfolding step_at
  to_step-at t w = ap (λ v. v.step) (conv_at-put_conv_same c _ w.convs)

  pub Moves-to_step : (t : Step) → s ⟶ t → Moves c s (to_step c t)
  Moves-to_step t e = Moves-modify _ t (to_step-at t) e

  set_conv-at : (v : Conv) (w : Wiz) → step_at c (set_conv c v w) ≡ v.step
  unfolding step_at
  set_conv-at v w = ap (λ v. v.step) (conv_at-put_conv_same c v w.convs)

  pub Moves-set_conv : (v : Conv) → s ⟶ v.step → Moves c s (modify (set_conv c v))
  Moves-set_conv v e = Moves-modify _ v.step (set_conv-at v) e

pub Keeps-answer : (c : ℤ) (a : Answers) → Keeps (step_at c) (answer c a)
unfolding step_at
Keeps-answer c a = record { kept = λ w. ap (λ v. v.step) (conv_at-put_conv_same c _ w.convs) }

pub ruleset move_rules =
    (Moves-Keeps, Moves-if, Moves-before, Moves-after, Moves-to_step, Moves-set_conv)
