-- ===== src/Wizard/Diagram.antt =====
-- bridge/wizard/facade.py, bridge/wizard/pairing.py: where a message takes a conversation.
use tg_bale_bridge.Prelude.{Text, ℕ, refl, Bool, true, false, Option, none, some}
use tg_bale_bridge.Prelude.Int.{ℤ}
use tg_bale_bridge.Db.{Database}
use tg_bale_bridge.RunCfg.{Value}
use tg_bale_bridge.Wizard.{Step, ChatInfo, Answers, Outside}
use tg_bale_bridge.Wizard.Keeps.{Keeps, IsQuiet, keep_rules}
use tg_bale_bridge.Wizard.Apart.{ready_client-Keeps, api_for_setup-Keeps}
use tg_bale_bridge.Wizard.Edges.{step_at, step_at-IsApart, Moves, Keeps-answer, move_rules}
use tg_bale_bridge.Wizard.Edges.{
  ◌⟶◌, stay, fresh_menu, fresh_pair, fresh_paired, menu_pair, menu_paired, id_hash, hash_phone,
  phone_code, code_password, code_menu, password_menu, bale_phone_code, bale_code_menu, token_menu,
  tg_bale, bale_dir, dir_menu,
}
use tg_bale_bridge.Wizard.Login.{store, ready_client, api_for_setup}
use tg_bale_bridge.Wizard.Pairing.{
  Forwarded, forward_chat_info, keep_tg, found_tg, look_up_tg, tg_resolve_with, tg_resolve,
  keep_bale, found_bale, look_up_bale, bale_resolve,
}
use tg_bale_bridge.Wizard.Conversation.{
  open_menu, with_answers, api_id_given, store_api, api_hash_given,
}

module _ (dumps : Value → Text) (loads : Text → Option Value) (env : Outside) where
  pub step_at-IsQuiet : (c : ℤ) → IsQuiet (step_at c)
  step_at-IsQuiet c = (step_at-IsApart c).quiet

  pub Keeps-store : (c : ℤ) (f : Database → Database) → Keeps (step_at c) (store dumps loads env f)
  unfolding step_at
  Keeps-store c f = record { kept = λ w. refl }

  pub Keeps-with_answers :
      (c : ℤ) (f : Answers → Answers) → Keeps (step_at c) (with_answers dumps loads env c f)
  Keeps-with_answers c f = search (keep_rules, Keeps-answer)

  pub ruleset step_rules =
      (keep_rules, move_rules, step_at-IsQuiet, step_at-IsApart, Keeps-store, Keeps-with_answers)

  pub open_menu-Moves : (c : ℤ) (s : Step) → s ⟶ Step.menu → Moves c s (open_menu dumps loads env c)
  unfolding open_menu
  open_menu-Moves c s e = search (step_rules) depth 8

  keep_tg-Moves :
      (c : ℤ) (s : Step) (i : ChatInfo)
      → s ⟶ Step.pair_bale
      → Moves c s (keep_tg dumps loads env c i)
  keep_tg-Moves c s i e = search (step_rules) depth 8

  found_tg-Moves :
      (c : ℤ) (s : Step) (o : Option ChatInfo)
      → s ⟶ Step.pair_bale
      → Moves c s (found_tg dumps loads env c o)
  found_tg-Moves c s none e = search (step_rules) depth 8
  found_tg-Moves c s (some i) e = keep_tg-Moves c s i e

  ready_client-step : (c : ℤ) → Keeps (step_at c) (ready_client dumps loads env)
  ready_client-step c = ready_client-Keeps (step_at c) (step_at-IsApart c) dumps loads env

  api-step : (c : ℤ) → Keeps (step_at c) (api_for_setup dumps loads env)
  api-step c = api_for_setup-Keeps (step_at c) (step_at-IsApart c) dumps loads env

  look_up_tg-Moves :
      (c : ℤ) (s : Step) (t : Text) (b : Bool)
      → s ⟶ Step.pair_bale
      → Moves c s (look_up_tg dumps loads env c t b)
  look_up_tg-Moves c s t false e = search (step_rules) depth 8
  look_up_tg-Moves c s t true e = search (step_rules, found_tg-Moves) depth 8

  tg_resolve_with-Moves :
      (c : ℤ) (s : Step) (t : Text) (o : Option ChatInfo)
      → s ⟶ Step.pair_bale
      → Moves c s (tg_resolve_with dumps loads env c t o)
  tg_resolve_with-Moves c s t (some i) e = keep_tg-Moves c s i e
  tg_resolve_with-Moves c s t none e = search (move_rules, ready_client-step, look_up_tg-Moves)

  pub tg_resolve-Moves :
      (c : ℤ) (s : Step) (t : Text) (f : Forwarded)
      → s ⟶ Step.pair_bale
      → Moves c s (tg_resolve dumps loads env c t f)
  unfolding tg_resolve
  tg_resolve-Moves c s t f e = tg_resolve_with-Moves c s t (forward_chat_info f) e

  keep_bale-Moves : (c : ℤ) (i : ChatInfo) → Moves c Step.pair_bale (keep_bale dumps loads env c i)
  keep_bale-Moves c i = search (step_rules, bale_dir) depth 8

  found_bale-Moves :
      (c : ℤ) (o : Option ChatInfo) → Moves c Step.pair_bale (found_bale dumps loads env c o)
  found_bale-Moves c none = search (step_rules) depth 8
  found_bale-Moves c (some i) = keep_bale-Moves c i

  look_up_bale-Moves :
      (c : ℤ) (t : Text) (b : Bool) → Moves c Step.pair_bale (look_up_bale dumps loads env c t b)
  look_up_bale-Moves c t false = search (step_rules) depth 8
  look_up_bale-Moves c t true = search (step_rules, found_bale-Moves) depth 8

  pub bale_resolve-Moves :
      (c : ℤ) (t : Text) → Moves c Step.pair_bale (bale_resolve dumps loads env c t)
  unfolding bale_resolve
  bale_resolve-Moves c t = search (move_rules, api-step, look_up_bale-Moves)

  pub api_id_given-Moves :
      (c : ℤ) (o : Option ℕ) → Moves c Step.tg_api_id (api_id_given dumps loads env c o)
  unfolding api_id_given
  api_id_given-Moves c none = search (step_rules) depth 8
  api_id_given-Moves c (some n) = search (step_rules, id_hash) depth 8

  store_api-Moves :
      (c : ℤ) (t : Text) (o : Option ℕ) → Moves c Step.tg_api_hash (store_api dumps loads env c t o)
  store_api-Moves c t none = search (step_rules) depth 8
  store_api-Moves c t (some n) = search (step_rules, hash_phone) depth 8

  pub api_hash_given-Moves :
      (c : ℤ) (t : Text) → Moves c Step.tg_api_hash (api_hash_given dumps loads env c t)
  unfolding api_hash_given
  api_hash_given-Moves c t = search (step_rules, store_api-Moves) depth 8
