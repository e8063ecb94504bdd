-- ===== src/Wizard/Pairing.antt =====
-- bridge/wizard/pairing.py (without the forms of a reference, which the services read), types_map.py
-- and finish.py.
use tg_bale_bridge.Prelude.{
  ◌==◌, if◌then◌else◌, any, Text, codes, is_space, strip, ℕ, Bool, true, false, ◌||◌, Option, none,
  some, [], ◌∷◌, ◌++◌,
}
use tg_bale_bridge.Prelude.Int.{ℤ, pos, str_int, int_eq}
use tg_bale_bridge.Db.{Mode, Database}
use tg_bale_bridge.Db.Pairs.{add_pair}
use tg_bale_bridge.RunCfg.{Value, number, set_json}
use tg_bale_bridge.Wizard.{
  Step, ChatInfo, no_answers, pair_first_step, need_tg_self, tg_not_found, pair_second_step,
  need_bale, bale_not_found, choose_direction, pair_incomplete, access_report, install_incomplete,
  restarting_notice, pair_stored, get_entity, get_chat, Outside, Wiz, W, pure, ◌>>=◌, ◌>>◌, or_else,
  modify, gets, ask, say, conv_of, is_there, set_conv, to_step,
}
use tg_bale_bridge.Wizard.Login.{store, installed, ready_client, api_for_setup}

-- What a message says of its origin: "forward_from_chat", and the chat of a "forward_origin" of the
-- type "chat". The identifier 0 stands for one that is not there.
pub record Forwarded : Type 0 where
  pub from_chat : Option ChatInfo
  pub origin_chat : Option ChatInfo

abbrev pub not_forwarded : Forwarded
not_forwarded = record { from_chat = none; origin_chat = none }

abbrev with_id : Option ChatInfo → Option ChatInfo
with_id none = none
with_id (some i) = if int_eq i.id (pos 0) then none else some i

abbrev first_chat : Option ChatInfo → Option ChatInfo → Option ChatInfo
first_chat none origin = origin
first_chat (some i) origin = some i

pub forward_chat_info : Forwarded → Option ChatInfo
forward_chat_info f = with_id (first_chat f.from_chat f.origin_chat)

pub is_forwarded : Forwarded → Bool
is_forwarded f = is_there f.from_chat || is_there f.origin_chat

-- The part of `text.split()` behind the last space; the text has no space at its end.
abbrev last_word_onto : Text → Text → Text
last_word_onto w [] = w
last_word_onto w (c ∷ cs) =
    if is_space c then last_word_onto [] cs else last_word_onto (w ++ c ∷ []) cs

pub extract_token : Text → Text
extract_token text = let t = strip text in if any (λ c. c == b':') t then last_word_onto [] t else t

module _ (dumps : Value → Text) (loads : Text → Option Value) (env : Outside) where
  unfoldable pub begin : ℤ → W (Unit {0})
  begin c = do
    modify (set_conv c (record { step = Step.pair_tg; answers = no_answers }))
    say c pair_first_step

  abbrev pub keep_tg : ℤ → ChatInfo → W (Unit {0})
  keep_tg c i = do
    v ← gets (conv_of c)
    (let a = v.answers in
        modify (set_conv c (record { step = Step.pair_bale; answers = record a { tg = some i } })))
    say c pair_second_step

  abbrev pub found_tg : ℤ → Option ChatInfo → W (Unit {0})
  found_tg c none = say c tg_not_found
  found_tg c (some i) = keep_tg c i

  abbrev pub look_up_tg : ℤ → Text → Bool → W (Unit {0})
  look_up_tg c text false = say c need_tg_self
  look_up_tg c text true = do
    e ← or_else none (ask env.entity (get_entity text) >>= λ i. pure (some i))
    found_tg c e

  abbrev pub tg_resolve_with : ℤ → Text → Option ChatInfo → W (Unit {0})
  tg_resolve_with c text (some i) = keep_tg c i
  tg_resolve_with c text none = do client ← ready_client dumps loads env; look_up_tg c text client

  unfoldable pub tg_resolve : ℤ → Text → Forwarded → W (Unit {0})
  unfolding forward_chat_info
  tg_resolve c text f = tg_resolve_with c text (forward_chat_info f)

  abbrev pub keep_bale : ℤ → ChatInfo → W (Unit {0})
  keep_bale c i = do
    v ← gets (conv_of c)
    (let a = v.answers in
        modify (set_conv c (record { step = Step.pair_dir; answers = record a { bale = some i } })))
    say c choose_direction

  abbrev pub found_bale : ℤ → Option ChatInfo → W (Unit {0})
  found_bale c none = say c bale_not_found
  found_bale c (some i) = keep_bale c i

  abbrev pub look_up_bale : ℤ → Text → Bool → W (Unit {0})
  look_up_bale c text false = say c need_bale
  look_up_bale c text true = do
    e ← or_else none (ask env.chat (get_chat text) >>= λ i. pure (some i))
    found_bale c e

  unfoldable pub bale_resolve : ℤ → Text → W (Unit {0})
  bale_resolve c text = do api ← api_for_setup dumps loads env; look_up_bale c text api

  unfoldable pub incomplete : ℤ → W (Unit {0})
  incomplete c = do say c pair_incomplete; to_step c Step.menu

  -- The direction is stored as it comes.
  abbrev pub add_chosen : ChatInfo → ChatInfo → Mode → Wiz → ℕ × Database
  add_chosen t b mode w =
      add_pair t.id t.title t.username (str_int b.id) b.title b.username mode w.db

  unfoldable pub store_pair : ℤ → ChatInfo → ChatInfo → Mode → W (Unit {0})
  store_pair c t b mode = do
    p ← gets (add_chosen t b mode)
    modify (λ w. record w { db = p.1 })
    to_step c Step.menu
    say c (pair_stored p.0)
    say c access_report

  abbrev pub finish_with : ℤ → Mode → Option ChatInfo → Option ChatInfo → W (Unit {0})
  finish_with c mode (some t) (some b) = store_pair c t b mode
  finish_with c mode (some t) none = incomplete c
  finish_with c mode none b = incomplete c

  unfoldable pub finish_pair : ℤ → Mode → W (Unit {0})
  unfolding store_pair incomplete
  finish_pair c mode = do v ← gets (conv_of c); finish_with c mode v.answers.tg v.answers.bale

  -- finish.py: the restart itself is seen by `restarting`.
  unfoldable pub finish_install : ℤ → W (Unit {0})
  finish_install c = do
    time ← gets (λ w. env.now w.asked)
    store dumps loads env (set_json dumps loads (codes "install_done_at") (number (pos time)))
    done ← gets (installed dumps loads env)
    (if done
        then (do say c restarting_notice; modify (λ w. record w { restarting = true }))
        else say c install_incomplete)
