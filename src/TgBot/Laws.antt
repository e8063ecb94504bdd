-- ===== src/TgBot/Laws.antt =====
-- bridge/tgbot: the owner of the bot, and where an update goes.
use tg_bale_bridge.Prelude.{
  Option-cases, Text, strip, ℕ, ◌≡◌, refl, ◌∙◌, inl, inr, Bool, true, false, some, List, [], ◌∷◌,
  arith,
}
use tg_bale_bridge.Prelude.Int.{ℤ}
use tg_bale_bridge.TgBot.{
  Message, Update, Effect, save_offset, send_locked, panel_handle, Bot, is_zero, do_effect,
  is_start, is_admin, claim_admin, applicable, handle_claim, send_answer, to_panel, after_claim,
  on_private, on_update,
}

module _ (is_active : List Effect → ℤ → Bool) (answer : List Effect → Message → Text) where
  abbrev SameOwner : Bot → Bot → Type 0
  SameOwner s s' = (s'.admin_tg_id ≡ s.admin_tg_id) × (s'.stored_admin ≡ s.stored_admin)

  -- After an update, or after a run of them.
  abbrev pub updates : List (Update × ℕ) → Bot → Bot
  updates [] s = s
  updates ((u, n) ∷ us) s = updates us (on_update is_active answer u n s)

  send_answer-owner :
      (m : Message) (t : Text) (s : Bot) → SameOwner s (send_answer is_active answer m t s)
  send_answer-owner m [] s = (refl, refl)
  send_answer-owner m (c ∷ cs) s = (refl, refl)

  to_panel-owner : (m : Message) (s : Bot) → SameOwner s (to_panel is_active answer m s)
  to_panel-owner m s = ground (
    arith,
    send_answer-owner m (answer s.effects m) (do_effect (panel_handle m.chat_id m.uid m.text) s),
  )

  after_claim-owner : (m : Message) (s : Bot) → SameOwner s (after_claim is_active answer m s)
  unfolding after_claim
  after_claim-owner m s = ground (arith, to_panel-owner m s)

  on_private-owner :
      (m : Message) (s : Bot)
      → is_zero s.admin_tg_id ≡ false
      → SameOwner s (on_private is_active answer m s)
  unfolding on_private handle_claim applicable
  on_private-owner m s h = ground (arith, after_claim-owner m s)

  on_update-owner :
      (u : Update) (n : ℕ) (s : Bot)
      → is_zero s.admin_tg_id ≡ false
      → SameOwner s (on_update is_active answer u n s)
  unfolding on_update
  on_update-owner u n s h = elim (Option-cases u.message) [
    | inl e ↦ ground arith
    | inr (m, e) ↦ ground (arith, on_private-owner m (do_effect (save_offset n) s))
  ]

  -- Once the bot has an owner, no update, of whomever and in whatever order, changes the owner
  -- in the configuration or in the store.
  pub updates-owner :
      (us : List (Update × ℕ)) (s : Bot)
      → is_zero s.admin_tg_id ≡ false
      → ((updates us s).admin_tg_id ≡ s.admin_tg_id)
        × ((updates us s).stored_admin ≡ s.stored_admin)
  updates-owner [] s h = (refl, refl)
  updates-owner ((u, n) ∷ us) s h =
      let (a, b) = on_update-owner u n s h in
      let (a', b') = updates-owner us (on_update is_active answer u n s) (rw a h) in
      (a' ∙ a, b' ∙ b)

  -- A message in a group or a channel does nothing but move the offset, whoever sends it.
  on_update_public :
      (m : Message) (offset : ℕ) (s : Bot)
      → m.private_chat ≡ false
      → on_update is_active answer (record { callback_query = false; message = some m }) offset s
        ≡ do_effect (save_offset offset) s
  unfolding on_update
  on_update_public m offset s h = ground arith

  -- While neither the configuration nor the store, which is there, has an administrator, a start
  -- text in a private chat makes its sender the owner in both.
  on_private_claim :
      (m : Message) (uid : ℤ) (s : Bot)
      → is_zero s.admin_tg_id ≡ true
      → is_zero s.stored_admin ≡ true
      → s.has_store ≡ true
      → m.uid ≡ some uid
      → is_start (strip m.text) ≡ true
      → ((on_private is_active answer m s).admin_tg_id ≡ uid)
        × ((on_private is_active answer m s).stored_admin ≡ uid)
  unfolding on_private handle_claim applicable claim_admin
  on_private_claim m uid s h h' k e t = ground arith

  -- A start text of anybody else than the owner is answered by the refusal alone.
  on_private_refused :
      (m : Message) (s : Bot)
      → is_zero s.admin_tg_id ≡ false
      → is_admin m.uid s ≡ false
      → is_start (strip m.text) ≡ true
      → on_private is_active answer m s ≡ do_effect (send_locked m.chat_id) s
  unfolding on_private handle_claim applicable after_claim
  on_private_refused m s h k t = ground arith
