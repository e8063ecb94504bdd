-- ===== src/Transfer/Queueing/Echo.antt =====
-- bridge/transfer: the reports of the bridge's own deletions.
use tg_bale_bridge.Prelude.{
  Text, text_eq_refl, ℕ, ◌≡◌, refl, sym, ap, ◌∙◌, true, false, [], ◌∷◌, arith,
}
use tg_bale_bridge.Prelude.Int.{ℤ}
use tg_bale_bridge.Db.{Platform, tg, bale, platform_eq}
use tg_bale_bridge.Db.MsgMap.{Counterpart}
use tg_bale_bridge.Guard.{Guard}
use tg_bale_bridge.Guard.Laws.{is_marked, same, consume_lem}
use tg_bale_bridge.Transfer.Exec.{ok, bale_delete_message, Env}
use tg_bale_bridge.Transfer.Deletes.{delete_on_bale, delete_call, delete_on_tg}
use tg_bale_bridge.Transfer.Deletes.Laws.{succeeded, silenced, delete_on_tg_lem, delete_on_bale_lem}
use tg_bale_bridge.Transfer.Queueing.{Bridge, drop_echoes, on_tg_delete, on_bale_delete}
use tg_bale_bridge.Transfer.Queueing.{tg_key}

same_refl : (p : Platform) (c : Text) (m : ℕ) → same p c m p c m ≡ true
unfolding platform_eq
same_refl tg c m = ground (arith, text_eq_refl c)
same_refl bale c m = ground (arith, text_eq_refl c)

-- A report on a marked message alone leaves nothing over, and takes the mark back.
dropped :
    (p : Platform) (c : Text) (m : ℕ) (g : Guard)
    → is_marked p c m g ≡ true
    → ((drop_echoes p c (m ∷ []) g).0 ≡ [])
      × (is_marked p c m (drop_echoes p c (m ∷ []) g).1 ≡ false)
unfolding drop_echoes
dropped p c m g h = (
  ground (arith, (consume_lem p c m g).0, h),
  (consume_lem p c m g).1 p c m ∙ ground (arith, same_refl p c m),
)

-- What a report leaves alone.
abbrev pub IsIgnored : Platform → Text → ℕ → Bridge → Bridge → Type 0
IsIgnored p c m b b' =
    (b'.q_tg ≡ b.q_tg)
    × (b'.q_bale ≡ b.q_bale)
    × (b'.world.db ≡ b.world.db)
    × (is_marked p c m b'.world.guard ≡ false)

on_bale_delete-IsIgnored :
    (c : Text) (m : ℕ) (b : Bridge)
    → is_marked bale c m b.world.guard ≡ true
    → IsIgnored bale c m b (on_bale_delete c (m ∷ []) b)
unfolding on_bale_delete
on_bale_delete-IsIgnored c m b h =
    let d = dropped bale c m b.world.guard h in rw (d.0) (refl, refl, refl, d.1)

on_tg_delete-IsIgnored :
    (chat : ℤ) (m : ℕ) (b : Bridge)
    → is_marked tg (tg_key chat) m b.world.guard ≡ true
    → IsIgnored tg (tg_key chat) m b (on_tg_delete chat (m ∷ []) b)
unfolding on_tg_delete
on_tg_delete-IsIgnored chat m b h =
    let d = dropped tg (tg_key chat) m b.world.guard h in rw (d.0) (refl, refl, refl, d.1)

module _ (env : Env) (o : Counterpart) (b : Bridge) where
  -- The bridge once it has deleted the copy in Bale, and in Telegram.
  abbrev pub without_bale_copy : Bridge
  without_bale_copy = record b { world = (delete_on_bale env o b.world).1 }

  abbrev pub without_tg_copy : Bridge
  without_tg_copy = record b { world = (delete_on_tg env o b.world).1 }

  -- If Bale accepts the deletion of a copy and the client reports deletions, the report of this
  -- deletion changes neither a queue nor the database, and takes the mark of the copy back.
  pub delete_on_bale_echo :
      env.act b.world.trace (bale_delete_message o.chat o.msg) ≡ ok tt
      → env.has_delete_events ≡ true
      → IsIgnored bale o.chat o.msg without_bale_copy
          (on_bale_delete o.chat (o.msg ∷ []) without_bale_copy)
  delete_on_bale_echo ha hd =
      let out = rw ha at (delete_on_bale_lem env o b.world) in
      on_bale_delete-IsIgnored o.chat o.msg without_bale_copy (out.2 ∙ ground (arith, hd))

  -- If Telegram deletes a copy in a chat, the report of this deletion changes neither a queue
  -- nor the database, and takes the mark of the copy back.
  pub delete_on_tg_echo :
      (chat : ℤ)
      → o.chat ≡ tg_key chat
      → (delete_call env o (silenced env o b.world)).0 ≡ ok tt
      → IsIgnored tg
          (tg_key chat)
          o.msg
          without_tg_copy
          (on_tg_delete chat (o.msg ∷ []) without_tg_copy)
  delete_on_tg_echo chat hk hd =
      let out = delete_on_tg_lem env o b.world in
      on_tg_delete-IsIgnored chat o.msg without_tg_copy (
        ap (λ c. is_marked tg c o.msg without_tg_copy.world.guard) (sym hk)
        ∙ (out.2 ∙ ap succeeded hd))
