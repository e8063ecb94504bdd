-- ===== src/Transfer/Deletes/Laws.antt =====
-- bridge/transfer/sync_delete.py: what a deletion does on every answer of the platforms.
use tg_bale_bridge.Prelude.{==_refl, text_eq_refl, ◌≡◌, refl, Bool, true, false, ◌||◌, arith}
use tg_bale_bridge.Db.{Platform, tg, bale, platform_eq}
use tg_bale_bridge.Db.MsgMap.{Counterpart, remove_map_row}
use tg_bale_bridge.Guard.{Guard, suppress, release}
use tg_bale_bridge.Transfer.Exec.{
  bot_api_error, type_error, value_error, other_error, Outcome, ok, raised, bale_delete_message,
  Env, World,
}
use tg_bale_bridge.Guard.Laws.{is_marked, is_marked-suppress, is_marked-release}
use tg_bale_bridge.Transfer.Deletes.{delete_on_bale, delete_call, delete_on_tg}

abbrev pub succeeded : {A : Type 0} → Outcome A → Bool
succeeded (ok a) = true
succeeded (raised e) = false

abbrev pub marked : Platform → Counterpart → World → Bool
marked p o w = is_marked p o.chat o.msg w.guard

own_mark :
    (p : Platform) (o : Counterpart) (g : Guard)
    → is_marked p o.chat o.msg (suppress p o.chat o.msg g) ≡ true
unfolding platform_eq
own_mark tg o g = ground (
  arith,
  is_marked-suppress tg o.chat o.msg tg o.chat o.msg g,
  text_eq_refl o.chat,
  ==_refl o.msg,
)
own_mark bale o g = ground (
  arith,
  is_marked-suppress bale o.chat o.msg bale o.chat o.msg g,
  text_eq_refl o.chat,
  ==_refl o.msg,
)

no_mark :
    (p : Platform) (o : Counterpart) (g : Guard)
    → is_marked p o.chat o.msg (release p o.chat o.msg g) ≡ false
unfolding platform_eq
no_mark tg o g =
    ground (
      arith,
      is_marked-release tg o.chat o.msg tg o.chat o.msg g,
      text_eq_refl o.chat,
      ==_refl o.msg,
    )
no_mark bale o g = ground (
  arith,
  is_marked-release bale o.chat o.msg bale o.chat o.msg g,
  text_eq_refl o.chat,
  ==_refl o.msg,
)

module _ (env : Env) (o : Counterpart) (w : World) where
  -- The world in which Telegram is asked to delete.
  abbrev pub silenced : World
  silenced = record w { guard = suppress tg o.chat o.msg w.guard }

  -- Deleting a copy in Telegram never raises and always removes its row from the map; the copy
  -- stays marked exactly if Telegram deleted it.
  pub delete_on_tg_lem :
      ((delete_on_tg env o w).0 ≡ ok tt)
      × ((delete_on_tg env o w).1.db ≡ remove_map_row o.row_id w.db)
      × (marked tg o (delete_on_tg env o w).1 ≡ succeeded (delete_call env o silenced).0)
  unfolding delete_on_tg
  delete_on_tg_lem =
      ground (arith, own_mark tg o w.guard, no_mark tg o (suppress tg o.chat o.msg w.guard))

  -- What has become of a deletion in Bale, by the answer of the client.
  abbrev pub BaleOutcome : Outcome (Unit {0}) → Outcome (Unit {0}) × World → Type 0
  BaleOutcome (ok a) r =
      (r.0 ≡ ok tt)
      × (r.1.db ≡ remove_map_row o.row_id w.db)
      × (marked bale o r.1 ≡ (env.has_delete_events || marked bale o w))
  BaleOutcome (raised bot_api_error) r =
      (r.0 ≡ ok tt) × (r.1.db ≡ remove_map_row o.row_id w.db) × (marked bale o r.1 ≡ false)
  BaleOutcome (raised type_error) r =
      (r.0 ≡ raised type_error)
      × (r.1.db ≡ w.db)
      × (marked bale o r.1 ≡ (env.has_delete_events || marked bale o w))
  BaleOutcome (raised value_error) r =
      (r.0 ≡ raised value_error)
      × (r.1.db ≡ w.db)
      × (marked bale o r.1 ≡ (env.has_delete_events || marked bale o w))
  BaleOutcome (raised other_error) r =
      (r.0 ≡ raised other_error)
      × (r.1.db ≡ w.db)
      × (marked bale o r.1 ≡ (env.has_delete_events || marked bale o w))

  outcome_of :
      (a : Outcome (Unit {0}))
      → env.act w.trace (bale_delete_message o.chat o.msg) ≡ a
      → BaleOutcome a (delete_on_bale env o w)
  unfolding delete_on_bale
  outcome_of (ok a) e = ground (arith, own_mark bale o w.guard)
  outcome_of (raised bot_api_error) e =
      ground (arith, no_mark bale o w.guard, no_mark bale o (suppress bale o.chat o.msg w.guard))
  outcome_of (raised type_error) e = ground (arith, own_mark bale o w.guard)
  outcome_of (raised value_error) e = ground (arith, own_mark bale o w.guard)
  outcome_of (raised other_error) e = ground (arith, own_mark bale o w.guard)

  -- Deleting a copy in Bale: on acceptance or a BotAPIError the row leaves the map; in the first
  -- case the copy is marked if it was before or if the client reports deletions, in the second
  -- it is not; any other exception is passed on and leaves the row, and the copy is then marked
  -- if it was before or if the client reports deletions.
  pub delete_on_bale_lem :
      BaleOutcome (env.act w.trace (bale_delete_message o.chat o.msg)) (delete_on_bale env o w)
  delete_on_bale_lem = outcome_of _ refl
