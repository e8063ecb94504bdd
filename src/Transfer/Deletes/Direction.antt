-- ===== src/Transfer/Deletes/Direction.antt =====
-- bridge/transfer/sync_delete.py and sync_edit.py: pairs with one direction.
use tg_bale_bridge.Prelude.{
  ◌==◌, Bool-cases, Option-cases, find, All, Text, ℕ, ◌≡◌, refl, subst, inl, inr, Bool, false, some,
  List, [], ◌∷◌, arith,
}
use tg_bale_bridge.Db.{PairRow, Database}
use tg_bale_bridge.Db.Pairs.{get_pair}
use tg_bale_bridge.Db.MsgMap.{Counterpart}
use tg_bale_bridge.Transfer.Types.{TgMsg}
use tg_bale_bridge.Transfer.Exec.{ok, Env, World, M, for_each}
use tg_bale_bridge.Transfer.Edits.{takes_tg, takes_bale, tg_edit_one, process_tg_edit}
use tg_bale_bridge.Transfer.Deletes.{
  tg_delete_one, tg_delete_message_copies, process_tg_delete, bale_delete_one,
  bale_delete_message_copies, process_bale_delete,
}

some_found : {R : Type 0} (x r : R) → some x ≡ some r → x ≡ r
some_found x r e = cc

find-All {κ} :
    {R : Type 0} (P : R → Type κ) (p : R → Bool) (rs : List R) (r : R)
    → All P rs
    → find p rs ≡ some r
    → P r
find-All P p [] r h e = cc
find-All P p (x ∷ xs) r h e = elim (Bool-cases (p x)) [
  | inl t ↦ subst P (some_found x r (rw t at e)) h.0
  | inr f ↦ find-All P p xs r h.1 (rw f at e)
]

for_each_idle :
    {A : Type 0} (f : A → M (Unit {0})) (xs : List A) (w : World)
    → ((a : A) → f a w ≡ (ok tt, w))
    → for_each f xs w ≡ (ok tt, w)
unfolding for_each
for_each_idle f [] w h = refl
for_each_idle f (x ∷ xs) w h = rw (h x) (for_each_idle f xs w h)

-- No pair has a mode that passes on what happens in Telegram, or in Bale.
abbrev NoneTakesTg : Database → Type 0
NoneTakesTg db = All (λ (r : PairRow). takes_tg r.mode ≡ false) db.pairs.rows

abbrev NoneTakesBale : Database → Type 0
NoneTakesBale db = All (λ (r : PairRow). takes_bale r.mode ≡ false) db.pairs.rows

module _ (env : Env) (w : World) where
  tg_delete_one_idle : NoneTakesTg w.db → (o : Counterpart) → tg_delete_one env o w ≡ (ok tt, w)
  unfolding tg_delete_one get_pair
  tg_delete_one_idle h o = elim (Option-cases (find (λ r. r.id == o.pair_id) w.db.pairs.rows)) [
    | inl e ↦ ground arith
    | inr (r, e) ↦
        let closed' = find-All (λ (r : PairRow). takes_tg r.mode ≡ false) _ w.db.pairs.rows r h e in
        ground arith
  ]

  copies_idle :
      NoneTakesTg w.db
      → (chat : Text) (mid : ℕ) → tg_delete_message_copies env chat mid w ≡ (ok tt, w)
  unfolding tg_delete_message_copies
  copies_idle h chat mid = for_each_idle (tg_delete_one env) _ w (tg_delete_one_idle h)

  -- Where every pair is one-way from Bale, a deletion in Telegram calls no client and changes
  -- nothing, whatever the map holds.
  process_tg_delete_one_way :
      NoneTakesTg w.db
      → (chat : Text) (ids : List ℕ) → process_tg_delete env chat ids w ≡ (ok tt, w)
  unfolding process_tg_delete
  process_tg_delete_one_way h chat ids =
      for_each_idle (tg_delete_message_copies env chat) ids w (copies_idle h chat)

  bale_delete_one_idle :
      NoneTakesBale w.db → (o : Counterpart) → bale_delete_one env o w ≡ (ok tt, w)
  unfolding bale_delete_one get_pair
  bale_delete_one_idle h o = elim (Option-cases (find (λ r. r.id == o.pair_id) w.db.pairs.rows)) [
    | inl e ↦ ground arith
    | inr (r, e) ↦
        let closed' =
          find-All (λ (r : PairRow). takes_bale r.mode ≡ false) _ w.db.pairs.rows r h e in
        ground arith
  ]

  bale_copies_idle :
      NoneTakesBale w.db
      → (chat : Text) (mid : ℕ) → bale_delete_message_copies env chat mid w ≡ (ok tt, w)
  unfolding bale_delete_message_copies
  bale_copies_idle h chat mid = for_each_idle (bale_delete_one env) _ w (bale_delete_one_idle h)

  -- Where every pair is one-way from Telegram, a deletion in Bale calls no client and changes
  -- nothing, whatever the map holds.
  process_bale_delete_one_way :
      NoneTakesBale w.db
      → (chat : Text) (ids : List ℕ) → process_bale_delete env chat ids w ≡ (ok tt, w)
  unfolding process_bale_delete
  process_bale_delete_one_way h chat ids =
      for_each_idle (bale_delete_message_copies env chat) ids w (bale_copies_idle h chat)

  tg_edit_one_idle :
      NoneTakesTg w.db → (msg : TgMsg) (o : Counterpart) → tg_edit_one env msg o w ≡ (ok tt, w)
  unfolding tg_edit_one get_pair
  tg_edit_one_idle h msg o = elim (Option-cases (find (λ r. r.id == o.pair_id) w.db.pairs.rows)) [
    | inl e ↦ ground arith
    | inr (r, e) ↦
        let closed' = find-All (λ (r : PairRow). takes_tg r.mode ≡ false) _ w.db.pairs.rows r h e in
        ground arith
  ]

  -- Where every pair is one-way from Bale, an edit in Telegram calls no client and changes nothing.
  process_tg_edit_one_way :
      NoneTakesTg w.db → (msg : TgMsg) → process_tg_edit env msg w ≡ (ok tt, w)
  unfolding process_tg_edit
  process_tg_edit_one_way h msg = for_each_idle (tg_edit_one env msg) _ w (tg_edit_one_idle h msg)
