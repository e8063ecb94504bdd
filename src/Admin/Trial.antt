-- ===== src/Admin/Trial.antt =====
-- bridge/admin/control_cmds.py: the test message of a pair.
use tg_bale_bridge.Prelude.{if◌then◌else◌, Text, ℕ, Bool, true, false, none, List, [], ◌∷◌, ◌++◌}
use tg_bale_bridge.Prelude.Int.{str_nat, str_int}
use tg_bale_bridge.Db.{Platform, tg, bale, PairRow}
use tg_bale_bridge.Db.Pairs.{sends_tg, sends_bale}
use tg_bale_bridge.Db.LoopCache.{mark_sent}
use tg_bale_bridge.Transfer.Exec.{
  bale_send_message, tg_send_message, Env, M, pure, ◌>>=◌, ◌>>◌, try_catch, ask, change_db, clock,
  skip,
}
use tg_bale_bridge.Transfer.MirrorB2t.{resolve}

-- The text before the number of the pair, by its code points.
abbrev pub test_text : ℕ → Text
test_text n =
    (9989 ∷ 32 ∷ 1578 ∷ 1587 ∷ 1578 ∷ 32 ∷ 1662 ∷ 1604 ∷ 32 ∷ 1607 ∷ 1605 ∷ 1711 ∷ 1575 ∷ 1605
      ∷ 8204 ∷ 1587 ∷ 1575 ∷ 1586 ∷ 1740 ∷ 32 ∷ 8212 ∷ 32 ∷ 1580 ∷ 1601 ∷ 1578 ∷ 32 ∷ 35 ∷ [])
    ++ str_nat n

module _ (env : Env) where
  abbrev sent_or_not : M (Unit {0}) → M Bool
  sent_or_not m = try_catch (m >> pure true) (λ _. pure false)

  try_bale : PairRow → M Bool
  try_bale r =
      sent_or_not
        (do _ ← ask env.send (bale_send_message r.bale_chat_id (test_text r.id) none); skip)

  -- The message is recorded as the bridge's own, so it does not come back.
  unfoldable pub try_tg : PairRow → M Bool
  try_tg r = sent_or_not (do
    resolve env r.tg_chat_id
    id ← ask env.send (tg_send_message r.tg_chat_id (test_text r.id) [] none)
    now ← clock env
    change_db (mark_sent now tg (str_int r.tg_chat_id) id))

  abbrev report_if : Bool → Platform → M Bool → M (List (Platform × Bool))
  report_if b p m = if b then (do done ← m; pure ((p, done) ∷ [])) else pure []

  pub test_pair : PairRow → M (List (Platform × Bool))
  unfolding try_bale try_tg
  test_pair r = do
    a ← report_if (sends_tg r.mode) bale (try_bale r)
    b ← report_if (sends_bale r.mode) tg (try_tg r)
    pure (a ++ b)
