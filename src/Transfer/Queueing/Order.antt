-- ===== src/Transfer/Queueing/Order.antt =====
-- bridge/transfer/queueing.py: the order of the jobs.
use tg_bale_bridge.Prelude.{if◌then◌else◌, length, ℕ, zero, suc, ◌≡◌, refl, List, [], ◌∷◌, arith}
use tg_bale_bridge.Transfer.Types.{TgMsg, BaleMsg}
use tg_bale_bridge.Transfer.Exec.{Env, World, M}
use tg_bale_bridge.Transfer.Queueing.{Job, Bridge, tg_handler, bale_handler, tg_worker, bale_worker}

abbrev pub rounds : ℕ → (Bridge → Bridge) → Bridge → Bridge
rounds zero f b = b
rounds (suc n) f b = rounds n f (f b)

-- The handler runs on one job after the other; what it raises is forgotten.
abbrev run_all {κ} : {A : Type κ} → (A → M (Unit {0})) → List A → World → World
run_all f [] w = w
run_all f (job ∷ jobs) w = run_all f jobs (f job w).1

module _ (env : Env) where
  -- What the Telegram worker has done when it has taken every job of the queue.
  unfoldable pub drained_tg : Bridge → Bridge
  drained_tg b = record b {
    q_tg = [];
    world = if b.paused then b.world else run_all (tg_handler env) b.q_tg b.world;
  }

  drain_tg :
      (jobs : List (Job TgMsg)) (b : Bridge)
      → b.q_tg ≡ jobs
      → rounds (length jobs) (tg_worker env) b ≡ drained_tg b
  unfolding tg_worker drained_tg
  drain_tg [] b e = ground arith
  drain_tg (job ∷ jobs) b e = rw e (
      ground (
        arith,
        drain_tg jobs (record b { q_tg = jobs }) refl,
        drain_tg jobs (record b { q_tg = jobs; world = (tg_handler env job b.world).1 }) refl,
      ))

  -- As many rounds as there are jobs empty the Telegram queue; the jobs are handled in the order
  -- in which they came in, each once and an exception of one not stopping the next; a paused
  -- engine handles none of them.
  pub tg_worker-Order : (b : Bridge) → rounds (length b.q_tg) (tg_worker env) b ≡ drained_tg b
  tg_worker-Order b = drain_tg b.q_tg b refl

  -- What the Bale worker has done when it has taken every job of the queue.
  unfoldable pub drained_bale : Bridge → Bridge
  drained_bale b = record b {
    q_bale = [];
    world = if b.paused then b.world else run_all (bale_handler env) b.q_bale b.world;
  }

  drain_bale :
      (jobs : List (Job BaleMsg)) (b : Bridge)
      → b.q_bale ≡ jobs
      → rounds (length jobs) (bale_worker env) b ≡ drained_bale b
  unfolding bale_worker drained_bale
  drain_bale [] b e = ground arith
  drain_bale (job ∷ jobs) b e = rw e (
      ground (
        arith,
        drain_bale jobs (record b { q_bale = jobs }) refl,
        drain_bale jobs (record b { q_bale = jobs; world = (bale_handler env job b.world).1 }) refl,
      ))

  -- As many rounds as there are jobs empty the Bale queue. The jobs are handled in the order in which
  -- they came in, each once and an exception of one not stopping the next; a paused engine handles
  -- none of them.
  pub bale_worker-Order :
      (b : Bridge) → rounds (length b.q_bale) (bale_worker env) b ≡ drained_bale b
  bale_worker-Order b = drain_bale b.q_bale b refl
