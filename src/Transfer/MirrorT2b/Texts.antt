-- ===== src/Transfer/MirrorT2b/Texts.antt =====
-- bridge/transfer/mirror_t2b.py: what a text sent to Bale becomes.
use tg_bale_bridge.Prelude.{
  length, All, concat, Text, ℕ, ◌<◌, ◌≡◌, refl, Option, none, List, [], ◌∷◌, arith,
}
use tg_bale_bridge.Transfer.Exec.{Outcome, ok, Call, bale_send_message, Env, World}
use tg_bale_bridge.Transfer.MirrorT2b.{send_chunks, send_text}
use tg_bale_bridge.Textfmt.Splitting.Laws.{split_text_lem}
use tg_bale_bridge.Textfmt.Splitting.Pieces.{Fits}

-- The calls that send the chunks of a text: the first is the reply.
abbrev pub chunk_calls : Text → Option ℕ → List Text → List Call
chunk_calls dst reply_to [] = []
chunk_calls dst reply_to (c ∷ cs) = bale_send_message dst c reply_to ∷ chunk_calls dst none cs

-- The calls made, put onto the trace.
abbrev logged : List Call → List Call → List Call
logged [] trace = trace
logged (c ∷ cs) trace = logged cs (c ∷ trace)

-- Bale takes every message.
abbrev pub TakesAll : Env → Type 0
TakesAll env = (t : List Call) (c : Call) → (i : ℕ) × (env.send t c ≡ ok i)

-- A run that ends well, with as many messages as there were calls, and those calls in the trace.
abbrev pub Sent : Outcome (List ℕ) × World → World → List Call → Type 0
Sent r w calls =
    (ids : List ℕ) × (r ≡ (ok ids, record w { trace = logged calls w.trace }))
    × (length ids ≡ length calls)

module _ (env : Env) (takes : TakesAll env) where
  send_chunks-Sent :
      (dst : Text) (reply_to : Option ℕ) (parts : List Text) (w : World)
      → Sent (send_chunks env dst reply_to parts w) w (chunk_calls dst reply_to parts)
  unfolding send_chunks
  send_chunks-Sent dst reply_to [] w = ([], refl, refl)
  send_chunks-Sent dst reply_to (c ∷ cs) w =
      let call = bale_send_message dst c reply_to in
      let (i, e) = takes w.trace call in
      let (ids, run, n) = send_chunks-Sent dst none cs (record w { trace = call ∷ w.trace }) in
      (i ∷ ids, rw (e, run) refl, ground arith)

  -- If the limit is positive and Bale takes every message, a text is sent completely: one
  -- message per chunk, in order, only the first a reply, each within the limit, and together the
  -- text.
  pub send_text-Sent :
      (dst : Text) (reply_to : Option ℕ) (full : Text) (w : World)
      → 0 < env.cfg.limit_text
      → (parts : List Text) × (concat parts ≡ full)
        × All (Fits env.cfg.limit_text) parts
        × Sent (send_text env dst reply_to full w) w (chunk_calls dst reply_to parts)
  unfolding send_text
  send_text-Sent dst reply_to full w p =
      let (parts, e, whole, fit) = split_text_lem full env.cfg.limit_text p in
      (parts, whole, fit, rw e (send_chunks-Sent dst reply_to parts w))
