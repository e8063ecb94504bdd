-- ===== src/StartUp/Laws.antt =====
-- bridge/runtime: how the program starts.
use tg_bale_bridge.Prelude.{
  if◌then◌else◌, null, Text, codes, text_eq, ℕ, ◌+◌, ◌≡◌, not, ◌&&◌, ◌||◌, Option, none, some, List,
  [], ◌∷◌,
}
use tg_bale_bridge.Prelude.Int.{ℤ, pos, str_nat, int_of, int_of-str_nat}
use tg_bale_bridge.Db.{Database}
use tg_bale_bridge.RunCfg.{Value}
use tg_bale_bridge.AppCfg.{
  Settings, no_bale_token, bad_mode, no_bale_session, bale_session_file, user_mode, bot_mode,
}
use tg_bale_bridge.StartUp.{
  Services, Boot, stopped, login_failed, refused, running, number_in, saved_offset, kept,
  overridden, run_of,
}
use tg_bale_bridge.BaleRouting.{Side}
use tg_bale_bridge.Transfer.Queueing.{Bridge}
use tg_bale_bridge.BaleClient.{Session}
use tg_bale_bridge.BaleClient.Events.{Event}
use tg_bale_bridge.BaleClient.Flow.Offsets.{deliver_all, emitted, InStep, deliver_all-InStep}

module _ (dumps : Value → Text) (loads : Text → Option Value) (s : Services) (db : Database) where
  -- The start with these settings.
  abbrev filled : Settings → Settings
  filled v = overridden dumps loads db v

  -- What follows the checks: the program runs exactly if Bale says who the bridge is there, and
  -- Telegram is logged in or lets it log in with a phone number. The login is the only thing that
  -- raises an exception; in every other case the program exits.
  abbrev runs_or_stops : Settings → Boot
  runs_or_stops v = elim s.bale_me [
    | none ↦ stopped
    | some me ↦
        let phone = not (null (filled v).tg_phone) in
        if s.tg_authorized || phone && s.tg_logs_in
        then running (run_of dumps loads s db me (filled v))
        else if phone
        then login_failed
        else stopped
  ]

  -- What becomes of an installed program, by its mode.
  abbrev pub boot_by_mode : Settings → Boot
  boot_by_mode v =
      if text_eq v.bale_mode bot_mode
      then (if null (filled v).bale_token then refused (no_bale_token ∷ []) else runs_or_stops v)
      else if text_eq v.bale_mode user_mode
      then (if s.exists (bale_session_file v.bale_session)
          then runs_or_stops v
          else refused (no_bale_session (bale_session_file v.bale_session) ∷ []))
      else refused (bad_mode v.bale_mode ∷ [])

number_in-int_of : (t : Text) (i : ℤ) → int_of t ≡ some i → number_in (some t) ≡ some i
unfolding int_of
number_in-int_of [] i h = cc
number_in-int_of (c ∷ cs) i h = h

-- If a listening session is in step with the settings, then after any events the offset at which
-- the next start listens is the old one plus the number of the updates that were handed on.
pub saved_offset-deliver_all :
    (side : Side) (n : ℕ) (es : List Event) (x : Session) (b : Bridge)
    → InStep n (x, b)
    → saved_offset (codes "bale_offset") (deliver_all side es (x, b)).1.world.db
      ≡ some (pos (n + emitted es))
unfolding saved_offset
saved_offset-deliver_all side n es x b h =
    let kept = (deliver_all-InStep side n es x b h).saved in
    rw kept (number_in-int_of (str_nat (n + emitted es)) _ (int_of-str_nat (n + emitted es)))
