-- ===== src/Admin/Facade.antt =====
-- bridge/admin/facade.py: who may give a command, and what answers it; bridge/admin/resolver.py:
-- what a forwarded message tells.
use tg_bale_bridge.Prelude.{
  if◌then◌else◌, Text, codes, strip, starts_with, Option, none, some, List, [], ◌∷◌,
}
use tg_bale_bridge.Prelude.Int.{ℤ, pos, int_eq}
use tg_bale_bridge.Transfer.Exec.{Env, Outcome, ok, raised}
use tg_bale_bridge.Admin.{
  Surface, from_bale, from_tgbot, from_saved, Command, cmd_help, cmd_add, cmd_remove, cmd_list,
  cmd_mode, cmd_test, cmd_status, cmd_id, cmd_whoami, cmd_pause, cmd_resume, cmd_logs, cmd_access,
  cmd_promote, cmd_dashboard, cmd_passwd, cmd_dashuser, cmd_setup, Origin, Reply, your_id,
  unknown_command, minimal_help, help_text, setup_hint, id_hint, error_text, sender_named,
  chat_forwarded, user_forwarded, whoami_text, Panel, Desk, P, pure,
}
use tg_bale_bridge.Admin.Parsing.{parse_command}
use tg_bale_bridge.Admin.Commands.{
  add, remove, mode, list, pause, resume, test, dashboard, passwd, dashuser, promote, access,
  status, logs,
}

abbrev either : Option ℤ → Option ℤ → Option ℤ
either none o = o
either (some i) o = some i

abbrev described : Option ℤ → Option ℤ → Text → Option Reply
described (some c) user name = some (chat_forwarded c)
described none (some u) name = some (user_forwarded u)
described none none [] = none
described none none (c ∷ cs) = some (sender_named (c ∷ cs))

-- The branch of the messages of the bots.
pub describe_origin : Origin → Option Reply
describe_origin o =
    described (either o.chat o.origin_chat) (either o.user o.origin_user) o.origin_name

abbrev describe_given : Option Origin → Option Reply
describe_given none = none
describe_given (some o) = describe_origin o

module _ (env : Env) (desk : Desk) where
  abbrev describe_forward : Surface → Option Origin → Option Reply
  describe_forward from_saved msg = desk.describe_saved
  describe_forward from_bale msg = describe_given msg
  describe_forward from_tgbot msg = describe_given msg

  abbrev or_reply : Option Reply → Reply → Reply
  or_reply none r = r
  or_reply (some q) r = q

  -- `cmd_<name>`
  pub command : Command → Surface → ℤ → List Text → Option Origin → P Reply
  command cmd_help s user args msg = pure help_text
  command cmd_setup s user args msg = pure setup_hint
  command cmd_id s user args msg = pure (or_reply (describe_forward s msg) id_hint)
  command cmd_status s user args msg = status env desk
  command cmd_whoami s user args msg = pure (whoami_text user)
  command cmd_logs s user args msg = logs env desk args
  command cmd_add s user args msg = add env desk args
  command cmd_remove s user args msg = remove env desk args
  command cmd_mode s user args msg = mode env desk args
  command cmd_list s user args msg = list env desk
  command cmd_pause s user args msg = pause env desk
  command cmd_resume s user args msg = resume env desk
  command cmd_test s user args msg = test env desk args
  command cmd_access s user args msg = access env desk
  command cmd_promote s user args msg = promote env desk args
  command cmd_dashboard s user args msg = dashboard env desk
  command cmd_passwd s user args msg = passwd env desk args
  command cmd_dashuser s user args msg = dashuser env desk args

  abbrev admin_of : Surface → ℤ
  admin_of from_bale = desk.admin_bale_id
  admin_of from_tgbot = desk.admin_tg_id
  admin_of from_saved = pos 0

  abbrev answered : Outcome Reply × Panel → Option Reply × Panel
  answered (ok r, p) = (some r, p)
  answered (raised e, p) = (some error_text, p)

  abbrev unnamed : Surface → Text → Option Origin → Reply
  unnamed s text msg =
      if starts_with text (codes "/")
      then unknown_command
      else or_reply (describe_forward s msg) minimal_help

  abbrev run_command :
      Surface → ℤ → Text → Option Origin → Option Command × List Text → Panel → Option Reply × Panel
  run_command s user text msg (none, args) p = (some (unnamed s text msg), p)
  run_command s user text msg (some c, args) p = answered (command c s user args msg p)

  -- The administrator's text.
  obey : Surface → ℤ → Text → Option Origin → Panel → Option Reply × Panel
  obey s user text msg p = run_command s user (strip text) msg (parse_command (strip text)) p

  -- A bot obeys one user, whose identifier the configuration names.
  abbrev guarded : Surface → ℤ → Text → Option Origin → Panel → Option Reply × Panel
  guarded s user text msg p =
      if int_eq (admin_of s) (pos 0)
      then (some (your_id user), p)
      else if int_eq user (admin_of s)
      then obey s user text msg p
      else (none, p)

  unfoldable pub handle : Surface → ℤ → Text → Option Origin → Panel → Option Reply × Panel
  unfolding obey
  handle from_saved user text msg p = obey from_saved user text msg p
  handle from_bale user text msg p = guarded from_bale user text msg p
  handle from_tgbot user text msg p = guarded from_tgbot user text msg p
