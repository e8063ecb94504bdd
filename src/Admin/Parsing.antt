-- ===== src/Admin/Parsing.antt =====
-- bridge/admin/types_map.py: reading a command.
use tg_bale_bridge.Prelude.{
  ◌==◌, if◌then◌else◌, any, Text, codes, text_eq, is_space, strip, ℕ, zero, suc, ◌+◌, ◌*◌, ◌/◌, ◌%◌,
  Bool, true, false, ◌||◌, Option, none, some, List, [], ◌∷◌, ◌++◌, map,
}
use tg_bale_bridge.Prelude.Int.{ℤ, pos, negsuc, str_nat}
use mathlib.Core.Option
use tg_bale_bridge.Db.{Mode, tg2bale, bale2tg, both}
use tg_bale_bridge.Db.Pairs.{lower}
use tg_bale_bridge.Wizard.Conversation.{digit_value}
use tg_bale_bridge.Admin.{
  Command, cmd_help, cmd_add, cmd_remove, cmd_list, cmd_mode, cmd_test, cmd_status, cmd_id,
  cmd_whoami, cmd_pause, cmd_resume, cmd_logs, cmd_access, cmd_promote, cmd_dashboard, cmd_passwd,
  cmd_dashuser, cmd_setup,
}

abbrev add_word : Text → List Text → List Text
add_word [] ws = ws
add_word (c ∷ cs) ws = (c ∷ cs) ∷ ws

abbrev words_onto : Text → Text → List Text
words_onto w [] = add_word w []
words_onto w (c ∷ cs) =
    let next = words_onto [] cs in
    let more = words_onto (w ++ c ∷ []) cs in if is_space c then add_word w next else more

-- `text.split()`
words : Text → List Text
words t = words_onto [] t

-- `text.split("@")[0]`
abbrev before_at : Text → Text
before_at [] = []
before_at (c ∷ cs) = let rest = before_at cs in if c == b'@' then [] else c ∷ rest

abbrev one_of : List Text → Text → Bool
one_of names t = any (text_eq t) names

abbrev look_in : {A : Type 0} → List (List Text × A) → Text → Option A
look_in [] t = none
look_in ((names, a) ∷ rest) t =
    let later = look_in rest t in if one_of names t then some a else later

-- MODE_ALIASES, by their values; the Persian names are given by their code points.
abbrev mode_aliases : List (List Text × Mode)
mode_aliases =
    (
      codes "both"
          ∷ (1583 ∷ 1608 ∷ 1591 ∷ 1585 ∷ 1601 ∷ 1607 ∷ [])
          ∷ (1583 ∷ 1608 ∷ 1583 ∷ 1591 ∷ 1585 ∷ 1601 ∷ 1607 ∷ [])
          ∷ (1583 ∷ 1608 ∷ 32 ∷ 1591 ∷ 1585 ∷ 1601 ∷ 1607 ∷ [])
          ∷ [],
      both,
    )
    ∷ (
      codes "tg2bale"
          ∷ codes "t2b"
          ∷ codes "tg2b"
          ∷ (1578 ∷ 1604 ∷ 1711 ∷ 1585 ∷ 1575 ∷ 1605 ∷ 95 ∷ 1576 ∷ 1607 ∷ 95 ∷ 1576 ∷ 1604 ∷ 1607
              ∷ [])
          ∷ (1578 ∷ 1604 ∷ 1711 ∷ 1585 ∷ 1575 ∷ 1605 ∷ 1576 ∷ 1607 ∷ 1576 ∷ 1604 ∷ 1607 ∷ [])
          ∷ [],
      tg2bale,
    )
    ∷ (
      codes "bale2tg"
          ∷ codes "b2t"
          ∷ codes "b2tg"
          ∷ (1576 ∷ 1604 ∷ 1607 ∷ 95 ∷ 1576 ∷ 1607 ∷ 95 ∷ 1578 ∷ 1604 ∷ 1711 ∷ 1585 ∷ 1575 ∷ 1605
              ∷ [])
          ∷ (1576 ∷ 1604 ∷ 1607 ∷ 1576 ∷ 1607 ∷ 1578 ∷ 1604 ∷ 1711 ∷ 1585 ∷ 1575 ∷ 1605 ∷ [])
          ∷ [],
      bale2tg,
    )
    ∷ []

-- `MODE_ALIASES.get(arg.lower().replace("-", "_"))`. Only ASCII letters are folded: no other capital
-- letter becomes one of an alias.
unfoldable pub mode_named : Text → Option Mode
mode_named arg = look_in mode_aliases (map (λ c. if c == b'-' then b'_' else c) (lower arg))

-- CMD_ALIASES, by their values.
abbrev cmd_aliases : List (List Text × Command)
cmd_aliases =
    (
      codes "start"
          ∷ codes "help"
          ∷ (1585 ∷ 1575 ∷ 1607 ∷ 1606 ∷ 1605 ∷ 1575 ∷ [])
          ∷ (1705 ∷ 1605 ∷ 1705 ∷ [])
          ∷ [],
      cmd_help,
    )
    ∷ (
      codes "add"
          ∷ (1575 ∷ 1601 ∷ 1586 ∷ 1608 ∷ 1583 ∷ 1606 ∷ [])
          ∷ (1575 ∷ 1590 ∷ 1575 ∷ 1601 ∷ 1607 ∷ [])
          ∷ (1580 ∷ 1601 ∷ 1578 ∷ [])
          ∷ [],
      cmd_add,
    )
    ∷ (
      codes "remove"
          ∷ codes "del"
          ∷ codes "delete"
          ∷ (1581 ∷ 1584 ∷ 1601 ∷ [])
          ∷ (1662 ∷ 1575 ∷ 1705 ∷ [])
          ∷ [],
      cmd_remove,
    )
    ∷ (codes "list" ∷ codes "ls" ∷ (1604 ∷ 1740 ∷ 1587 ∷ 1578 ∷ []) ∷ [], cmd_list)
    ∷ (codes "mode" ∷ (1581 ∷ 1575 ∷ 1604 ∷ 1578 ∷ []) ∷ [], cmd_mode)
    ∷ (codes "test" ∷ (1578 ∷ 1587 ∷ 1578 ∷ []) ∷ [], cmd_test)
    ∷ (codes "status" ∷ (1608 ∷ 1590 ∷ 1593 ∷ 1740 ∷ 1578 ∷ []) ∷ [], cmd_status)
    ∷ (codes "id" ∷ (1588 ∷ 1606 ∷ 1575 ∷ 1587 ∷ 1607 ∷ []) ∷ [], cmd_id)
    ∷ (codes "whoami" ∷ (1607 ∷ 1608 ∷ 1740 ∷ 1578 ∷ []) ∷ (1605 ∷ 1606 ∷ []) ∷ [], cmd_whoami)
    ∷ (
      codes "pause"
          ∷ (1578 ∷ 1608 ∷ 1602 ∷ 1601 ∷ [])
          ∷ (1605 ∷ 1705 ∷ 1579 ∷ [])
          ∷ (1602 ∷ 1601 ∷ 1604 ∷ [])
          ∷ [],
      cmd_pause,
    )
    ∷ (
      codes "resume"
          ∷ (1575 ∷ 1583 ∷ 1575 ∷ 1605 ∷ 1607 ∷ [])
          ∷ (1575 ∷ 1586 ∷ 1587 ∷ 1585 ∷ 1711 ∷ 1740 ∷ 1585 ∷ 1740 ∷ [])
          ∷ [],
      cmd_resume,
    )
    ∷ (
      codes "logs"
          ∷ (1604 ∷ 1575 ∷ 1711 ∷ [])
          ∷ (1604 ∷ 1575 ∷ 1711 ∷ 8204 ∷ 1607 ∷ 1575 ∷ [])
          ∷ [],
      cmd_logs,
    )
    ∷ (codes "access" ∷ (1583 ∷ 1587 ∷ 1578 ∷ 1585 ∷ 1587 ∷ 1740 ∷ []) ∷ [], cmd_access)
    ∷ (
      codes "promote"
          ∷ (1575 ∷ 1585 ∷ 1578 ∷ 1602 ∷ 1575 ∷ [])
          ∷ (1575 ∷ 1583 ∷ 1605 ∷ 1740 ∷ 1606 ∷ 95 ∷ 1705 ∷ 1585 ∷ 1583 ∷ 1606 ∷ [])
          ∷ [],
      cmd_promote,
    )
    ∷ (
      codes "dashboard" ∷ (1583 ∷ 1575 ∷ 1588 ∷ 1576 ∷ 1608 ∷ 1585 ∷ 1583 ∷ []) ∷ [],
      cmd_dashboard,
    )
    ∷ (
      codes "passwd" ∷ (1585 ∷ 1605 ∷ 1586 ∷ []) ∷ (1662 ∷ 1587 ∷ 1608 ∷ 1585 ∷ 1583 ∷ []) ∷ [],
      cmd_passwd,
    )
    ∷ (codes "dashuser" ∷ [], cmd_dashuser)
    ∷ (codes "setup" ∷ (1606 ∷ 1589 ∷ 1576 ∷ []) ∷ [], cmd_setup)
    ∷ []

command_named : Text → Option Command
command_named raw = look_in cmd_aliases (lower raw)

abbrev known_command : Option Command → List Text → Option Command × List Text
known_command none args = (none, [])
known_command (some c) args = (some c, args)

-- A text that starts with a space has been stripped before.
abbrev command_in : List Text → Option Command × List Text
command_in [] = (none, [])
command_in ([] ∷ args) = (none, [])
command_in ((c ∷ cs) ∷ args) =
    if c == b'/'
    then (command_named (before_at cs), args)
    else known_command (command_named (c ∷ cs)) args

pub parse_command : Text → Option Command × List Text
unfolding words command_named
parse_command text = command_in (words text)

abbrev digit_then : ℕ → Option ℕ → Option ℕ
digit_then n none = none
digit_then n (some d) = some (n * 10 + d)

-- The digits of `int(s)`, of the alphabets that `digit_value` reads, with single underscores
-- between them; `seen` tells that the character before was a digit.
abbrev pub digits_onto : Option ℕ → Bool → Text → Option ℕ
digits_onto none seen cs = none
digits_onto (some n) seen [] = if seen then some n else none
digits_onto (some n) seen (c ∷ cs) =
    let behind = digits_onto (some n) false cs in
    let next = digits_onto (digit_then n (digit_value c)) true cs in
    if c == b'_' then (if seen then behind else none) else next

abbrev negative : ℕ → ℤ
negative zero = pos zero
negative (suc n) = negsuc n

abbrev pub signed_int : Text → Option ℤ
signed_int [] = none
signed_int (c ∷ cs) =
    let plain = digits_onto (some 0) false (c ∷ cs) in
    let behind = digits_onto (some 0) false cs in
    if c == b'+'
    then Option.map pos behind
    else if c == b'-'
    then Option.map negative behind
    else Option.map pos plain

-- `int(text)`, `none` for the `ValueError`.
unfoldable pub int_text : Text → Option ℤ
int_text t = signed_int (strip t)

abbrev pub positive : Option ℤ → Option ℕ
positive (some (pos (suc n))) = some (suc n)
positive _ = none

-- `lstrip("#№")`
abbrev pub lstrip_hash : Text → Text
lstrip_hash [] = []
lstrip_hash (c ∷ cs) = let rest = lstrip_hash cs in if c == b'#' || c == 8470 then rest else c ∷ cs

-- `none` also stands for a number below 1. The Persian digits need no translation here.
unfoldable pub parse_pair_id : Text → Option ℕ
unfolding int_text
parse_pair_id raw = positive (int_text (strip (lstrip_hash (strip raw))))

-- `fmt_duration` of whole seconds.
pub fmt_duration : ℕ → Text
fmt_duration seconds =
    let d = seconds / 86400 in
    let h = seconds % 86400 / 3600 in
    let m = seconds % 3600 / 60 in
    (if d == 0 then [] else str_nat d ++ codes "d ")
    ++ (if h == 0 then [] else str_nat h ++ codes "h ")
    ++ str_nat m
    ++ codes "m"
