-- ===== src/Textfmt/Renderers.antt =====
-- bridge/textfmt/renderers.py: the text that stands for a message with no counterpart. `none`
-- stands for a message whose attributes are not there: the `except` branch.
use tg_bale_bridge.Prelude.{
  if◌then◌else◌, Text, codes, strip, ℕ, ◌+◌, Bool, Option, none, some, List, [], ◌∷◌, ◌++◌,
}
use tg_bale_bridge.Textfmt.Notices.{
  poll_prefix, poll_notice, keycap, multiple_notice, dice_prefix, dice_notice, venue_prefix,
  venue_notice, service_prefix, service_name, unsupported_tg_notice,
}
use tg_bale_bridge.Prelude.Int.{str_nat}

pub record Poll : Type 0 where
  pub question : Text
  pub answers : List Text
  pub multiple_choice : Bool

-- `enumerate(poll.answers, 1)`, from the number `i`
abbrev answer_lines : ℕ → List Text → List Text
answer_lines i [] = []
answer_lines i (a ∷ as') = (str_nat i ++ (keycap ++ a)) ∷ answer_lines (i + 1) as'

-- `"\n".join(lines)`
join_lines : List Text → Text
join_lines [] = []
join_lines (l ∷ []) = l
join_lines (l ∷ m ∷ ls) = l ++ (10 ∷ join_lines (m ∷ ls))

pub render_tg_poll : Option Poll → Text
unfolding join_lines
render_tg_poll none = poll_notice
render_tg_poll (some p) = join_lines (
    (poll_prefix ++ p.question)
    ∷ []
    ∷ (answer_lines 1 p.answers ++ (if p.multiple_choice then (10 ∷ multiple_notice) ∷ [] else [])))

pub record Dice : Type 0 where
  pub emoticon : Text
  pub value : Text

pub render_tg_dice : Option Dice → Text
render_tg_dice none = dice_notice
render_tg_dice (some d) = dice_prefix ++ (d.emoticon ++ (codes "): " ++ d.value))

pub record Venue : Type 0 where
  pub title : Text
  pub address : Text

pub render_tg_venue : Option Venue → Text
render_tg_venue none = venue_notice
render_tg_venue (some v) = venue_prefix ++ (v.title ++ (10 ∷ v.address))

-- The name of the action's class; no action is the empty name.
pub render_tg_service : Text → Text
render_tg_service [] = service_prefix ++ (service_name ++ codes ")")
render_tg_service (c ∷ cs) = service_prefix ++ ((c ∷ cs) ++ codes ")")

abbrev or_notice : Text → Text → Text
or_notice [] notice = notice
or_notice (c ∷ cs) notice = c ∷ cs

pub render_unsupported_tg : Text → Text
render_unsupported_tg message = or_notice (strip message) unsupported_tg_notice
