-- ===== src/Textfmt/Headers.antt =====
-- bridge/textfmt/headers.py: the line that says where a forwarded message comes from. The header
-- of a Telegram message asks the client for the sender's name; that answer is an argument here.
use tg_bale_bridge.Prelude.{Text, strip, ℕ, Option, none, some, [], ◌∷◌, ◌++◌}
use tg_bale_bridge.Textfmt.Notices.{header_prefix, nobody}

abbrev pub or_text : Text → Text → Text
or_text [] b = b
or_text (c ∷ cs) b = c ∷ cs

-- `" ".join(x for x in [first, last] if x)`
full_name : Text → Text → Text
full_name [] last = last
full_name (f ∷ fs) [] = f ∷ fs
full_name (f ∷ fs) (l ∷ ls) = (f ∷ fs) ++ (32 ∷ l ∷ ls)

-- `msg.forward`; an empty text stands for a name that is not there.
pub record Forward : Type 0 where
  pub from_name : Text
  pub from_id : Option ℕ
  pub post_author : Text

-- The header once the lookup of the sender's name is done; `found` is empty if it gave no name.
pub tg_header : Forward → Text → Text
tg_header f found =
    header_prefix ++ or_text (or_text (or_text f.from_name found) f.post_author) nobody

pub record ForwardChat : Type 0 where
  pub title : Text
  pub username : Text

pub record ForwardUser : Type 0 where
  pub first_name : Text
  pub last_name : Text
  pub username : Text

abbrev at_name : Text → Text
at_name [] = []
at_name (u ∷ us) = b'@' ∷ u ∷ us

pub bale_forward_header : Option ForwardChat → Option ForwardUser → Text
unfolding full_name
bale_forward_header (some chat) user =
    header_prefix ++ or_text (or_text chat.title (at_name chat.username)) nobody
bale_forward_header none (some user) =
    header_prefix
    ++ or_text (or_text (strip (full_name user.first_name user.last_name)) user.username) nobody
bale_forward_header none none = []
