-- ===== src/Wizard.antt =====
-- bridge/wizard: the conversation of the installation, and what it acts on. The texts of the
-- messages are notices with their variable parts. The services (Telegram, Bale, the file system)
-- answer as an `Outside` says; the text of an exception is not modelled.
pub mod Keeps
pub mod Login
pub mod Pairing
pub mod Conversation
pub mod Actions
pub mod Apart
pub mod Edges
pub mod Diagram
pub mod Walk
pub mod Far
pub mod Safety
pub mod Buttons
pub mod Chats
use tg_bale_bridge.Prelude.{
  if◌then◌else◌, Text, text_eq, text_eq_refl, ℕ, ◌≡◌, Bool, true, false, Option, none, some, List,
  [], ◌∷◌, arith,
}
use tg_bale_bridge.Prelude.Int.{ℤ, str_int}
use tg_bale_bridge.Prelude.Dict.{Dict, get, assign, get-assign}
use tg_bale_bridge.Db.{Database}
use tg_bale_bridge.Transfer.Exec.{Exc, Outcome, ok, raised}

-- The states of the conversation; `fresh` is `None`.
pub data Step : Type 0 where
  fresh menu tg_api_id tg_api_hash tg_phone tg_code tg_password : Step
  bale_phone bale_code bbot_token pair_tg pair_bale pair_dir : Step

-- A channel; an empty text stands for a title or a username that is not there.
pub record ChatInfo : Type 0 where
  pub id : ℤ
  pub title : Text
  pub username : Text

-- `st["data"]`: what has been answered so far.
pub record Answers : Type 0 where
  pub api_id : Option ℕ
  pub api_hash : Text
  pub phone : Text
  pub bale_phone : Text
  pub tg : Option ChatInfo
  pub bale : Option ChatInfo
  pub tg_done : Bool

abbrev pub no_answers : Answers
no_answers = record {
  api_id = none;
  api_hash = [];
  phone = [];
  bale_phone = [];
  tg = none;
  bale = none;
  tg_done = false;
}

pub record Conv : Type 0 where
  pub step : Step
  pub answers : Answers

abbrev new_conv : Conv
new_conv = record { step = Step.fresh; answers = no_answers }

-- The messages of the wizard, in the order of the source.
pub data Notice : Type 0 where
  menu_text not_a_number ask_api_hash ask_phone connecting phone_failed ask_code : Notice
  ask_password code_failed tg_connected password_failed tg_connected_by_password : Notice
  sending_to_bale bale_phone_failed ask_bale_code bale_code_failed bale_connected : Notice
  token_failed bot_stored prompt_tg prompt_bale prompt_bbot : Notice
  pair_first_step need_tg_self tg_not_found pair_second_step need_bale bale_not_found : Notice
  choose_direction pair_incomplete access_report install_incomplete restarting_notice : Notice
  pair_stored : ℕ → Notice

-- The calls of the services.
pub data Ask : Type 0 where
  connect_authorized : ℤ → Text → Ask
  send_code_request : Text → Ask
  sign_in_code : Text → Text → Option Text → Ask
  sign_in_password : Text → Ask
  get_me disconnect : Ask
  start_phone_auth : Text → Ask
  validate_code : Text → Text → Ask
  get_entity : Text → Ask
  start_bale_user : Ask
  get_chat : Text → Ask
  check_bale_bot : Text → Ask
  show_dashboard : ℤ → Ask
  promote_bot : ℤ → Ask

-- What `sign_in` comes to.
pub data SignIn : Type 0 where
  signed_in password_needed sign_in_refused : SignIn

-- What the services answer, given the calls made before, latest first.
pub record Outside : Type 0 where
  pub authorized : List Ask → Ask → Outcome Bool
  pub send_code : List Ask → Ask → Outcome (Option Text)
  pub sign_in : List Ask → Ask → SignIn
  pub me : List Ask → Ask → Outcome (Unit {0})
  pub phone_auth : List Ask → Ask → Outcome (Option Text)
  pub valid_code : List Ask → Ask → Outcome Bool
  pub entity : List Ask → Ask → Outcome ChatInfo
  pub user_started : List Ask → Ask → Bool
  pub chat : List Ask → Ask → Outcome ChatInfo
  pub bot_name : List Ask → Ask → Outcome Text
  pub tg_session_exists : List Ask → Bool
  pub bale_session_exists : List Ask → Bool
  pub now : List Ask → ℕ
  pub bale_token : Text
  pub bale_user_mode : Bool

-- tguser/login.py: a login that waits for its code or password.
pub record PendingLogin : Type 0 where
  pub phone : Text
  pub code_hash : Option Text

pub record Wiz : Type 0 where
  pub convs : Dict Conv
  pub db : Database
  pub tg_pending : Dict PendingLogin
  pub bale_txn : Option Text
  pub cfg_api_id : ℤ
  pub cfg_api_hash : Text
  pub restarting : Bool
  pub said : List (ℤ × Notice)
  pub asked : List Ask

-- A handler: it returns or raises, and changes the wizard.
abbrev pub W : Type 0 → Type 0
W A = Wiz → Outcome A × Wiz

abbrev pub pure : {A : Type 0} → A → W A
pure a w = (ok a, w)

abbrev pub raise : {A : Type 0} → Exc → W A
raise e w = (raised e, w)

abbrev pub continue : {A B : Type 0} → (A → W B) → Outcome A × Wiz → Outcome B × Wiz
continue f (ok a, w) = f a w
continue f (raised e, w) = (raised e, w)

infixl 5 ◌>>=◌ ◌>>◌
abbrev pub ◌>>=◌ : {A B : Type 0} → W A → (A → W B) → W B
◌>>=◌ m f w = continue f (m w)

abbrev pub ◌>>◌ : {B : Type 0} → W (Unit {0}) → W B → W B
m >> k = m >>= λ _. k

abbrev pub handle : {A : Type 0} → A → Outcome A × Wiz → Outcome A × Wiz
handle a (ok b, w) = (ok b, w)
handle a (raised e, w) = (ok a, w)

-- `try: m; except Exception: a`
abbrev pub or_else : {A : Type 0} → A → W A → W A
or_else a m w = handle a (m w)

abbrev pub modify : (Wiz → Wiz) → W (Unit {0})
modify f w = (ok tt, f w)

abbrev pub gets : {A : Type 0} → (Wiz → A) → W A
gets f w = (ok (f w), w)

-- A call whose answer may be an exception.
abbrev pub ask : {A : Type 0} → (List Ask → Ask → Outcome A) → Ask → W A
ask answer c w = (answer w.asked c, record w { asked = c ∷ w.asked })

-- A call that always answers.
abbrev pub query : {A : Type 0} → (List Ask → Ask → A) → Ask → W A
query answer c w = (ok (answer w.asked c), record w { asked = c ∷ w.asked })

-- `_send`; that a message does not get through is only logged.
abbrev pub say : ℤ → Notice → W (Unit {0})
say c n w = (ok tt, record w { said = (c, n) ∷ w.said })

-- `int(chat_id)` as the key of the dictionaries.
abbrev pub chat_key : ℤ → Text
chat_key c = str_int c

abbrev conv_or_new : Option Conv → Conv
conv_or_new none = new_conv
conv_or_new (some c) = c

-- What `_state` returns.
pub conv_at : ℤ → Dict Conv → Conv
conv_at c convs = conv_or_new (get (chat_key c) convs)

abbrev pub conv_of : ℤ → Wiz → Conv
conv_of c w = conv_at c w.convs

abbrev is_there : {A : Type 0} → Option A → Bool
is_there none = false
is_there (some a) = true

is_active : ℤ → Wiz → Bool
is_active c w = is_there (get (chat_key c) w.convs)

-- A change of the state that `_state` returns, which is put there if it is new.
pub put_conv : ℤ → Conv → Dict Conv → Dict Conv
put_conv c conv convs = assign (chat_key c) conv convs

abbrev pub set_conv : ℤ → Conv → Wiz → Wiz
set_conv c conv w = record w { convs = put_conv c conv w.convs }

pub conv_at-put_conv :
    (c c' : ℤ) (v : Conv) (d : Dict Conv)
    → conv_at c' (put_conv c v d) ≡ (if text_eq (chat_key c) (chat_key c') then v else conv_at c' d)
unfolding conv_at put_conv
conv_at-put_conv c c' v d = ground (arith, get-assign (chat_key c) (chat_key c') v d)

pub conv_at-put_conv_same : (c : ℤ) (v : Conv) (d : Dict Conv) → conv_at c (put_conv c v d) ≡ v
conv_at-put_conv_same c v d = ground (arith, conv_at-put_conv c c v d, text_eq_refl (chat_key c))

abbrev pub to_step : ℤ → Step → W (Unit {0})
to_step c s = modify (λ w. let v = conv_of c w in set_conv c (record v { step = s }) w)

abbrev pub answer : ℤ → Answers → W (Unit {0})
answer c a = modify (λ w. let v = conv_of c w in set_conv c (record v { answers = a }) w)
