-- ===== src/Transfer/Exec.antt =====
-- What a handler of the engine is: Python code that reads and changes the bridge's state, calls
-- the two clients, and returns or raises. A handler runs to its end here: other tasks that run
-- while it waits for a client are not interleaved.
pub mod Frame
use tg_bale_bridge.Prelude.{Text, ℕ, Bool, Option, none, some, List, [], ◌∷◌, ◌++◌}
use tg_bale_bridge.Prelude.Int.{ℤ}
use tg_bale_bridge.Db.{Database}
use tg_bale_bridge.Guard.{Guard}
use tg_bale_bridge.Textfmt.Utf16.{Entity}
use tg_bale_bridge.Transfer.Types.{Kind, Contact, Geo}

-- The exceptions that the handlers tell apart.
pub data Exc : Type 0 where
  bot_api_error type_error value_error other_error : Exc

pub data Outcome (A : Type 0) : Type 0 where
  ok : A → Outcome A
  raised : Exc → Outcome A

-- How `send_file` is told to send a file: `voice_note`, `force_document`, `supports_streaming`.
pub data FileFlag : Type 0 where
  no_flag voice_flag document_flag video_flag : FileFlag

-- The calls of the Bale client and of the Telegram client. An empty caption stands for `None`.
pub data Call : Type 0 where
  bale_send_message : Text → Text → Option ℕ → Call
  bale_send_contact : Text → Contact → Option ℕ → Call
  bale_send_location : Text → Geo → Option ℕ → Call
  bale_send_media : Kind → Text → Text → Text → Option ℕ → Call
  bale_send_media_group : Text → List (Kind × Text × Text) → Option ℕ → Call
  bale_edit_message_text bale_edit_message_caption : Text → ℕ → Text → Call
  bale_delete_message : Text → ℕ → Call
  bale_download_file : Text → Text → Call
  tg_get_input_entity tg_get_entity : ℤ → Call
  tg_get_sender : ℕ → Call
  tg_get_message tg_delete_message : ℤ → ℕ → Call
  tg_edit_message : ℤ → ℕ → Text → List Entity → Call
  tg_send_message : ℤ → Text → List Entity → Option ℕ → Call
  tg_send_contact : ℤ → Contact → Option ℕ → Call
  tg_send_location : ℤ → Geo → Option ℕ → Call
  tg_send_file : FileFlag → ℤ → Text → Text → List Entity → Option ℕ → Call
  tg_send_files : ℤ → List (Text × Text) → Option ℕ → Call
  tg_download_media : ℕ → Call

-- A downloaded file, with its size in bytes.
pub record File : Type 0 where
  pub path : Text
  pub size : ℕ

-- The limits of the configuration that the engine reads.
pub record Config : Type 0 where
  pub limit_text : ℕ
  pub limit_caption : ℕ
  pub limit_caption_group : ℕ
  pub max_bale_upload : ℕ
  pub max_bale_photo : ℕ
  pub max_bale_download : ℕ

-- What lies outside: how the clients answer a call, given the calls made before it, latest first.
-- Any behaviour of the platforms over time is such a family of functions.
pub record Env : Type 0 where
  pub send : List Call → Call → Outcome ℕ
  pub send_group : List Call → Call → Outcome (List ℕ)
  pub act : List Call → Call → Outcome (Unit {0})
  pub exists : List Call → Call → Outcome Bool
  pub download : List Call → Call → Outcome (Option File)
  pub sender_name : List Call → Call → Outcome Text
  pub now : List Call → ℕ
  pub sha1 : Text → Text
  pub has_delete_events : Bool
  pub cfg : Config

pub record World : Type 0 where
  pub db : Database
  pub guard : Guard
  pub trace : List Call

abbrev pub M : Type 0 → Type 0
M A = World → Outcome A × World

abbrev pub pure : {A : Type 0} → A → M A
pure a w = (ok a, w)

abbrev pub raise : {A : Type 0} → Exc → M A
raise e w = (raised e, w)

abbrev pub continue : {A B : Type 0} → (A → M B) → Outcome A × World → Outcome B × World
continue f (ok a, w) = f a w
continue f (raised e, w) = (raised e, w)

infixl 5 ◌>>=◌ ◌>>◌
abbrev pub ◌>>=◌ : {A B : Type 0} → M A → (A → M B) → M B
◌>>=◌ m f w = continue f (m w)

abbrev pub ◌>>◌ : {B : Type 0} → M (Unit {0}) → M B → M B
m >> k = m >>= λ _. k

abbrev pub handle : {A : Type 0} → (Exc → M A) → Outcome A × World → Outcome A × World
handle h (ok a, w) = (ok a, w)
handle h (raised e, w) = h e w

-- `try: m; except Exception as e: h(e)`
abbrev pub try_catch : {A : Type 0} → M A → (Exc → M A) → M A
try_catch m h w = handle h (m w)

abbrev only_bot_api : {A : Type 0} → M A → Exc → M A
only_bot_api h bot_api_error = h
only_bot_api h type_error = raise type_error
only_bot_api h value_error = raise value_error
only_bot_api h other_error = raise other_error

-- `try: m; except BotAPIError: h`
abbrev pub try_bot_api : {A : Type 0} → M A → M A → M A
try_bot_api m h = try_catch m (only_bot_api h)

abbrev only_type_error : {A : Type 0} → M A → Exc → M A
only_type_error h type_error = h
only_type_error h bot_api_error = raise bot_api_error
only_type_error h value_error = raise value_error
only_type_error h other_error = raise other_error

-- `try: m; except TypeError: h`
abbrev pub try_type : {A : Type 0} → M A → M A → M A
try_type m h = try_catch m (only_type_error h)

-- `for x in xs: f(x)`
unfoldable pub for_each : {A : Type 0} → (A → M (Unit {0})) → List A → M (Unit {0})
for_each f [] = pure tt
for_each f (x ∷ xs) = f x >> for_each f xs

-- The results of `f` over a list, put together.
pub gather : {A B : Type 0} → (A → M (List B)) → List A → M (List B)
gather f [] = pure []
gather f (x ∷ xs) = do ys ← f x; zs ← gather f xs; pure (ys ++ zs)

-- A call of a client.
abbrev pub ask : {A : Type 0} → (List Call → Call → Outcome A) → Call → M A
ask answer c w = (answer w.trace c, record w { trace = c ∷ w.trace })

abbrev pub change_db : (Database → Database) → M (Unit {0})
change_db f w = (ok tt, record w { db = f w.db })

-- A database operation with an answer.
abbrev pub query_db : {A : Type 0} → (Database → A × Database) → M A
query_db f w = let (a, db') = f w.db in (ok a, record w { db = db' })

abbrev pub read_db : {A : Type 0} → (Database → A) → M A
read_db f w = (ok (f w.db), w)

abbrev pub change_guard : (Guard → Guard) → M (Unit {0})
change_guard f w = (ok tt, record w { guard = f w.guard })

-- `time.time()`
abbrev pub clock : Env → M ℕ
clock env w = (ok (env.now w.trace), w)

abbrev pub skip : M (Unit {0})
skip = pure tt

abbrev pub lift : {A : Type 0} → Exc → Option A → M A
lift e none = raise e
lift e (some a) = pure a
