-- ===== src/Lib.antt =====
-- tg-bale-bridge mirrors messages between channels of Telegram and of Bale. This library models the
-- parts of `bridge/` that decide what is mirrored, how, and what is remembered of it.
--
-- Texts are lists of code points (Prelude/Texts), numbers are natural numbers, and chat identifiers
-- of Telegram are integers (Prelude/Int). A dictionary keyed by texts is a list of pairs
-- (Prelude/Dict). An empty text, an empty list and 0 stand for `None` where the code tests a value
-- for truth.
--
-- * Textfmt models bridge/textfmt: Splitting (splitting.py), TgToBale (tg2bale.py), BaleToTg
--   (bale2tg.py, with the regular expression of types_map.py as a matcher), Utf16 (the tables between
--   code points and UTF-16 units of textfmt/types_map.py and transfer/types_map.py), Headers
--   (headers.py), Renderers (renderers.py). Notices holds the fixed texts.
-- * ChatId models `bare_chat_id` of bridge/tguser/types_map.py and `_tg_id_forms` of
--   bridge/dbstore/pairs.py.
-- * Db models bridge/dbstore: the tables of SCHEMA are lists of rows with the next identifier; Meta
--   (meta.py), Pairs (pairs.py, stats.py), MsgMap (map.py) and LoopCache (loopcache.py) are functions
--   of the database. A clock is an argument.
-- * Guard models the sets of marked deletions of bridge/transfer/loopguard.py.
-- * Transfer models bridge/transfer. Types has the messages of both clients and their kinds
--   (types_map.py). Exec says what a handler is: a function of the world, which is the database, the
--   guard and the trace of client calls, into a result or an exception and a new world. The clients
--   are the record Env: what they answer to a call, given the calls before it, so that every
--   behaviour of the platforms over time is an Env. MirrorT2b (mirror_t2b.py), MirrorB2t
--   (mirror_b2t.py), Edits (sync_edit.py) and Deletes (sync_delete.py) are the handlers; Albums
--   (albums.py) collects albums, and Queueing (queueing.py, facade.py) has the queues, the workers
--   and the entry points. A handler runs to its end before the next step: other tasks that run while
--   it waits for a client are not interleaved. Logging and temporary files are left out.
-- * BotApi models the loop of attempts of `CallEngine.call` in bridge/botapi/transport.py, and Listening
--   the loop of long polling in bridge/botapi/events.py.
-- * TgUser models the routing of the Telegram account (bridge/tguser/routing.py), BaleRouting that of
--   the Bale side (bridge/bale/routing.py), TgBot the owner and the routing of the admin bot
--   (bridge/tgbot, with the claim of bridge/runcfg/accounts.py on the stored identifier alone), RunCfg
--   the settings of bridge/runcfg (kvstore.py, accounts.py, types_map.py), Dashboard the login of
--   bridge/dashboard/auth.py, LogBuf the ring of bridge/logbuf/ring.py.
-- * Admin models the panel of the administrators (bridge/admin) on the state of the engine: Parsing
--   (types_map.py), Commands (pairs_cmds.py, control_cmds.py, dash_cmds.py, ops_cmds.py,
--   system_cmds.py), Trial (the test message) and Facade (facade.py, resolver.py).
-- * Web models the server of the dashboard: the engines (bridge/dashboard/engines, context.py), and in
--   Web/Api the middlewares, routes and handlers of bridge/dashboard/api.py. They act on the same state
--   as the panel.
-- * BaleClient models the client of a Bale user account (bridge/bale), with its caches as a session
--   (session.py, types_map.py). Account has the client of aiobale as the record Client and actions
--   on the session, Resolving is resolver.py, Sending is sender.py, editor.py and files.py,
--   Normalizing is normalize.py, Events is events.py, Members is admin_ops.py and profile.py, Gateway
--   is gateway.py, and Facade is facade.py. Engine makes the account the Bale client of Transfer.
--   Exceptions, Failures and Flow hold proofs.
-- * BotApi has the requests of the Bot API in Methods (methods.py, sender.py, files.py, types_map.py
--   of bridge/botapi) and its client in Facade (facade.py).
-- * AppCfg models the settings from the environment (bridge/appcfg), and StartUp the start of the
--   program (bridge/runtime, with bridge/runcfg/readiness.py) up to the tasks of a run.
-- * Wizard models the installation (bridge/wizard) with its state, a monad of handlers and the answers
--   of the services as the record Outside: Login (bridge/tguser/login.py, bridge/tguser/gateway.py,
--   bridge/bale/login.py, bridge/runcfg/readiness.py, accounts.py), Pairing (pairing.py, types_map.py,
--   finish.py), Conversation and Actions (facade.py). Keeps, Apart, Far and Buttons are about what a
--   handler leaves alone; Edges and Diagram have the steps as a relation.
--
-- The Laws and the other modules beside a component hold its proofs; Tests holds data and tests.
--
-- Fuel: `digits_rev` of Prelude/Int gets n + 1 digits for the number n, and `chunks` of
-- Textfmt/Splitting as many steps as the text has characters, enough for a
-- positive limit, since each takes one at least. All other loops are structural.
--
-- Not modelled: the clients of both platforms, the HTTP session and the encoding of requests, the
-- reports of the wizard and of the panel on the accounts and their access, the start of the
-- dashboard, the logging, and the SQL behind the tables.
pub mod Prelude
pub mod Textfmt
pub mod ChatId
pub mod Db
pub mod Guard
pub mod Transfer
pub mod LogBuf
pub mod Dashboard
pub mod BotApi
pub mod TgUser
pub mod TgBot
pub mod Tests
pub mod BaleRouting
pub mod Listening
pub mod RunCfg
pub mod Wizard
pub mod Admin
pub mod Web
pub mod BaleClient
pub mod AppCfg
pub mod StartUp
