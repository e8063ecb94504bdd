-- ===== src/Tests/Account.antt =====
-- Tests of the client of a Bale user account at work.
use tg_bale_bridge.Prelude.{
  Text, codes, text_eq, is_space, lstrip, rstrip, strip, lstrip_char, is_digits, ◌≡◌, refl, true,
  none, some, [], ◌∷◌, arith,
}
use tg_bale_bridge.Prelude.Int.{pos, str_nat, str_int, int_eq}
use tg_bale_bridge.Prelude.Dict.{get, assign}
use tg_bale_bridge.Db.{both}
use tg_bale_bridge.Transfer.Exec.{ok}
use tg_bale_bridge.Transfer.Deletes.{process_tg_delete}
use tg_bale_bridge.BaleClient.{
  group_like_type_value, note_type, chat_type_of, is_channel, date_key, remember_date, date_for,
  restart,
}
use tg_bale_bridge.BaleClient.Account.{
  other, gave, threw, peer_private, absent, object, Client, Account, start,
}
use tg_bale_bridge.BaleClient.Resolving.{number, name, extract_id, peer_type, resolve_id, reply_ref}
use tg_bale_bridge.BaleClient.Sending.{send_media, delete_message}
use tg_bale_bridge.BaleClient.Events.{on_message, on_deleted}
use tg_bale_bridge.BaleClient.Normalizing.{plain_text, RawMessage, default_meta, normalize}
use tg_bale_bridge.BaleClient.Members.{already_member, get_chat}
use tg_bale_bridge.BaleClient.Facade.{message, perform, perform_all}
use tg_bale_bridge.BaleClient.Failures.{perform-IsHandled}
use tg_bale_bridge.BaleClient.Exceptions.{IsHandled}
use tg_bale_bridge.BaleClient.Engine.{account_env}
use tg_bale_bridge.BaleClient.Engine.Laws.{process_tg_delete-account_env}
use tg_bale_bridge.BaleClient.Flow.{receive_all}
use tg_bale_bridge.BaleClient.Flow.Dates.{Deletes, delete_message-normalize}
use tg_bale_bridge.BaleClient.Flow.Types.{SendsFile, send_media-receive_all}
use tg_bale_bridge.BaleClient.Flow.Offsets.{deliver_all, InStep}
use tg_bale_bridge.BaleClient.Flow.Resolved.{resolve_id-perform_all}
use tg_bale_bridge.BaleRouting.{Side, save_offset}
use tg_bale_bridge.Db.Meta.{get_meta, set_meta}
use tg_bale_bridge.Transfer.Queueing.{Bridge}
use tg_bale_bridge.StartUp.{saved_offset}
use tg_bale_bridge.StartUp.Laws.{saved_offset-deliver_all}
use tg_bale_bridge.Tests.{easy_env, world_of, bridge_of}
use tg_bale_bridge.Tests.Bale.{fresh, a_channel}

-- A client that takes everything, and finds the user 5 for every name and channels everywhere.
abbrev mild : Client
mild = record {
  me = λ cs. none;
  users = λ cs c. threw (other (codes "no user"));
  search = λ cs c. gave (object (some (pos 5)) none none true absent absent absent absent absent);
  groups = λ cs c. gave a_channel;
  send = λ cs c. gave (record { message_id = 0; id = 30; rid = 0; date = 9 } ∷ []);
  act = λ cs c. gave tt;
}

-- One that fails.
abbrev broken : Client
broken = record mild {
  groups = λ cs c. threw (other (codes "no group"));
  act = λ cs c. threw (other (codes "offline"));
}

abbrev idle_account : Account
idle_account = record { session = fresh; calls = [] }

-- A message of the peer 6 of the type GROUP.
abbrev vague_message : RawMessage
vague_message = record {
  chat = none;
  peer = some (record { id = pos 6; type_value = 2 });
  message_id = 8;
  date = 41;
  sender_id = pos 3;
  text = plain_text (codes "hi");
  document = none;
  replied_to = none;
  quoted_replied_to = none;
}

perform-IsHandled_example :
    IsHandled (perform broken (message (number (pos 6)) (codes "hi") 0) idle_account).0
perform-IsHandled_example =
    perform-IsHandled broken (message (number (pos 6)) (codes "hi") 0) idle_account refl

process_tg_delete-account_env_example :
    (process_tg_delete
      (account_env broken idle_account easy_env)
      (codes "42")
      (5 ∷ [])
      (world_of both)).0
    ≡ ok tt
process_tg_delete-account_env_example =
    process_tg_delete-account_env broken idle_account easy_env (codes "42") (5 ∷ []) (world_of both)

delete_message-normalize_example :
    Deletes mild
      (pos 6)
      8
      41
      (delete_message mild
        (number (pos 6))
        8
        (record { session = restart (normalize vague_message fresh).1; calls = [] })).1.calls
delete_message-normalize_example =
    delete_message-normalize mild vague_message fresh [] (omega arith) refl

send_media-receive_all_example :
    SendsFile mild
      (codes "send_photo")
      (codes "photo")
      (codes "a.jpg")
      []
      (pos 6)
      (send_media mild
        (codes "send_photo")
        (codes "photo")
        (codes "a.jpg")
        (number (pos 6))
        []
        8
        (record idle_account {
          session = receive_all (on_message vague_message ∷ []) fresh;
        })).1.calls
unfolding get group_like_type_value is_channel
send_media-receive_all_example =
    send_media-receive_all mild (codes "send_photo") (codes "photo") (codes "a.jpg") [] 8 (pos 6)
      a_channel (on_message vague_message ∷ []) idle_account refl ((refl, refl), tt) refl refl
      (λ cs. refl)

-- The type of an unknown chat that cannot be probed is missing in the answer of `get_chat`.
chat_without_type :
    (get_chat broken
      (number (pos 6))
      (record { session = record fresh { started = true }; calls = [] })).0
    ≡ gave (record { id = pos 6; kind = none; title = []; username = [] })
unfolding get_chat start resolve_id get
chat_without_type = refl

-- A chat that is known to be a group or a channel only, and cannot be probed, is sent to as a
-- group, but the message that is answered is said to be in a private chat.
reply_in_private :
    (reply_ref (pos 6) 8 (record { session = (normalize vague_message fresh).1; calls = [] })).0
    ≡ gave (some (record { peer_type = peer_private; peer_id = pos 6; message_id = 8; date = 41 }))
unfolding reply_ref normalize default_meta note_type group_like_type_value remember_date date_for
    get chat_type_of text_eq str_int str_nat date_key assign peer_type
reply_in_private = refl

-- Every refusal that speaks of inviting passes for "already a member".
refusal_ignored : already_member (other (codes "You are not allowed to invite users")) ≡ true
unfolding already_member
refusal_ignored = refl

abbrev at_sign : Text
at_sign = codes "@news"

resolve_id-perform_all_example :
    resolve_id mild (name at_sign) (
      perform_all mild
        (message (name at_sign) (codes "hi") 0 ∷ [])
        (resolve_id mild (name at_sign) idle_account).1)
    ≡ (
      gave (pos 5),
      perform_all mild
          (message (name at_sign) (codes "hi") 0 ∷ [])
          (resolve_id mild (name at_sign) idle_account).1,
    )
unfolding resolve_id get strip lstrip rstrip is_space is_digits lstrip_char extract_id int_eq
resolve_id-perform_all_example =
    resolve_id-perform_all mild at_sign (pos 5) (message (name at_sign) (codes "hi") 0 ∷ [])
      idle_account refl

abbrev a_side : Side
a_side = record { user_mode = true; admin_bale_id = pos 3; has_panel = true; has_bridge = true }

-- A bridge whose settings hold the offset 0.
abbrev settled_bridge : Bridge
settled_bridge = save_offset 0 (bridge_of both)

fresh-InStep : InStep 0 (fresh, settled_bridge)
unfolding save_offset get_meta set_meta str_nat text_eq
fresh-InStep = record { listens = refl; counted = refl; saved = refl }

saved_offset-deliver_all_example :
    saved_offset
      (codes "bale_offset")
      (deliver_all a_side
        (on_message vague_message ∷ on_deleted none [] ∷ on_deleted none (8 ∷ []) ∷ [])
        (fresh, settled_bridge)).1.world.db
    ≡ some (pos 2)
saved_offset-deliver_all_example =
    saved_offset-deliver_all a_side 0
      (on_message vague_message ∷ on_deleted none [] ∷ on_deleted none (8 ∷ []) ∷ []) fresh
      settled_bridge fresh-InStep
