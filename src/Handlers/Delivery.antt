-- ===== src/Handlers/Delivery.antt =====
-- funciones.c: f_send and f_sendattach, and the acknowledgement to the sender.
pub mod Sending
pub mod Tables
pub mod Mail
pub mod Promises
pub mod Answers
use messaging_service.Prelude.{
  ℕ, ◌%◌, ◌^◌, Bool, true, false, Option, none, some, List, [], ◌∷◌, ◌++◌, Bytes, if◌then◌else◌,
  ◌==◌, codes, not,
}
use messaging_service.Text.Decimal.{print_unsigned}
use messaging_service.Disk.{PendingMsg}
use messaging_service.Database.Accounts.{db_disconnect}
use messaging_service.Database.Prepare.{Prepared, db_prepare_message}
use messaging_service.Database.Mail.{db_store_message, db_delete_message}
use messaging_service.Database.Online.{UserInfo, get_user_info}
use messaging_service.Program.{
  Prog, ret, emit, reach, push, rpc, console, reply, ◌>>=◌, ◌>>◌, send, call, look,
}

-- `htons(port)`: the low 16 bits.
abbrev pub port_of : ℕ → ℕ
port_of port = port % 2 ^ 16

-- `db_disconnect(name)`, its result not looked at.
abbrev pub drop_user : Bytes → Prog (Unit {0})
drop_user user_name = do code ← call (λ r d. db_disconnect r user_name d); ret tt

-- The strings of a message and of an acknowledgement, with an attachment or without.
unfoldable pub message_strings : Bytes → Bytes → Bytes → Option Bytes → List Bytes
message_strings sender id_str message none = codes "SEND_MESSAGE" ∷ sender ∷ id_str ∷ message ∷ []
message_strings sender id_str message (some file_name) =
    codes "SEND_MESSAGE_ATTACH" ∷ sender ∷ id_str ∷ message ∷ file_name ∷ []

unfoldable pub ack_strings : Bytes → Option Bytes → List Bytes
ack_strings id_str none = codes "SEND_MESS_ACK" ∷ id_str ∷ []
ack_strings id_str (some file_name) = codes "SEND_MESS_ATTACH_ACK" ∷ id_str ∷ file_name ∷ []

unfoldable pub ack_to : Bytes → List Bytes → Option UserInfo → Prog (Unit {0})
ack_to sender strings none = ret tt
ack_to sender strings (some info) =
    if info.connected == 1
    then reach info.ip (port_of info.port) (λ reached.
      if reached then send (push info.ip (port_of info.port) strings) else drop_user sender)
    else ret tt

-- `if (get_user_info(sender, …) == 0 && s_conn == 1) { … }`
unfoldable pub acknowledge : Bytes → List Bytes → Prog (Unit {0})
unfolding ack_to
acknowledge sender strings = do
  info ← look (λ r d. get_user_info r sender d)
  ack_to sender strings info

unfoldable pub sent_line : Bytes → Bytes → Bytes → Bytes
sent_line id_str sender receiver =
    codes "s> SEND MESSAGE "
    ++ id_str
    ++ codes " FROM "
    ++ sender
    ++ codes " TO "
    ++ receiver
    ++ codes "\n"

unfoldable pub stored_line : Bytes → Bytes → Bytes → Bytes
stored_line id_str sender receiver =
    codes "s> MESSAGE "
    ++ id_str
    ++ codes " FROM "
    ++ sender
    ++ codes " TO "
    ++ receiver
    ++ codes " STORED\n"

-- What follows on a connection to the listener of the receiver: the message is sent, the pending copy
-- deleted, and the sender told.
unfoldable pub deliver : Bytes → ℕ → Bytes → Bytes → ℕ → Bytes → Option Bytes → Prog (Unit {0})
unfolding message_strings ack_strings sent_line acknowledge
deliver ip port receiver sender msg_id message file_name = do
  send (push ip (port_of port) (message_strings sender (print_unsigned msg_id) message file_name))
  send (console (sent_line (print_unsigned msg_id) sender receiver))
  deleted ← call (λ r d. db_delete_message r receiver msg_id d)
  acknowledge sender (ack_strings (print_unsigned msg_id) file_name)

unfoldable pub stored : Bytes → Bytes → ℕ → Prog (Unit {0})
unfolding stored_line
stored receiver sender msg_id = send (console (stored_line (print_unsigned msg_id) sender receiver))

-- The part of f_send behind db_store_message.
unfoldable pub forward : Bytes → Bytes → Bytes → Option Bytes → Prepared → Prog (Unit {0})
unfolding deliver stored
forward sender receiver message file_name p =
    if p.recv_connected == 1
    then reach p.recv_ip (port_of p.recv_port) (λ reached.
      if reached
      then deliver p.recv_ip p.recv_port receiver sender p.msg_id message file_name
      else (drop_user receiver >> stored receiver sender p.msg_id))
    else stored receiver sender p.msg_id

unfoldable pub send_reply : Bytes → Bytes → Bytes → ℕ × Prepared → Prog (Unit {0})
unfolding forward
send_reply sender receiver message (res, p) = do
  send (reply (res ∷ []))
  if not (res == 0)
      then send (console (codes "s> SEND FAIL\n")) >> send (rpc sender (codes "SEND") [])
      else (do
        send (reply (print_unsigned p.msg_id ++ 0 ∷ []))
        send (rpc sender (codes "SEND") [])
        code ← call (λ r d. db_store_message r receiver sender p.msg_id message none d)
        forward sender receiver message none p)

-- `unset` is what the local variables hold before they are written.
unfoldable pub f_send : Prepared → Bytes → Bytes → Bytes → Prog (Unit {0})
unfolding send_reply
f_send unset user_name destinatario message = do
  prepared ← call (λ r d.
      let (code, p, d') = db_prepare_message r user_name destinatario unset d in ((code, p), d'))
  send_reply user_name destinatario message prepared

sendattach_reply : Bytes → Bytes → Bytes → Bytes → ℕ × Prepared → Prog (Unit {0})
unfolding forward
sendattach_reply sender receiver message file_name (res, p) = do
  send (reply (res ∷ []))
  if not (res == 0)
      then send (console (codes "s> SENDATTACH FAIL\n"))
        >> send (rpc sender (codes "SENDATTACH") file_name)
      else (do
        send (reply (print_unsigned p.msg_id ++ 0 ∷ []))
        send (rpc sender (codes "SENDATTACH") file_name)
        code ← call (λ r d. db_store_message r receiver sender p.msg_id message (some file_name) d)
        forward sender receiver message (some file_name) p)

unfoldable pub f_sendattach : Prepared → Bytes → Bytes → Bytes → Bytes → Prog (Unit {0})
unfolding sendattach_reply
f_sendattach unset user_name destinatario message file_name = do
  prepared ← call (λ r d.
      let (code, p, d') = db_prepare_message r user_name destinatario unset d in ((code, p), d'))
  sendattach_reply user_name destinatario message file_name prepared
