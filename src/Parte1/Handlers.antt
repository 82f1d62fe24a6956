-- ===== src/Parte1/Handlers.antt =====
-- parte1/server/src/c_files/funciones.c.
use messaging_service.Prelude.{
  ℕ, false, Option, none, some, List, [], ◌∷◌, ◌++◌, Bytes, if◌then◌else◌, ◌==◌, codes, not,
}
use messaging_service.Text.Chars.{streq}
use messaging_service.Text.Decimal.{print_unsigned}
use messaging_service.Text.Scan.{print_int}
use messaging_service.Disk.{PendingMsg}
use messaging_service.Database.Prepare.{Prepared}
use messaging_service.Database.Online.{Listing, UserInfo}
use messaging_service.Parte1.Shared.{
  db_register, db_unregister, db_connect, db_disconnect, db_prepare_message, db_delete_message,
  db_get_pending_messages, get_user_info,
}
use messaging_service.Program.{
  Prog, ret, emit, reach, push, console, reply, ◌>>=◌, ◌>>◌, send, call, look,
}
use messaging_service.Handlers.{report, reply_code, reply_string}
use messaging_service.Handlers.Delivery.{port_of, drop_user, acknowledge}
use messaging_service.Parte1.{db_store_message, db_get_connected_users}

unfoldable pub f_register : Bytes → Prog (Unit {0})
f_register user_name = do
  resultado ← call (λ r d. db_register r user_name d)
  report (codes "REGISTER") user_name (resultado == 0)
  reply_code resultado

unfoldable pub f_unregister : Bytes → Prog (Unit {0})
f_unregister user_name = do
  resultado ← call (λ r d. db_unregister r user_name d)
  report (codes "UNREGISTER") user_name (resultado == 0)
  reply_code resultado

unfoldable pub refuse_disconnect : Bytes → ℕ → Prog (Unit {0})
refuse_disconnect user_name code = do reply_code code; report (codes "DISCONNECT") user_name false

unfoldable pub disconnect_from : Bytes → Bytes → Option UserInfo → Prog (Unit {0})
unfolding refuse_disconnect
disconnect_from user_name ip_cliente none = refuse_disconnect user_name 1
disconnect_from user_name ip_cliente (some registered) =
    if not (streq ip_cliente registered.ip) then refuse_disconnect user_name 3 else do
      res ← call (λ r d. db_disconnect r user_name d)
      reply_code res
      report (codes "DISCONNECT") user_name (res == 0)

unfoldable pub f_disconnect : Option Bytes → Bytes → Prog (Unit {0})
unfolding refuse_disconnect disconnect_from
f_disconnect none user_name = refuse_disconnect user_name 3
f_disconnect (some ip_cliente) user_name = do
  registered ← look (λ r d. get_user_info r user_name d)
  disconnect_from user_name ip_cliente registered

unfoldable pub reply_strings : List Bytes → Prog (Unit {0})
reply_strings [] = ret tt
reply_strings (s ∷ list) = emit (reply (s ++ 0 ∷ [])) (reply_strings list)

unfoldable pub users_reply : Listing → Prog (Unit {0})
unfolding reply_strings
users_reply res =
    reply_code res.code
    >> (if res.code == 0
        then (do
          reply_string (print_int res.num_users)
          reply_strings res.users_list
          send (console (codes "s> CONNECTEDUSERS OK\n")))
        else send (console (codes "s> CONNECTEDUSERS FAIL\n")))

unfoldable pub f_users : Bytes → Prog (Unit {0})
unfolding users_reply
f_users user_name = do res ← look (λ r d. db_get_connected_users r user_name d); users_reply res

-- The acknowledgement is spelled with a blank.
abbrev pub ack_strings : Bytes → List Bytes
ack_strings id_str = codes "SEND MESS_ACK" ∷ id_str ∷ []

unfoldable pub deliver : Bytes → ℕ → Bytes → Bytes → ℕ → Bytes → Prog (Unit {0})
unfolding acknowledge
deliver ip port receiver sender msg_id message = do
  send (
      push ip (port_of port) (codes "SEND_MESSAGE" ∷ sender ∷ print_unsigned msg_id ∷ message ∷ []))
  send (
      console (
        codes "s> SEND MESSAGE "
        ++ print_unsigned msg_id
        ++ codes " FROM "
        ++ sender
        ++ codes " TO "
        ++ receiver
        ++ codes "\n"))
  deleted ← call (λ r d. db_delete_message r receiver msg_id d)
  acknowledge sender (ack_strings (print_unsigned msg_id))

unfoldable pub stored : Bytes → Bytes → ℕ → Prog (Unit {0})
stored receiver sender msg_id = send (
    console (
      codes "s> MESSAGE "
      ++ print_unsigned msg_id
      ++ codes " FROM "
      ++ sender
      ++ codes " TO "
      ++ receiver
      ++ codes " STORED\n"))

unfoldable pub forward : Bytes → Bytes → Bytes → Prepared → Prog (Unit {0})
unfolding deliver stored
forward sender receiver message p =
    if p.recv_connected == 1
    then reach p.recv_ip (port_of p.recv_port) (λ reached.
      if reached
      then deliver p.recv_ip p.recv_port receiver sender p.msg_id message
      else (drop_user receiver >> stored receiver sender p.msg_id))
    else stored receiver sender p.msg_id

unfoldable pub send_reply : Bytes → Bytes → Bytes → ℕ × Prepared → Prog (Unit {0})
unfolding forward
send_reply sender receiver message (res, p) = do
  send (reply (res ∷ []))
  if not (res == 0) then send (console (codes "s> SEND FAIL\n")) else (do
    send (reply (print_unsigned p.msg_id ++ 0 ∷ []))
    code ← call (λ r d. db_store_message r receiver sender p.msg_id message d)
    forward sender receiver message p)

unfoldable pub f_send : Prepared → Bytes → Bytes → Bytes → Prog (Unit {0})
unfolding send_reply
f_send unset user_name destinatario message = do
  prepared ← call (λ r d.
      let (code, p, d') = db_prepare_message r user_name destinatario unset d in ((code, p), d'))
  send_reply user_name destinatario message prepared

unfoldable pub deliver_round : Bytes → Bytes → ℕ → PendingMsg → Prog (Unit {0}) → Prog (Unit {0})
unfolding deliver
deliver_round user_name ip port m rest = reach ip (port_of port) (λ reached.
    if reached
    then (deliver ip port user_name m.sender m.id m.message >> rest)
    else drop_user user_name)

unfoldable pub deliver_loop : Bytes → Bytes → ℕ → List PendingMsg → Prog (Unit {0})
unfolding deliver_round
deliver_loop user_name ip port [] = ret tt
deliver_loop user_name ip port (m ∷ ms) =
    deliver_round user_name ip port m (deliver_loop user_name ip port ms)

unfoldable pub connected : Bytes → Bytes → ℕ → ℕ → Prog (Unit {0})
unfolding deliver_loop
connected user_name ip_str puerto_escucha res =
    if res == 0
    then (do
      send (console (codes "s> CONNECT " ++ user_name ++ codes " OK\n"))
      msgs ← look (λ r d. db_get_pending_messages r user_name d)
      deliver_loop user_name ip_str puerto_escucha msgs)
    else send (console (codes "s> CONNECT " ++ user_name ++ codes " FAIL\n"))

unfoldable pub f_connect : Option Bytes → Bytes → ℕ → Prog (Unit {0})
unfolding connected
f_connect none user_name puerto_escucha = do
  send (reply (3 ∷ []))
  send (console (codes "s> CONNECT " ++ user_name ++ codes " FAIL\n"))
f_connect (some ip_str) user_name puerto_escucha = do
  res ← call (λ r d. db_connect r user_name ip_str puerto_escucha d)
  send (reply (res ∷ []))
  connected user_name ip_str puerto_escucha res
