-- ===== src/Parte1/Agreement.antt =====
-- The handlers of parte1 beside those of parte2, which readme.md describes as an extension.
use messaging_service.Prelude.{
  ℕ, Bool-cases, inl, inr, ◌≡◌, refl, ap, ◌∙◌, sym, Bool, true, false, Option, none, some, List, [],
  ◌∷◌, ◌++◌, Bytes, if◌then◌else◌, ◌==◌, codes, not,
}
use messaging_service.Text.Chars.{streq}
use messaging_service.Text.Decimal.{print_unsigned}
use messaging_service.Disk.{Disk, Refusals, PendingMsg}
use messaging_service.Database.Prepare.{Prepared, db_prepare_message}
use messaging_service.Database.Accounts.{db_connect}
use messaging_service.Database.Mail
use messaging_service.Database.Mail.{db_delete_message, db_get_pending_messages}
use messaging_service.Database.Online
use messaging_service.Database.Online.{UserInfo, get_user_info}
use messaging_service.Program.{reply, console, Prog, emit, ◌>>◌}
use messaging_service.Handlers
use messaging_service.Handlers.Delivery.{port_of, drop_user, acknowledge, ack_to, message_strings}
use messaging_service.Handlers.Delivery
use messaging_service.Handlers.Connect
use messaging_service.Parte1.{db_store_message, db_get_connected_users}
use messaging_service.Parte1.Handlers.{
  f_register, f_unregister, disconnect_from, f_disconnect, f_send, send_reply, forward, stored,
  deliver, f_connect, refuse_disconnect, connected, deliver_loop, deliver_round,
}
use messaging_service.Parte1.Plain.{plain, atomic-ext, reach-ext, plain-bind}
use messaging_service.Parte1.Listings.{Same, db_get_connected_users-Same}
use messaging_service.Parte1.Delivered.{deliver-plain}

pub register-plain : (n : Bytes) → f_register n ≡ plain (Handlers.f_register n)
unfolding f_register Handlers.f_register plain
register-plain n = refl

pub unregister-plain : (n : Bytes) → f_unregister n ≡ plain (Handlers.f_unregister n)
unfolding f_unregister Handlers.f_unregister plain
unregister-plain n = refl

disconnect_from-plain :
    (n ip : Bytes) (u : Option UserInfo)
    → disconnect_from n ip u ≡ plain (Handlers.disconnect_from n ip u)
unfolding disconnect_from refuse_disconnect Handlers.disconnect_from Handlers.refuse_disconnect
    plain
disconnect_from-plain n ip none = refl
disconnect_from-plain n ip (some u) = elim (Bool-cases (not (streq ip u.ip))) [
  | inl e ↦ rw e refl
  | inr e ↦ rw e refl
]

pub disconnect-plain :
    (peer : Option Bytes) (n : Bytes) → f_disconnect peer n ≡ plain (Handlers.f_disconnect peer n)
unfolding f_disconnect Handlers.f_disconnect refuse_disconnect Handlers.refuse_disconnect plain
disconnect-plain none n = refl
disconnect-plain (some ip) n =
    atomic-ext _ _ _ (λ r d. disconnect_from-plain n ip (get_user_info r n d))

forward-plain :
    (a b m : Bytes) (f : Option Bytes) (p : Prepared)
    → forward a b m p ≡ plain (Delivery.forward a b m f p)
unfolding forward stored Delivery.forward Delivery.stored Delivery.stored_line plain
forward-plain a b m f p = elim (Bool-cases (p.recv_connected == 1)) [
  | inl e ↦ rw e (reach-ext p.recv_ip (port_of p.recv_port) _ _ branch)
  | inr e ↦ rw e refl
]
  where
    branch :
        (x : Bool)
        → (if x
            then deliver p.recv_ip p.recv_port b a p.msg_id m
            else (drop_user b >> stored b a p.msg_id))
          ≡ plain (
              if x
              then Delivery.deliver p.recv_ip p.recv_port b a p.msg_id m f
              else (drop_user b >> Delivery.stored b a p.msg_id))
    branch true = deliver-plain p.recv_ip p.recv_port b a p.msg_id m f
    branch false = refl

send_reply-plain :
    (a b m : Bytes) (res : ℕ × Prepared)
    → send_reply a b m res ≡ plain (Delivery.send_reply a b m res)
unfolding send_reply Delivery.send_reply Mail.db_store_message db_store_message Mail.pending_msg
    plain
send_reply-plain a b m (c, p) = elim (Bool-cases (not (c == 0))) [
  | inl e ↦ rw e refl
  | inr e ↦ rw e (
      ap (λ x. emit (reply (c ∷ [])) (emit (reply (print_unsigned p.msg_id ++ 0 ∷ [])) x))
        (atomic-ext (λ r d. (db_store_message r b a p.msg_id m d).1) _ _
          (λ r d. forward-plain a b m none p)))
]

pub send-plain :
    (unset : Prepared) (a b m : Bytes) → f_send unset a b m ≡ plain (Delivery.f_send unset a b m)
unfolding f_send Delivery.f_send plain
send-plain unset a b m =
    atomic-ext (λ r d. (db_prepare_message r a b unset d).2) _ _
      (λ r d.
        send_reply-plain a b m
          ((db_prepare_message r a b unset d).0, (db_prepare_message r a b unset d).1))

deliver_loop-plain :
    (n ip : Bytes) (port : ℕ) (ms : List PendingMsg)
    → deliver_loop n ip port ms ≡ plain (Connect.deliver_loop n ip port ms)
unfolding deliver_loop deliver_round Connect.deliver_loop Connect.deliver_round plain
deliver_loop-plain n ip port [] = refl
deliver_loop-plain n ip port (m ∷ ms) =
    reach-ext ip (port_of port) _ _ (branch (deliver_loop-plain n ip port ms))
  where
    delivered : Prog (Unit {0})
    delivered = Delivery.deliver ip port n m.sender m.id m.message (Connect.attachment m)

    branch :
        deliver_loop n ip port ms ≡ plain (Connect.deliver_loop n ip port ms)
        → (x : Bool)
        → (if x
            then (deliver ip port n m.sender m.id m.message >> deliver_loop n ip port ms)
            else drop_user n)
          ≡ plain (
              if x
              then (Delivery.deliver ip port n m.sender m.id m.message (Connect.attachment m)
                  >> Connect.deliver_loop n ip port ms)
              else drop_user n)
    branch rest true =
        ap (λ x. x >> deliver_loop n ip port ms)
          (deliver-plain ip port n m.sender m.id m.message (Connect.attachment m))
        ∙ ap (λ x. plain delivered >> x) rest
        ∙ sym (plain-bind delivered (λ u. Connect.deliver_loop n ip port ms))
    branch rest false = refl

connected-plain :
    (n ip : Bytes) (port c : ℕ) → connected n ip port c ≡ plain (Connect.connected n ip port c)
unfolding connected Connect.connected plain
connected-plain n ip port c = elim (Bool-cases (c == 0)) [
  | inl e ↦ rw e (
      ap (emit (console (codes "s> CONNECT " ++ n ++ codes " OK\n"))) (
        atomic-ext (λ r d. d) _ _
          (λ r d. deliver_loop-plain n ip port (db_get_pending_messages r n d))))
  | inr e ↦ rw e refl
]

pub connect-plain :
    (peer : Option Bytes) (n : Bytes) (port : ℕ)
    → f_connect peer n port ≡ plain (Connect.f_connect peer n port)
unfolding f_connect Connect.f_connect plain
connect-plain none n port = refl
connect-plain (some ip) n port =
    atomic-ext (λ r d. (db_connect r n ip port d).1) _ _
      (λ r d.
        ap (emit (reply ((db_connect r n ip port d).0 ∷ [])))
          (connected-plain n ip port (db_connect r n ip port d).0))

-- The handlers of parte1 for REGISTER, UNREGISTER, CONNECT, DISCONNECT and SEND take the steps of
-- those of parte2, with the calls of the log left out and the strings to listeners without the file
-- name and with the acknowledgement spelled "SEND MESS_ACK". On every disk db_get_connected_users of
-- parte1 returns the result and the number of users of parte2's.
pub parte1-plain :
    (peer : Option Bytes) (unset : Prepared) (n b m : Bytes) (port : ℕ)
    → (f_register n ≡ plain (Handlers.f_register n))
      × (f_unregister n ≡ plain (Handlers.f_unregister n))
      × (f_connect peer n port ≡ plain (Connect.f_connect peer n port))
      × (f_disconnect peer n ≡ plain (Handlers.f_disconnect peer n))
      × (f_send unset n b m ≡ plain (Delivery.f_send unset n b m))
      × ((r : Refusals) (d : Disk)
          → Same (db_get_connected_users r n d) (Online.db_get_connected_users r n d))
parte1-plain peer unset n b m port = (
  register-plain n,
  unregister-plain n,
  connect-plain peer n port,
  disconnect-plain peer n,
  send-plain unset n b m,
  λ r d. db_get_connected_users-Same r n d,
)
