-- ===== src/Handlers/Delivery/Tables.antt =====
-- funciones.c: f_send, f_sendattach and the delivery of a message, and what they do to usuarios.txt.
use messaging_service.Prelude.{refl, ℕ, Option, none, some, List, ◌==◌, not, Bytes}
use messaging_service.Text.Decimal.{print_unsigned}
use messaging_service.Database.Prepare.{Prepared, db_prepare_message}
use messaging_service.Database.Prepare.Refinement.{db_prepare_message-Refines}
use messaging_service.Database.Mail.Frame.{db_store_message-users, db_delete_message-users}
use messaging_service.Database.Online.{UserInfo, get_user_info}
use messaging_service.Disk.{Disk, Refusals}
use messaging_service.Directory.{UsersAllowed}
use messaging_service.Directory.Commands.{
  Command, disconnects, prepares, perform, Evolves, no_command, one_command,
}
use messaging_service.Program.Tables.{HoldsTable, KeepsTable, if-KeepsTable}
use messaging_service.Handlers.Tables.{db_disconnect-Evolves}
use messaging_service.Handlers.Delivery.{
  ack_strings, drop_user, ack_to, acknowledge, deliver, stored, forward, send_reply, f_send,
  sendattach_reply, f_sendattach,
}

module _ (P : Command → Type 0) (drops : (n : Bytes) → P (disconnects n)) where
  pub drop_user-KeepsTable : (n : Bytes) → KeepsTable P (drop_user n)
  unfolding KeepsTable
  drop_user-KeepsTable n = λ r d a t. (db_disconnect-Evolves P n r d (drops n) a t, tt)

  ack_to-KeepsTable :
      (n : Bytes) (s : List Bytes) (u : Option UserInfo) → KeepsTable P (ack_to n s u)
  unfolding ack_to KeepsTable
  ack_to-KeepsTable n s none = tt
  ack_to-KeepsTable n s (some u) =
      if-KeepsTable P (u.connected == 1) _ _
        (λ b. if-KeepsTable P b _ _ tt (drop_user-KeepsTable n)) tt

  pub deliver-KeepsTable :
      (ip : Bytes) (port : ℕ) (receiver sender : Bytes) (i : ℕ) (text : Bytes) (f : Option Bytes)
      → KeepsTable P (deliver ip port receiver sender i text f)
  unfolding deliver acknowledge KeepsTable
  deliver-KeepsTable ip port receiver sender i text f = λ r d a t. (
    no_command d _ t.table (db_delete_message-users r receiver i d) t.represents,
    λ r' d' a' t'. (
      no_command d' d' t'.table refl t'.represents,
      ack_to-KeepsTable sender (ack_strings (print_unsigned i) f) (get_user_info r' sender d'),
    ),
  )

  forward-KeepsTable :
      (a b m : Bytes) (f : Option Bytes) (p : Prepared) → KeepsTable P (forward a b m f p)
  unfolding forward stored KeepsTable
  forward-KeepsTable a b m f p =
      if-KeepsTable P (p.recv_connected == 1) _ _
        (λ x.
          if-KeepsTable P x _ _ (deliver-KeepsTable p.recv_ip p.recv_port b a p.msg_id m f)
            (drop_user-KeepsTable b))
        tt

  send_reply-KeepsTable : (a b m : Bytes) (res : ℕ × Prepared) → KeepsTable P (send_reply a b m res)
  unfolding send_reply KeepsTable
  send_reply-KeepsTable a b m (res, p) = if-KeepsTable P (not (res == 0)) _ _ tt (λ r d x t. (
    no_command d _ t.table (db_store_message-users r b a p.msg_id m none d) t.represents,
    forward-KeepsTable a b m none p,
  ))

  sendattach_reply-KeepsTable :
      (a b m f : Bytes) (res : ℕ × Prepared) → KeepsTable P (sendattach_reply a b m f res)
  unfolding sendattach_reply KeepsTable
  sendattach_reply-KeepsTable a b m f (res, p) = if-KeepsTable P (not (res == 0)) _ _ tt (λ r d x t.
      (
        no_command d _ t.table (db_store_message-users r b a p.msg_id m (some f) d) t.represents,
        forward-KeepsTable a b m (some f) p,
      ))

  db_prepare_message-Evolves :
      (unset : Prepared) (a b : Bytes) (r : Refusals) (d : Disk)
      → P (prepares a b)
      → UsersAllowed r
      → (t : HoldsTable d) → Evolves P t.table (db_prepare_message r a b unset d).2
  unfolding perform
  db_prepare_message-Evolves unset a b r d h x t =
      let f = db_prepare_message-Refines r a b unset d t.table x t.represents in
      one_command (prepares a b) t.table f.table _ h f.represents f.view

  pub f_send-KeepsTable :
      (unset : Prepared) (a b m : Bytes) → P (prepares a b) → KeepsTable P (f_send unset a b m)
  unfolding f_send KeepsTable
  f_send-KeepsTable unset a b m h = λ r d x t. (
    db_prepare_message-Evolves unset a b r d h x t,
    send_reply-KeepsTable a b m
        ((db_prepare_message r a b unset d).0, (db_prepare_message r a b unset d).1),
  )

  pub f_sendattach-KeepsTable :
      (unset : Prepared) (a b m f : Bytes)
      → P (prepares a b)
      → KeepsTable P (f_sendattach unset a b m f)
  unfolding f_sendattach KeepsTable
  f_sendattach-KeepsTable unset a b m f h = λ r d x t. (
    db_prepare_message-Evolves unset a b r d h x t,
    sendattach_reply-KeepsTable a b m f
        ((db_prepare_message r a b unset d).0, (db_prepare_message r a b unset d).1),
  )
