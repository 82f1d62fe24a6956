-- ===== src/Handlers/Delivery/Mail.antt =====
-- funciones.c: f_send, f_sendattach and the delivery of a message, and what they do to the message files.
use mathlib.Core.List.{Memᴰ}
use messaging_service.Prelude.{
  ℕ, refl, inr, ◌++◌, [], ◌∷◌, Option, none, some, List, ◌==◌, not, Bytes,
}
use messaging_service.Text.Decimal.{print_unsigned}
use messaging_service.Disk.{Disk, Refusals}
use messaging_service.Database.Accounts.{db_disconnect}
use messaging_service.Database.Accounts.Frame.{db_disconnect-messages}
use messaging_service.Database.Prepare.{Prepared, db_prepare_message}
use messaging_service.Database.Prepare.Frame.{db_prepare_message-messages}
use messaging_service.Database.Mail.{pending_msg, db_store_message, db_delete_message}
use messaging_service.Database.Mail.Laws.{db_store_message_appends, db_delete_message_keeps}
use messaging_service.Database.Mail.Commands.{MailCommand, stores, deletes, command, Changes}
use messaging_service.Database.Online.{UserInfo, get_user_info}
use messaging_service.Program.{push, reply}
use messaging_service.Program.Mail.{Log, AllMail, KeepsMail, if-KeepsMail, same_files}
use messaging_service.Handlers.Delivery.{
  port_of, message_strings, ack_strings, drop_user, ack_to, acknowledge, deliver, stored, forward,
  send_reply, f_send, sendattach_reply, f_sendattach,
}

-- A message with the id has gone to a listener.
abbrev pub Handed : Log → ℕ → Type 0
Handed l i =
    (ip : Bytes) × (port : ℕ) × (sender : Bytes) × (text : Bytes) × (file : Option Bytes) × Memᴰ
      (push ip port (message_strings sender (print_unsigned i) text file)) l

-- The client has been told the id.
abbrev pub Told : Log → ℕ → Type 0
Told l i = Memᴰ (reply (print_unsigned i ++ 0 ∷ [])) l

db_store_message-Changes :
    {Q : MailCommand → Type 0} (r : Refusals) (b a : Bytes) (i : ℕ) (m : Bytes) (f : Option Bytes)
    (d : Disk)
    → AllMail r
    → Q (stores b (pending_msg a i m f))
    → Changes Q d (db_store_message r b a i m f d).1
unfolding command
db_store_message-Changes r b a i m f d w q =
    inr (
      stores b (pending_msg a i m f),
      q,
      λ j. (db_store_message_appends r b a i m f d j (w b).add).0,
    )

db_delete_message-Changes :
    {Q : MailCommand → Type 0} (r : Refusals) (b : Bytes) (i : ℕ) (d : Disk)
    → AllMail r
    → Q (deletes b i)
    → Changes Q d (db_delete_message r b i d).1
unfolding command
db_delete_message-Changes r b i d w q =
    inr (deletes b i, q, λ j. (db_delete_message_keeps r b i d j (w b)).0)

module _ (P : Log → MailCommand → Type 0) where
  pub drop_user-KeepsMail : (l : Log) (n : Bytes) → KeepsMail P l (drop_user n)
  unfolding KeepsMail
  drop_user-KeepsMail l n =
      λ r d a. (same_files d (db_disconnect r n d).1 (db_disconnect-messages r n d), tt)

  ack_to-KeepsMail :
      (l : Log) (n : Bytes) (s : List Bytes) (u : Option UserInfo) → KeepsMail P l (ack_to n s u)
  unfolding ack_to KeepsMail
  ack_to-KeepsMail l n s none = tt
  ack_to-KeepsMail l n s (some u) =
      if-KeepsMail P l (u.connected == 1) _ _
        (λ b. if-KeepsMail P l b _ _ tt (drop_user-KeepsMail l n)) tt

-- The messages of `b` may be deleted once they have been handed over.
module _ (P : Log → MailCommand → Type 0) (b : Bytes)
    (hands : (l : Log) (i : ℕ) → Handed l i → P l (deletes b i)) where
  pub deliver-KeepsMail :
      (l : Log) (ip : Bytes) (port : ℕ) (a : Bytes) (i : ℕ) (m : Bytes) (f : Option Bytes)
      → KeepsMail P l (deliver ip port b a i m f)
  unfolding deliver acknowledge KeepsMail
  deliver-KeepsMail l ip port a i m f = λ r d w. (
    db_delete_message-Changes r b i d w
        (hands _ i (ip, port_of port, a, m, f, Memᴰ.tail (Memᴰ.head refl))),
    λ r' d' w'. (
      same_files d' d' refl,
      ack_to-KeepsMail P _ a (ack_strings (print_unsigned i) f) (get_user_info r' a d'),
    ),
  )

  forward-KeepsMail :
      (l : Log) (a m : Bytes) (f : Option Bytes) (p : Prepared) → KeepsMail P l (forward a b m f p)
  unfolding forward stored KeepsMail
  forward-KeepsMail l a m f p =
      if-KeepsMail P l (p.recv_connected == 1) _ _
        (λ x.
          if-KeepsMail P l x _ _ (deliver-KeepsMail l p.recv_ip p.recv_port a p.msg_id m f)
            (drop_user-KeepsMail P l b))
        tt

  pub f_send-KeepsMail :
      (l : Log) (unset : Prepared) (a m : Bytes)
      → ((l : Log) (i : ℕ) → Told l i → P l (stores b (pending_msg a i m none)))
      → KeepsMail P l (f_send unset a b m)
  unfolding f_send send_reply KeepsMail
  f_send-KeepsMail l unset a m told = λ r d w. (
    same_files d (db_prepare_message r a b unset d).2 (db_prepare_message-messages r a b unset d),
    if-KeepsMail P _ (not ((db_prepare_message r a b unset d).0 == 0)) _ _ tt (λ r' d' w'. (
      db_store_message-Changes r' b a (db_prepare_message r a b unset d).1.msg_id m none d' w'
          (told _ (db_prepare_message r a b unset d).1.msg_id (Memᴰ.tail (Memᴰ.head refl))),
      forward-KeepsMail _ a m none (db_prepare_message r a b unset d).1,
    )),
  )

  pub f_sendattach-KeepsMail :
      (l : Log) (unset : Prepared) (a m f : Bytes)
      → ((l : Log) (i : ℕ) → Told l i → P l (stores b (pending_msg a i m (some f))))
      → KeepsMail P l (f_sendattach unset a b m f)
  unfolding f_sendattach sendattach_reply KeepsMail
  f_sendattach-KeepsMail l unset a m f told = λ r d w. (
    same_files d (db_prepare_message r a b unset d).2 (db_prepare_message-messages r a b unset d),
    if-KeepsMail P _ (not ((db_prepare_message r a b unset d).0 == 0)) _ _ tt (λ r' d' w'. (
      db_store_message-Changes r' b a (db_prepare_message r a b unset d).1.msg_id m (some f) d' w'
          (told _ (db_prepare_message r a b unset d).1.msg_id (Memᴰ.tail (Memᴰ.head refl))),
      forward-KeepsMail _ a m (some f) (db_prepare_message r a b unset d).1,
    )),
  )
