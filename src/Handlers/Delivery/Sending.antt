-- ===== src/Handlers/Delivery/Sending.antt =====
-- funciones.c: f_send and f_sendattach behind db_prepare_message.
pub mod Accepted
use messaging_service.Prelude.{
  ℕ, suc, ◌≡◌, ◌≢◌, refl, ap, sym, ◌∙◌, Bool, true, false, Option, none, some, inl, inr, ◌⊎◌, List,
  [], ◌∷◌, ◌++◌, Bytes, if◌then◌else◌, ◌==◌, not, codes, arith, Bool-cases, Option-cases,
}
use messaging_service.Text.Chars.{streq, streq_refl, streq_iff}
use messaging_service.Text.Decimal.{print_unsigned}
use messaging_service.Users.{User}
use messaging_service.Users.Table.{Table, lookup}
use messaging_service.Disk.{Disk, Refusals, PendingMsg}
use messaging_service.Directory.{Represents, UsersAllowed, following_id}
use messaging_service.Database.Accounts.Frame.{db_disconnect-messages}
use messaging_service.Database.Prepare.{Prepared, db_prepare_message}
use messaging_service.Database.Prepare.Refinement.{db_prepare_message-Answers, Answers}
use messaging_service.Database.Prepare.Frame.{db_prepare_message-messages}
use messaging_service.Database.Mail.{pending_msg, db_store_message, db_delete_message}
use messaging_service.Database.Mail.Laws.{
  MailAllowed, Unused, mailbox, db_store_message_appends, delete-store,
}
use messaging_service.Database.Online.{UserInfo, get_user_info}
use messaging_service.Program.{Outside, Outcome, run, run-reach, replies, pushes, Prog}
use messaging_service.Handlers.Replies.{AlwaysAllowed}
use messaging_service.Handlers.Delivery.{
  port_of, drop_user, ack_to, acknowledge, deliver, stored, forward, send_reply, f_send,
  sendattach_reply, f_sendattach, message_strings, ack_strings,
}

-- The message files of the user can always be opened.
pub record AlwaysMail (o : ℕ → Outside) (n : Bytes) : Type 0 where
  pub at_step : (i : ℕ) → MailAllowed (o i).refuses n

ack_to-messages :
    (sender : Bytes) (s : List Bytes) (u : Option UserInfo) (o : ℕ → Outside) (i : ℕ) (d : Disk)
    → (run (ack_to sender s u) o i d).disk.messages ≡ d.messages
unfolding ack_to
ack_to-messages sender s none o i d = unfold run in refl
ack_to-messages sender s (some u) o i d = elim (Bool-cases (u.connected == 1)) [
  | inl e ↦ rw e (elim (Bool-cases ((o i).reaches u.ip (port_of u.port))) [
    | inl r ↦ rw (run-reach _ _ _ o i d true r) (unfold run in refl)
    | inr r ↦
        rw (run-reach _ _ _ o i d false r)
          (unfold run in db_disconnect-messages (o (suc i)).refuses sender d)
  ])
  | inr e ↦ rw e (unfold run in refl)
]

pub acknowledge-messages :
    (sender : Bytes) (s : List Bytes) (o : ℕ → Outside) (i : ℕ) (d : Disk)
    → (run (acknowledge sender s) o i d).disk.messages ≡ d.messages
unfolding acknowledge run
acknowledge-messages sender s o i d =
    ack_to-messages sender s (get_user_info (o i).refuses sender d) o (suc i) d

-- Nothing is sent to a listener, and the message files stay as they are, where the receiver is not
-- marked as connected or cannot be reached.
forward_waits :
    (a b m : Bytes) (f : Option Bytes) (p : Prepared) (o : ℕ → Outside) (i : ℕ) (d : Disk)
    → (p.recv_connected == 1 ≡ false) ⊎ ((o i).reaches p.recv_ip (port_of p.recv_port) ≡ false)
    → (pushes (run (forward a b m f p) o i d).events ≡ [])
      × ((run (forward a b m f p) o i d).disk.messages ≡ d.messages)
unfolding forward
forward_waits a b m f p o i d (inl e) = rw e (unfold run pushes stored in (refl, refl))
forward_waits a b m f p o i d (inr e) = elim (Bool-cases (p.recv_connected == 1)) [
  | inl c ↦ rw c (
      rw (run-reach _ _ _ o i d false e)
        (unfold run pushes stored in (refl, db_disconnect-messages (o (suc i)).refuses b d)))
  | inr c ↦ rw c (unfold run pushes stored in (refl, refl))
]

-- Else the strings of the message go to the receiver's listener first, and the message files are
-- those behind the deletion of the stored copy.
forward_delivers :
    (a b m : Bytes) (f : Option Bytes) (p : Prepared) (o : ℕ → Outside) (i : ℕ) (d : Disk)
    → p.recv_connected == 1 ≡ true
    → (o i).reaches p.recv_ip (port_of p.recv_port) ≡ true
    → ((rest : List (Bytes × ℕ × List Bytes)) × (pushes (run (forward a b m f p) o i d).events
          ≡ (p.recv_ip, port_of p.recv_port, message_strings a (print_unsigned p.msg_id) m f)
            ∷ rest))
      × ((run (forward a b m f p) o i d).disk.messages
          ≡ (db_delete_message (o (suc i)).refuses b p.msg_id d).1.messages)
unfolding forward
forward_delivers a b m f p o i d c e = rw c (
    rw (run-reach _ _ _ o i d true e) (
      unfold run pushes deliver in
      (
        (_, refl),
        acknowledge-messages a (ack_strings (print_unsigned p.msg_id) f) o (suc (suc i))
            (db_delete_message (o (suc i)).refuses b p.msg_id d).1,
      )))

-- The one who sends is told nothing more once the message is stored.
ack_to-replies :
    (sender : Bytes) (s : List Bytes) (u : Option UserInfo) (o : ℕ → Outside) (i : ℕ) (d : Disk)
    → replies (run (ack_to sender s u) o i d).events ≡ []
unfolding ack_to
ack_to-replies sender s none o i d = unfold run replies in refl
ack_to-replies sender s (some u) o i d = elim (Bool-cases (u.connected == 1)) [
  | inl e ↦ rw e (elim (Bool-cases ((o i).reaches u.ip (port_of u.port))) [
    | inl r ↦ rw (run-reach _ _ _ o i d true r) (unfold run replies in refl)
    | inr r ↦ rw (run-reach _ _ _ o i d false r) (unfold run replies in refl)
  ])
  | inr e ↦ rw e (unfold run replies in refl)
]

pub acknowledge-replies :
    (sender : Bytes) (s : List Bytes) (o : ℕ → Outside) (i : ℕ) (d : Disk)
    → replies (run (acknowledge sender s) o i d).events ≡ []
unfolding acknowledge run
acknowledge-replies sender s o i d =
    ack_to-replies sender s (get_user_info (o i).refuses sender d) o (suc i) d

forward-replies :
    (a b m : Bytes) (f : Option Bytes) (p : Prepared) (o : ℕ → Outside) (i : ℕ) (d : Disk)
    → replies (run (forward a b m f p) o i d).events ≡ []
unfolding forward
forward-replies a b m f p o i d = elim (Bool-cases (p.recv_connected == 1)) [
  | inl c ↦ rw c (elim (Bool-cases ((o i).reaches p.recv_ip (port_of p.recv_port))) [
    | inl r ↦ rw (run-reach _ _ _ o i d true r) (
        unfold run replies deliver in
        acknowledge-replies a (ack_strings (print_unsigned p.msg_id) f) o (suc (suc i))
          (db_delete_message (o (suc i)).refuses b p.msg_id d).1)
    | inr r ↦ rw (run-reach _ _ _ o i d false r) (unfold run replies stored in refl)
  ])
  | inr c ↦ rw c (unfold run replies stored in refl)
]

-- What an accepted SEND or SENDATTACH answers: the byte 0 and the id in decimal.
abbrev pub accepted : ℕ → List Bytes
accepted id = (0 ∷ []) ∷ (print_unsigned id ++ 0 ∷ []) ∷ []

-- The message waits: nothing goes to a listener, and it is last in the receiver's file.
pub record Waits (b : Bytes) (k : PendingMsg) (d : Disk) (r : Outcome (Unit {0})) : Type 0 where
  pub told : replies r.events ≡ accepted k.id
  pub pushed : pushes r.events ≡ []
  pub kept :
      (j : Bytes) → mailbox r.disk j ≡ (if streq b j then mailbox d j ++ k ∷ [] else mailbox d j)

-- The message is handed over: its strings go to the listener first, and no file keeps it.
pub record HandedOver (address : Bytes × ℕ) (strings : List Bytes) (id : ℕ) (d : Disk)
    (r : Outcome (Unit {0})) : Type 0 where
  pub told : replies r.events ≡ accepted id
  pub others : List (Bytes × ℕ × List Bytes)
  pub pushed : pushes r.events ≡ (address.0, address.1, strings) ∷ others
  pub kept : (j : Bytes) → mailbox r.disk j ≡ mailbox d j
