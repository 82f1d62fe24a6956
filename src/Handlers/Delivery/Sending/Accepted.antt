-- ===== src/Handlers/Delivery/Sending/Accepted.antt =====
-- The whole handlers of SEND and SENDATTACH between two registered users.
use messaging_service.Prelude.{
  ℕ, suc, ◌≡◌, ap, ◌∙◌, true, false, Option, none, some, inl, inr, ◌⊎◌, [], ◌∷◌, ◌++◌, Bytes,
  if◌then◌else◌, ◌==◌,
}
use messaging_service.Text.Chars.{streq}
use messaging_service.Text.Decimal.{print_unsigned}
use messaging_service.Users.{User}
use messaging_service.Users.Table.{Table, lookup}
use messaging_service.Disk.{Disk, or_empty}
use messaging_service.Directory.{Represents, following_id}
use messaging_service.Database.Prepare.{Prepared, db_prepare_message}
use messaging_service.Database.Prepare.Refinement.{db_prepare_message-Answers, Answers}
use messaging_service.Database.Prepare.Frame.{db_prepare_message-messages}
use messaging_service.Database.Mail.{pending_msg, db_store_message}
use messaging_service.Database.Mail.Laws.{Unused, mailbox, db_store_message_appends, delete-store}
use messaging_service.Program.{Outside, Outcome, run, replies, pushes}
use messaging_service.Handlers.Replies.{AlwaysAllowed}
use messaging_service.Handlers.Delivery.{
  port_of, forward, send_reply, f_send, sendattach_reply, f_sendattach, message_strings,
}
use messaging_service.Handlers.Delivery.Sending.{
  AlwaysMail, forward_waits, forward_delivers, forward-replies, accepted, Waits, HandedOver,
}

module _ (o : ℕ → Outside) (a b m : Bytes) (mail : AlwaysMail o b) where
  -- The disk behind db_store_message at step `i`.
  with_copy : ℕ → Option Bytes → Prepared → Disk → Disk
  with_copy i f p d = (db_store_message (o i).refuses b a p.msg_id m f d).1

  waiting_mailbox :
      (i : ℕ) (f : Option Bytes) (p : Prepared) (d : Disk) (j : Bytes)
      → (p.recv_connected == 1 ≡ false)
        ⊎ ((o (suc i)).reaches p.recv_ip (port_of p.recv_port) ≡ false)
      → mailbox (run (forward a b m f p) o (suc i) (with_copy i f p d)).disk j
        ≡ (if streq b j then mailbox d j ++ pending_msg a p.msg_id m f ∷ [] else mailbox d j)
  unfolding with_copy
  waiting_mailbox i f p d j h =
      ap (λ files. or_empty (files j)) ((forward_waits a b m f p o (suc i) (with_copy i f p d) h).1)
      ∙ (db_store_message_appends (o i).refuses b a p.msg_id m f d j ((mail.at_step i).add)).0

  delivered_mailbox :
      (i : ℕ) (f : Option Bytes) (p : Prepared) (d : Disk) (j : Bytes)
      → p.recv_connected == 1 ≡ true
      → (o (suc i)).reaches p.recv_ip (port_of p.recv_port) ≡ true
      → Unused p.msg_id (mailbox d b)
      → mailbox (run (forward a b m f p) o (suc i) (with_copy i f p d)).disk j ≡ mailbox d j
  unfolding with_copy
  delivered_mailbox i f p d j c h unused =
      ap (λ files. or_empty (files j))
        ((forward_delivers a b m f p o (suc i) (with_copy i f p d) c h).1)
      ∙ delete-store (o i).refuses (o (suc (suc i))).refuses b a p.msg_id m f d j (mail.at_step i)
          (mail.at_step (suc (suc i))) unused

  -- The tail of both handlers behind a successful preparation, from step `i`: what is told and pushed.
  reply-Waits :
      (i : ℕ) (p : Prepared) (d : Disk)
      → (p.recv_connected == 1 ≡ false)
        ⊎ ((o (suc i)).reaches p.recv_ip (port_of p.recv_port) ≡ false)
      → Waits b (pending_msg a p.msg_id m none) d (run (send_reply a b m (0, p)) o i d)
  unfolding send_reply run replies pushes pending_msg
  reply-Waits i p d h = record {
    told =
        ap (λ l. (0 ∷ []) ∷ (print_unsigned p.msg_id ++ 0 ∷ []) ∷ l)
          (forward-replies a b m none p o (suc i) _);
    pushed = (forward_waits a b m none p o (suc i) _ h).0;
    kept = λ j. unfold with_copy in waiting_mailbox i none p d j h;
  }

  attach-Waits :
      (f : Bytes) (i : ℕ) (p : Prepared) (d : Disk)
      → (p.recv_connected == 1 ≡ false)
        ⊎ ((o (suc i)).reaches p.recv_ip (port_of p.recv_port) ≡ false)
      → Waits b (pending_msg a p.msg_id m (some f)) d (run (sendattach_reply a b m f (0, p)) o i d)
  unfolding sendattach_reply run replies pushes pending_msg
  attach-Waits f i p d h = record {
    told =
        ap (λ l. (0 ∷ []) ∷ (print_unsigned p.msg_id ++ 0 ∷ []) ∷ l)
          (forward-replies a b m (some f) p o (suc i) _);
    pushed = (forward_waits a b m (some f) p o (suc i) _ h).0;
    kept = λ j. unfold with_copy in waiting_mailbox i (some f) p d j h;
  }

  reply_delivers :
      (i : ℕ) (p : Prepared) (d : Disk)
      → p.recv_connected == 1 ≡ true
      → (o (suc i)).reaches p.recv_ip (port_of p.recv_port) ≡ true
      → Unused p.msg_id (mailbox d b)
      → HandedOver
          (p.recv_ip, port_of p.recv_port)
          (message_strings a (print_unsigned p.msg_id) m none)
          p.msg_id
          d
          (run (send_reply a b m (0, p)) o i d)
  unfolding send_reply run replies pushes
  reply_delivers i p d c h unused = record {
    told =
        ap (λ l. (0 ∷ []) ∷ (print_unsigned p.msg_id ++ 0 ∷ []) ∷ l)
          (forward-replies a b m none p o (suc i) _);
    others = (forward_delivers a b m none p o (suc i) _ c h).0.0;
    pushed = (forward_delivers a b m none p o (suc i) _ c h).0.1;
    kept = λ j. unfold with_copy in delivered_mailbox i none p d j c h unused;
  }

same_mailbox : (d e : Disk) (j : Bytes) → d.messages ≡ e.messages → mailbox d j ≡ mailbox e j
same_mailbox d e j h = ap (λ files. or_empty (files j)) h

-- The preparation of SEND, for the proofs below.
module _ (o : ℕ → Outside) (i : ℕ) (unset : Prepared) (a b m : Bytes) (d : Disk) (t : Table)
    (u v : User) (allowed : AlwaysAllowed o) (mail : AlwaysMail o b) (r : Represents d t)
    (sender : lookup a t ≡ some u) (receiver : lookup b t ≡ some v) where
  prepared : ℕ × Prepared × Disk
  prepared = db_prepare_message (o i).refuses a b unset d

  answers : Answers prepared u v
  unfolding prepared
  answers =
      db_prepare_message-Answers (o i).refuses a b unset d t u v (allowed.at_step i) r sender
        receiver

  prepared_mailbox : (j : Bytes) → mailbox prepared.2 j ≡ mailbox d j
  unfolding prepared
  prepared_mailbox j =
      same_mailbox prepared.2 d j (db_prepare_message-messages (o i).refuses a b unset d)

  cannot_reach :
      (v.connected == 1 ≡ false) ⊎ ((o (suc (suc i))).reaches v.ip (port_of v.port) ≡ false)
      → (prepared.1.recv_connected == 1 ≡ false)
        ⊎ ((o (suc (suc i))).reaches prepared.1.recv_ip (port_of prepared.1.recv_port) ≡ false)
  cannot_reach (inl h) = inl (rw answers.connected h)
  cannot_reach (inr h) = inr (rw (answers.ip, answers.port) h)

  -- The handlers are their tails behind the preparation.
  f_send_tail :
      run (f_send unset a b m) o i d ≡ run (send_reply a b m (0, prepared.1)) o (suc i) prepared.2
  unfolding prepared f_send run
  f_send_tail = ap (λ c. run (send_reply a b m (c, prepared.1)) o (suc i) prepared.2) answers.code

  Waits-from :
      (f : Option Bytes) (x : Outcome (Unit {0}))
      → Waits b (pending_msg a prepared.1.msg_id m f) prepared.2 x
      → Waits b (pending_msg a (following_id u.last_id) m f) d x
  unfolding pending_msg
  Waits-from f x w = record {
    told = w.told ∙ ap accepted answers.id;
    pushed = w.pushed;
    kept = λ j. w.kept j ∙ rw (prepared_mailbox j) (rw answers.id);
  }

  -- On a disk that holds a table, where no file of the user table or of the receiver's messages is
  -- ever refused, SEND, run alone, between two registered users, where the receiver is offline or
  -- cannot be reached at the third step: the sender is told the id that follows its last one, nothing
  -- goes to a listener, and the message with that id is last in the receiver's file; the message files
  -- of all others are as before.
  pub f_send-Waits :
      (v.connected == 1 ≡ false) ⊎ ((o (suc (suc i))).reaches v.ip (port_of v.port) ≡ false)
      → Waits b (pending_msg a (following_id u.last_id) m none) d (run (f_send unset a b m) o i d)
  f_send-Waits h =
      rw f_send_tail (
        Waits-from none _ (reply-Waits o a b m mail (suc i) prepared.1 prepared.2 (cannot_reach h)))

  -- On a disk that holds a table, where no file of the user table or of the receiver's messages is
  -- ever refused, SEND, run alone, between two registered users, where the receiver is online, its
  -- listener is reached at the third step and its file holds no message of the id that follows the
  -- sender's last one: the sender is told that id, the message with it goes to the receiver's address
  -- before anything else is sent to a listener, and every message file holds what it held before.
  pub f_send_delivers :
      v.connected == 1 ≡ true
      → (o (suc (suc i))).reaches v.ip (port_of v.port) ≡ true
      → Unused (following_id u.last_id) (mailbox d b)
      → HandedOver
          (v.ip, port_of v.port)
          (message_strings a (print_unsigned (following_id u.last_id)) m none)
          (following_id u.last_id)
          d
          (run (f_send unset a b m) o i d)
  f_send_delivers c h unused =
      let w =
        reply_delivers o a b m mail (suc i) prepared.1 prepared.2 (rw answers.connected c)
          (rw (answers.ip, answers.port) h) (rw answers.id (rw (prepared_mailbox b) unused)) in
      rw f_send_tail (record {
        told = w.told ∙ ap accepted answers.id;
        others = w.others;
        pushed = w.pushed ∙ rw answers.id (rw (answers.ip, answers.port));
        kept = λ j. w.kept j ∙ prepared_mailbox j;
      })

  f_sendattach_tail :
      (f : Bytes)
      → run (f_sendattach unset a b m f) o i d
        ≡ run (sendattach_reply a b m f (0, prepared.1)) o (suc i) prepared.2
  unfolding prepared f_sendattach run
  f_sendattach_tail f =
      ap (λ c. run (sendattach_reply a b m f (c, prepared.1)) o (suc i) prepared.2) answers.code

  -- On a disk that holds a table, where no file of the user table or of the receiver's messages is
  -- ever refused, SENDATTACH, run alone, between two registered users, where the receiver is offline
  -- or cannot be reached at the third step: the sender is told the id that follows its last one,
  -- nothing goes to a listener, and the message with that id and the name of its attachment is last in
  -- the receiver's file; the message files of all others are as before.
  f_sendattach-Waits :
      (f : Bytes)
      → (v.connected == 1 ≡ false) ⊎ ((o (suc (suc i))).reaches v.ip (port_of v.port) ≡ false)
      → Waits b
          (pending_msg a (following_id u.last_id) m (some f))
          d
          (run (f_sendattach unset a b m f) o i d)
  f_sendattach-Waits f h = rw f_sendattach_tail (
      Waits-from (some f) _
        (attach-Waits o a b m mail f (suc i) prepared.1 prepared.2 (cannot_reach h)))
