-- ===== src/Handlers/Connect/Accepted.antt =====
-- The whole handler of CONNECT for a user who was offline, with and without a listener that answers.
use messaging_service.Prelude.{
  ℕ, suc, ◌<◌, ◌≡◌, refl, ap, sym, ◌∙◌, ◌⊎◌, true, false, some, inl, inr, List, [], ◌∷◌, ◌++◌, map,
  Bytes, if◌then◌else◌, ◌==◌, codes, Bool-cases,
}
use messaging_service.Text.Chars.{streq, streq_iff, streq_refl}
use messaging_service.Text.Scan.{word_mod}
use messaging_service.Text.Scan.Laws.{IsWord}
use messaging_service.Users.{User}
use messaging_service.Users.Table.{Table, lookup}
use messaging_service.Disk.{Disk, PendingMsg, or_empty}
use messaging_service.Directory.{Represents, Refines, assign, connect_spec, disconnect_spec}
use messaging_service.Database.Accounts.{db_connect, db_disconnect}
use messaging_service.Database.Accounts.Sessions.{db_connect-Refines, db_disconnect-Refines}
use messaging_service.Database.Accounts.Frame.{db_connect-messages, db_disconnect-messages}
use messaging_service.Database.Mail.{db_get_pending_messages}
use messaging_service.Database.Mail.Laws.{mailbox, open_messages-allowed}
use messaging_service.Program.{
  Outside, Outcome, run, run-reach, replies, pushes, reply, rpc, console, send, ◌>>◌, with_events,
}
use messaging_service.Handlers.Replies.{AlwaysAllowed}
use messaging_service.Handlers.Delivery.{port_of, drop_user, deliver}
use messaging_service.Handlers.Delivery.Sending.{AlwaysMail}
use messaging_service.Handlers.Connect.{
  attachment, deliver_loop, deliver_round, connected, f_connect,
}
use messaging_service.Handlers.Connect.Sent.{messages_of, parcel}
use messaging_service.Handlers.Connect.Pending.{
  without_ids, without_ids_self, AlwaysReached, deliver_loop-replies, deliver_loop-parcels,
  deliver_loop-mailbox,
}

-- The pending messages have been handed over: the client is told 0 and nothing more, its listener gets
-- each message once, in the order of the file, and the file is empty.
pub record CaughtUp (n ip : Bytes) (port : ℕ) (d : Disk) (r : Outcome (Unit {0})) : Type 0 where
  pub told : replies r.events ≡ (0 ∷ []) ∷ []
  pub pushed : messages_of (pushes r.events) ≡ map (parcel ip port) (mailbox d n)
  pub kept : (j : Bytes) → mailbox r.disk j ≡ (if streq n j then [] else mailbox d j)

-- Nothing could be handed over: the client is told 0, all messages are kept, and the user is offline again.
pub record Withheld (n : Bytes) (u : User) (d : Disk) (r : Outcome (Unit {0})) : Type 0 where
  pub told : replies r.events ≡ (0 ∷ []) ∷ []
  pub pushed : pushes r.events ≡ []
  pub kept : (j : Bytes) → mailbox r.disk j ≡ mailbox d j
  pub table : Table
  pub represents : Represents r.disk table
  pub offline : lookup n table ≡ some (record u { connected = 0; ip = codes "0.0.0.0"; port = 0 })

module _ (o : ℕ → Outside) (i : ℕ) (n ip : Bytes) (port : ℕ) (d : Disk) (t : Table) (u : User)
    (allowed : AlwaysAllowed o) (mail : AlwaysMail o n) (w : IsWord 19 ip) (p : port < word_mod)
    (r : Represents d t) (registered : lookup n t ≡ some u) (free : u.connected == 1 ≡ false) where
  abbrev pub result : ℕ × Disk
  result = db_connect (o i).refuses n ip port d

  pub refined : Refines t (connect_spec n ip port) result
  refined = db_connect-Refines (o i).refuses n ip port d t (allowed.at_step i) w p r

  code : result.0 ≡ 0
  unfolding connect_spec
  code = refined.code ∙ rw (registered, connect_spec) (rw free refl)

  -- The user as the table has it behind the connection.
  abbrev pub online : User
  online = record u { connected = 1; ip = ip; port = port }

  pub now_online : lookup n refined.table ≡ some online
  unfolding connect_spec assign
  now_online =
      refined.view n ∙ rw (registered, connect_spec) (rw (free, connect_spec) (rw streq_refl refl))

  pub same_mail : (j : Bytes) → mailbox result.1 j ≡ mailbox d j
  same_mail j = ap (λ files. or_empty (files j)) (db_connect-messages (o i).refuses n ip port d)

  abbrev ok_line : Bytes
  ok_line = codes "s> CONNECT " ++ n ++ codes " OK\n"

  pending : db_get_pending_messages (o (suc i)).refuses n result.1 ≡ mailbox d n
  unfolding db_get_pending_messages
  pending =
      ap or_empty (open_messages-allowed (o (suc i)).refuses n result.1 (mail.at_step (suc i)))
      ∙ same_mail n

  emptied :
      (j : Bytes)
      → (streq n j ≡ true) ⊎ (streq n j ≡ false)
      → (if streq n j then without_ids (mailbox d n) (mailbox result.1 j) else mailbox result.1 j)
        ≡ (if streq n j then [] else mailbox d j)
  emptied j (inl h) = rw h (
      ap (without_ids (mailbox d n)) (same_mail j ∙ ap (mailbox d) (sym ((streq_iff n j).0 h)))
      ∙ without_ids_self (mailbox d n))
  emptied j (inr h) = rw h (same_mail j)

  -- The handler is its loop over the pending messages.
  pub f_connect_tail :
      run (f_connect (some ip) n port) o i d
      ≡ with_events
          (reply (0 ∷ []) ∷ rpc n (codes "CONNECT") [] ∷ console ok_line ∷ [])
          (run (deliver_loop n ip port (mailbox d n)) o (suc (suc i)) result.1)
  unfolding f_connect connected run
  f_connect_tail =
      ap
        (λ c.
          run (do send (reply (c ∷ [])); send (rpc n (codes "CONNECT") []); connected n ip port c) o
            (suc i) result.1)
        code
      ∙ ap
          (λ ms.
            with_events (reply (0 ∷ []) ∷ rpc n (codes "CONNECT") [] ∷ console ok_line ∷ [])
              (run (deliver_loop n ip port ms) o (suc (suc i)) result.1))
          pending

  -- Where nothing is pending, the disk is as db_connect leaves it.
  pub f_connect_idle : mailbox d n ≡ [] → (run (f_connect (some ip) n port) o i d).disk ≡ result.1
  unfolding run deliver_loop
  f_connect_idle e =
      ap (λ x. x.disk) f_connect_tail
      ∙ ap (λ ms. (run (deliver_loop n ip port ms) o (suc (suc i)) result.1).disk) e

  -- On a disk that holds a table, CONNECT, run alone, of a registered user who is offline, from an
  -- address of 1 to 19 bytes without white space with a 32-bit port, where no file of the user table
  -- or of the user's messages is refused and the listener at that address is reached at every step:
  -- the client is told 0 and nothing more, the messages that go to listeners, acknowledgements left
  -- aside, are the user's pending messages, each once, in their order, at that address, and the user's
  -- file is empty behind it, all other users' as before.
  pub f_connect-CaughtUp :
      AlwaysReached o ip port → CaughtUp n ip port d (run (f_connect (some ip) n port) o i d)
  f_connect-CaughtUp reached = rw f_connect_tail (record {
    told =
        unfold replies in
        ap (λ l. (0 ∷ []) ∷ l)
          (deliver_loop-replies o n ip port reached (mailbox d n) (suc (suc i)) result.1);
    pushed =
        unfold pushes in
        deliver_loop-parcels o n ip port reached (mailbox d n) (suc (suc i)) result.1;
    kept = λ j.
        deliver_loop-mailbox o n ip port reached (mailbox d n) (suc (suc i)) result.1 j mail
        ∙ emptied j (Bool-cases (streq n j));
  })

  module _ (unreached : (o (suc (suc i))).reaches ip (port_of port) ≡ false) where
    abbrev dropped : ℕ × Disk
    dropped = db_disconnect (o (suc (suc (suc i)))).refuses n result.1

    undone : Refines refined.table (disconnect_spec n) dropped
    undone =
        db_disconnect-Refines (o (suc (suc (suc i)))).refuses n result.1 refined.table
          (allowed.at_step (suc (suc (suc i)))) refined.represents

    now_offline :
        lookup n undone.table ≡ some (record u { connected = 0; ip = codes "0.0.0.0"; port = 0 })
    unfolding disconnect_spec assign
    now_offline = undone.view n ∙ rw (now_online, disconnect_spec) (rw streq_refl refl)

    -- The loop is left at its first message.
    left :
        (m : PendingMsg) (ms : List PendingMsg)
        → run (deliver_loop n ip port (m ∷ ms)) o (suc (suc i)) result.1
          ≡ record { result = tt; disk = dropped.1; step = suc (suc (suc (suc i))); events = [] }
    unfolding deliver_loop deliver_round run
    left m ms =
        run-reach ip (port_of port)
          (λ reached.
            if reached
            then (deliver ip port n m.sender m.id m.message (attachment m)
                >> deliver_loop n ip port ms)
            else drop_user n)
          o (suc (suc i)) result.1 false unreached

    -- On a disk that holds a table, CONNECT, run alone, of a registered user who is offline, from an
    -- address of 1 to 19 bytes without white space with a 32-bit port, where no file of the user table
    -- or of the user's messages is refused, messages are pending and the listener is not reached at
    -- the first of them: the client is told 0, nothing goes to a listener, every message file is as
    -- before, and the disk holds a table in which the user is offline.
    f_connect-Withheld :
        (m : PendingMsg) (ms : List PendingMsg)
        → mailbox d n ≡ m ∷ ms
        → Withheld n u d (run (f_connect (some ip) n port) o i d)
    f_connect-Withheld m ms e = rw f_connect_tail (
        rw e (
          rw (left m ms) (record {
            told = unfold replies in refl;
            pushed = unfold pushes in refl;
            kept = λ j.
                ap (λ files. or_empty (files j))
                  (db_disconnect-messages (o (suc (suc (suc i)))).refuses n result.1)
                ∙ same_mail j;
            table = undone.table;
            represents = undone.represents;
            offline = now_offline;
          })))
