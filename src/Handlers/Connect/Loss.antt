-- ===== src/Handlers/Connect/Loss.antt =====
-- CONNECT where two pending messages, from two senders, have the same id.
use messaging_service.Prelude.{
  ℕ, suc, ◌<◌, ◌≡◌, refl, ap, ◌∙◌, true, false, some, [], ◌∷◌, Bytes, ◌==◌, arith,
}
use messaging_service.Text.Chars.{streq_refl}
use messaging_service.Text.Scan.{word_mod}
use messaging_service.Text.Scan.Laws.{IsWord}
use messaging_service.Users.{User}
use messaging_service.Users.Table.{Table, lookup}
use messaging_service.Disk.{Disk, PendingMsg, or_empty}
use messaging_service.Directory.{Represents}
use messaging_service.Database.Accounts.{db_connect}
use messaging_service.Database.Accounts.Frame.{db_disconnect-messages}
use messaging_service.Database.Mail.Laws.{mailbox, other_ids}
use messaging_service.Program.{Outside, Outcome, run, run-step-le, pushes}
use messaging_service.Handlers.Replies.{AlwaysAllowed}
use messaging_service.Handlers.Delivery.{port_of}
use messaging_service.Handlers.Delivery.Sending.{AlwaysMail}
use messaging_service.Handlers.Connect.{f_connect}
use messaging_service.Handlers.Connect.Sent.{messages_of, parcel, messages_of-append, pushes-append}
use messaging_service.Handlers.Connect.Pending.{delivery, delivery-parcel, delivery-mailbox}
use messaging_service.Handlers.Connect.Accepted.{same_mail, f_connect_tail}
use messaging_service.Handlers.Connect.Partial.{unreached, reached}

both_gone : (m k : PendingMsg) → k.id ≡ m.id → other_ids m.id (m ∷ k ∷ []) ≡ []
unfolding other_ids
both_gone m k e = ground arith

module _ (o : ℕ → Outside) (i : ℕ) (n ip : Bytes) (port : ℕ) (d : Disk) (t : Table) (u : User)
    (allowed : AlwaysAllowed o) (mail : AlwaysMail o n) (w : IsWord 19 ip) (p : port < word_mod)
    (r : Represents d t) (registered : lookup n t ≡ some u) (free : u.connected == 1 ≡ false) where
  -- On a disk that holds a table, CONNECT, run alone, of a registered user who is offline, from an
  -- address of 1 to 19 bytes without white space with a 32-bit port, where no file of the user table
  -- or of the user's messages is refused: where exactly two messages with the same id are pending and
  -- the listener is reached for the first and never again, only the first is handed over, but the
  -- user's file is empty.
  pub f_connect_loses_message :
      (m k : PendingMsg)
      → mailbox d n ≡ m ∷ k ∷ []
      → k.id ≡ m.id
      → (o (suc (suc i))).reaches ip (port_of port) ≡ true
      → ((j : ℕ) → suc (suc i) < j → (o j).reaches ip (port_of port) ≡ false)
      → (messages_of (pushes (run (f_connect (some ip) n port) o i d).events)
          ≡ parcel ip port m ∷ [])
        × (mailbox (run (f_connect (some ip) n port) o i d).disk n ≡ [])
  f_connect_loses_message m k e same first never =
      rw (f_connect_tail o i n ip port d t u allowed mail w p r registered free) (
        rw e (
          rw (reached o n ip port allowed mail m (k ∷ []) (suc (suc i)) before first) (
            rw (unreached o n ip port allowed mail k [] x.step x.disk (never x.step later)) (
              unfold run pushes in
              (
                rw (pushes-append x.events []) (
                    rw (messages_of-append (pushes x.events) (pushes [])) (
                      rw (delivery-parcel o n ip port m (suc (suc (suc i))) before)
                        (unfold pushes messages_of in refl))),
                ap (λ files. or_empty (files n))
                      (db_disconnect-messages (o (suc x.step)).refuses n x.disk)
                    ∙ delivery-mailbox o n ip port m (suc (suc (suc i))) before n mail
                    ∙ rw streq_refl (
                        ap (other_ids m.id)
                          (same_mail o i n ip port d t u allowed mail w p r registered free n ∙ e)
                        ∙ both_gone m k same),
              )))))
    where
      before : Disk
      before = (db_connect (o i).refuses n ip port d).1

      x : Outcome (Unit {0})
      x = run (delivery o n ip port m) o (suc (suc (suc i))) before

      later : suc (suc i) < x.step
      later = omega (arith, run-step-le (delivery o n ip port m) o (suc (suc (suc i))) before)
