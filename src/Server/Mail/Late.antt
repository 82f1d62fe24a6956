-- ===== src/Server/Mail/Late.antt =====
-- A SEND and a CONNECT of its receiver, as two threads whose steps are interleaved.
use mathlib.Core.List.{Memᴰ}
use messaging_service.Prelude.{
  ℕ, Bool, false, ◌≡◌, refl, sym, ap, subst, ◌∙◌, none, some, Option, inl, inr, [], ◌∷◌, Bytes,
  Bool-cases, ◌==◌,
}
use messaging_service.Text.Chars.{streq, streq_iff}
use messaging_service.Text.Scan.{strtol}
use messaging_service.Text.Scan.Laws.{IsWord}
use messaging_service.Text.Scan.Results.{strtol-lt}
use messaging_service.Users.Table.{Table, lookup}
use messaging_service.Users.{User}
use messaging_service.Disk.{Disk, PendingMsg, or_empty}
use messaging_service.Directory.{Represents, Directory, prepare_spec, following_id, assign}
use messaging_service.Database.Prepare.{Prepared}
use messaging_service.Database.Prepare.Frame.{db_prepare_message-messages}
use messaging_service.Database.Prepare.Refinement.{
  db_prepare_message-Answers, db_prepare_message-Refines,
}
use messaging_service.Database.Mail.{pending_msg}
use messaging_service.Database.Mail.Laws.{mailbox}
use messaging_service.Program.{ret, run, run-bind}
use messaging_service.Handlers.Replies.{AlwaysAllowed}
use messaging_service.Handlers.Delivery.Sending.{AlwaysMail}
use messaging_service.Handlers.Connect.{f_connect}
use messaging_service.Handlers.Connect.Accepted
use messaging_service.Requests.Reading.{connect, handler}
use messaging_service.Server.{Steps}
use messaging_service.Server.Arrivals.{Arrival, thread}
use messaging_service.Server.Mail.Requests.{IsReadable}
use messaging_service.Server.Mail.Overtaken.{
  NothingRefused, all_open, always, all_open-UsersAllowed, sends_message, prepared, other_run,
  final, overtaken, final-users, final-left,
}

connection : Option User → ℕ
connection none = 0
connection (some u) = u.connected

-- SEND changes no connection: a receiver who is offline is so behind db_prepare_message.
still_offline :
    (a b : Bytes) (dir : Directory) (u v : User)
    → dir a ≡ some u
    → dir b ≡ some v
    → v.connected ≡ 0
    → (w : User) × ((prepare_spec a b dir).1 b ≡ some w) × (w.connected == 1 ≡ false)
unfolding prepare_spec assign connection
still_offline a b dir u v e f o = elim (Bool-cases (streq a b)) [
  | inl s ↦
      let same : some u ≡ some v = sym e ∙ ap dir ((streq_iff a b).0 s) ∙ f in
      (
        record u { last_id = following_id u.last_id },
        rw (e, prepare_spec) (rw (f, prepare_spec) (rw (s, assign) refl)),
        rw (ap connection same ∙ o) refl,
      )
  | inr s ↦ (v, rw (e, prepare_spec) (rw (f, prepare_spec) (rw (s, assign) f)), rw o refl)
]

-- Both threads have returned; the receiver is online, and the message is in the receiver's file.
pub record Overlooked (x y : Arrival) (d : Disk) (b : Bytes) (m : PendingMsg) : Type 0 where
  pub disk : Disk
  pub steps : Steps NothingRefused (thread x ∷ thread y ∷ []) d (ret false ∷ ret false ∷ []) disk
  pub table : Table
  pub represents : Represents disk table
  pub receiver : User
  pub there : lookup b table ≡ some receiver
  pub online : receiver.connected ≡ 1
  pub left : Memᴰ m (mailbox disk b)

always-AlwaysAllowed : AlwaysAllowed always
always-AlwaysAllowed = record { at_step = λ i. all_open-UsersAllowed }

always-AlwaysMail : (n : Bytes) → AlwaysMail always n
always-AlwaysMail n = record { at_step = λ i. record { read = refl; add = refl; temp = refl } }

returned_disk : (c : Bool) (i : ℕ) (d : Disk) → (run (ret c) always i d).disk ≡ d
unfolding run
returned_disk c i d = refl

returned_result : (c : Bool) (i : ℕ) (d : Disk) → (run (ret c) always i d).result ≡ c
unfolding run
returned_result c i d = refl

module _ (a b text ip port : Bytes) (p1 : Option Bytes) (u1 u2 : Prepared) (d : Disk) where
  abbrev connects : Arrival
  connects = record { peer = some ip; unset = u2; request = connect b port }

  abbrev prepared_disk : Disk
  prepared_disk = (prepared a b text p1 u1 connects d).2

  other_result : (other_run a b text p1 u1 connects d).result ≡ false
  unfolding handler
  other_result =
      ap (λ o. o.result)
        (run-bind (f_connect (some ip) b (strtol port)) (λ x. ret false) always 0 prepared_disk)
      ∙ returned_result false _ _

  module _ (t : Table) (u : User) (w : IsWord 19 ip) (r : Represents prepared_disk t)
      (registered : lookup b t ≡ some u) (free : u.connected == 1 ≡ false) where
    abbrev connection_disk : Disk
    connection_disk =
        (Accepted.result always 0 b ip (strtol port) prepared_disk t u always-AlwaysAllowed
          (always-AlwaysMail b) w (strtol-lt port) r registered free).1

    -- CONNECT finds no message, and leaves the disk as db_connect has made it.
    connected_disk : mailbox d b ≡ [] → (other_run a b text p1 u1 connects d).disk ≡ connection_disk
    unfolding handler
    connected_disk empty =
        ap (λ o. o.disk)
          (run-bind (f_connect (some ip) b (strtol port)) (λ x. ret false) always 0 prepared_disk)
        ∙ returned_disk false _ _
        ∙ Accepted.f_connect_idle always 0 b ip (strtol port) prepared_disk t u always-AlwaysAllowed
            (always-AlwaysMail b) w (strtol-lt port) r registered free
            (ap (λ files. or_empty (files b)) (db_prepare_message-messages all_open a b u1 d)
              ∙ empty)

  -- A thread serves a SEND from a to b and another a CONNECT of b, with strings of at most 254 bytes
  -- without a zero byte, the CONNECT from an address of 1 to 19 bytes without white space, on a disk
  -- that holds a table with both users in which b is offline and has no pending message. There is an
  -- interleaving of their steps, in which no file is refused, behind which both threads have returned,
  -- the disk holds a table in which b is online, and the file of b holds the message of the SEND, with
  -- the id that follows a's last one.
  pub connect_misses_message :
      (t : Table) (u v : User)
      → IsReadable (sends_message a b text p1 u1)
      → IsReadable connects
      → IsWord 19 ip
      → Represents d t
      → lookup a t ≡ some u
      → lookup b t ≡ some v
      → v.connected ≡ 0
      → mailbox d b ≡ []
      → Overlooked
          (sends_message a b text p1 u1)
          connects
          d
          b
          (pending_msg a (following_id u.last_id) text none)
  connect_misses_message t u v h k w r e f offline empty =
      let answers =
        db_prepare_message-Answers all_open a b u1 d t u v all_open-UsersAllowed r e f in
      let sent = db_prepare_message-Refines all_open a b u1 d t all_open-UsersAllowed r in
      let before = still_offline a b (λ j. lookup j t) u v e f offline in
      let registered = sent.view b ∙ before.1 in
      let joined =
        Accepted.refined always 0 b ip (strtol port) prepared_disk sent.table before.0
          always-AlwaysAllowed (always-AlwaysMail b) w (strtol-lt port) sent.represents registered
          before.2 in
      record {
        disk = final a b text p1 u1 connects d;
        steps =
            subst
              (λ x.
                Steps NothingRefused (thread (sends_message a b text p1 u1) ∷ thread connects ∷ [])
                  d (ret false ∷ ret x ∷ []) (final a b text p1 u1 connects d))
              other_result
              (overtaken a b text p1 u1 connects d h k answers.code (answers.connected ∙ offline));
        table = joined.table;
        represents = record {
          file =
              final-users a b text p1 u1 connects d
              ∙ ap (λ x. x.users)
                  (connected_disk sent.table before.0 w sent.represents registered before.2 empty)
              ∙ joined.represents.file;
          valid = joined.represents.valid;
          distinct = joined.represents.distinct;
        };
        receiver = record before.0 { connected = 1; ip = ip; port = strtol port };
        there =
            Accepted.now_online always 0 b ip (strtol port) prepared_disk sent.table before.0
              always-AlwaysAllowed (always-AlwaysMail b) w (strtol-lt port) sent.represents
              registered before.2;
        online = refl;
        left = final-left a b text p1 u1 connects d (following_id u.last_id) answers.id;
      }
