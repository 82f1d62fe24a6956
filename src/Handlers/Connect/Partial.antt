-- ===== src/Handlers/Connect/Partial.antt =====
-- CONNECT with a listener that may stop answering at any message.
use messaging_service.Prelude.{
  ℕ, suc, ◌<◌, ◌≡◌, refl, ap, ◌∙◌, ◌⊎◌, true, false, Option, some, none, inl, inr, List, [], ◌∷◌,
  ◌++◌, map, Bytes, if◌then◌else◌, ◌==◌, Bool-cases, Option-cases, arith,
}
use messaging_service.Text.Chars.{streq, streq_refl}
use messaging_service.Text.Scan.{word_mod}
use messaging_service.Text.Scan.Laws.{IsWord}
use messaging_service.Users.{User}
use messaging_service.Users.Table.{Table, lookup}
use messaging_service.Disk.{Disk, PendingMsg, or_empty, Refusals}
use messaging_service.Directory.{Represents, UsersAllowed, Directory, assign, disconnect_spec}
use messaging_service.Database.Accounts.{db_connect, db_disconnect}
use messaging_service.Database.Accounts.Sessions.{db_disconnect-Refines}
use messaging_service.Database.Accounts.Frame.{db_disconnect-messages}
use messaging_service.Database.Mail.Laws.{mailbox}
use messaging_service.Program.{
  Outside, Outcome, run, run-reach, run-bind, replies, pushes, with_events, ◌>>◌,
}
use messaging_service.Program.Tables.{HoldsTable, Refines-HoldsTable, run-HoldsTable}
use messaging_service.Handlers.Replies.{AlwaysAllowed}
use messaging_service.Handlers.Delivery.{port_of, drop_user}
use messaging_service.Handlers.Delivery.Sending.{AlwaysMail}
use messaging_service.Handlers.Delivery.Tables.{deliver-KeepsTable}
use messaging_service.Handlers.Connect.{attachment, deliver_loop, deliver_round, f_connect}
use messaging_service.Handlers.Connect.Sent.{
  messages_of, parcel, messages_of-append, pushes-append, replies-append,
}
use messaging_service.Handlers.Connect.Pending.{
  without_ids, delivery, delivery-parcel, delivery-replies, delivery-mailbox,
}
use messaging_service.Handlers.Connect.Accepted.{refined, same_mail, f_connect_tail}

abbrev pub NotOnline : Option User → Type 0
NotOnline none = Unit
NotOnline (some u) = u.connected ≡ 0

-- A table is on the disk, in which the user is not online.
pub record Offline (n : Bytes) (d : Disk) : Type 0 where
  pub table : Table
  pub represents : Represents d table
  pub offline : NotOnline (lookup n table)

-- Of the messages `ms` the first ones have been handed over, each once, in their order, and their ids
-- are deleted from the user's file; where any is left over the user is offline, and the listener was
-- not reached at some step.
pub record HandedInPart (o : ℕ → Outside) (n ip : Bytes) (port : ℕ) (ms : List PendingMsg)
    (answers : List Bytes) (d : Disk) (r : Outcome (Unit {0})) : Type 0 where
  pub handed : List PendingMsg
  pub left : List PendingMsg
  pub split : ms ≡ handed ++ left
  pub told : replies r.events ≡ answers
  pub pushed : messages_of (pushes r.events) ≡ map (parcel ip port) handed
  pub kept :
      (j : Bytes)
      → mailbox r.disk j ≡ (if streq n j then without_ids handed (mailbox d j) else mailbox d j)
  pub dropped :
      (left ≡ []) ⊎ (Offline n r.disk × ((k : ℕ) × ((o k).reaches ip (port_of port) ≡ false)))

disconnect_spec-NotOnline : (n : Bytes) (dir : Directory) → NotOnline ((disconnect_spec n dir).1 n)
unfolding disconnect_spec assign
disconnect_spec-NotOnline n dir = elim (Option-cases (dir n)) [
  | inl e ↦ rw (e, disconnect_spec) (rw e tt)
  | inr (u, e) ↦ elim (Bool-cases (u.connected == 0)) [
    | inl c ↦ rw (e, disconnect_spec) (rw (c, disconnect_spec) (rw e (ground arith)))
    | inr c ↦ rw (e, disconnect_spec) (rw (c, disconnect_spec) (rw streq_refl refl))
  ]
]

-- Behind a disconnection the user is not online.
db_disconnect-Offline :
    (refuses : Refusals) (n : Bytes) (d : Disk)
    → UsersAllowed refuses
    → HoldsTable d
    → Offline n (db_disconnect refuses n d).1
db_disconnect-Offline refuses n d a t =
    let f = db_disconnect-Refines refuses n d t.table a t.represents in
    record {
      table = f.table;
      represents = f.represents;
      offline = rw (f.view n) (disconnect_spec-NotOnline n (λ j. lookup j t.table));
    }

module _ (o : ℕ → Outside) (n ip : Bytes) (port : ℕ) (allowed : AlwaysAllowed o)
    (mail : AlwaysMail o n) where
  -- The loop is left at a message for which the listener is not reached.
  pub unreached :
      (m : PendingMsg) (ms : List PendingMsg) (i : ℕ) (d : Disk)
      → (o i).reaches ip (port_of port) ≡ false
      → run (deliver_loop n ip port (m ∷ ms)) o i d ≡ run (drop_user n) o (suc i) d
  unfolding deliver_loop deliver_round
  unreached m ms i d e =
      run-reach ip (port_of port)
        (λ reached.
          if reached then (delivery o n ip port m >> deliver_loop n ip port ms) else drop_user n)
        o i d false e

  pub reached :
      (m : PendingMsg) (ms : List PendingMsg) (i : ℕ) (d : Disk)
      → (o i).reaches ip (port_of port) ≡ true
      → run (deliver_loop n ip port (m ∷ ms)) o i d ≡ (
          let x = run (delivery o n ip port m) o (suc i) d in
          with_events x.events (run (deliver_loop n ip port ms) o x.step x.disk))
  unfolding deliver_loop deliver_round
  reached m ms i d e =
      run-reach _ _ _ o i d true e
      ∙ run-bind (delivery o n ip port m) (λ u. deliver_loop n ip port ms) o (suc i) d

  one_more :
      (m : PendingMsg) (ms : List PendingMsg) (i : ℕ) (d : Disk)
      → (let x = run (delivery o n ip port m) o (suc i) d in
          HandedInPart o n ip port ms [] x.disk (run (deliver_loop n ip port ms) o x.step x.disk))
      → (let x = run (delivery o n ip port m) o (suc i) d in
          HandedInPart o n ip port
            (m ∷ ms)
            []
            d
            (with_events x.events (run (deliver_loop n ip port ms) o x.step x.disk)))
  one_more m ms i d rest = record {
    handed = m ∷ rest.handed;
    left = rest.left;
    split = ap (λ l. m ∷ l) rest.split;
    told =
        rw (replies-append (run (delivery o n ip port m) o (suc i) d).events _)
          (rw (delivery-replies o n ip port m (suc i) d) rest.told);
    pushed = rw (pushes-append (run (delivery o n ip port m) o (suc i) d).events _) (
        rw (messages_of-append (pushes (run (delivery o n ip port m) o (suc i) d).events) _) (
          rw (delivery-parcel o n ip port m (suc i) d)
            (ap (λ l. parcel ip port m ∷ l) rest.pushed)));
    kept = λ j. elim (Bool-cases (streq n j)) [
      | inl e ↦
          rest.kept j
          ∙ rw (delivery-mailbox o n ip port m (suc i) d j mail) (rw e (unfold without_ids in refl))
      | inr e ↦ rest.kept j ∙ rw (delivery-mailbox o n ip port m (suc i) d j mail) (rw e refl)
    ];
    dropped = rest.dropped;
  }

  deliver_loop-HandedInPart :
      (ms : List PendingMsg) (i : ℕ) (d : Disk)
      → HoldsTable d
      → HandedInPart o n ip port ms [] d (run (deliver_loop n ip port ms) o i d)
  deliver_loop-HandedInPart [] i d t =
      unfold deliver_loop run replies pushes messages_of without_ids in
      record {
        handed = [];
        left = [];
        split = refl;
        told = refl;
        pushed = refl;
        kept = λ j. ground arith;
        dropped = inl refl;
      }
  deliver_loop-HandedInPart (m ∷ ms) i d t = elim (Bool-cases ((o i).reaches ip (port_of port))) [
    | inl e ↦
        let x = run (delivery o n ip port m) o (suc i) d in
        let h =
          run-HoldsTable (λ c. Unit) (delivery o n ip port m) o (suc i) d allowed.at_step
            (deliver-KeepsTable (λ c. Unit) (λ j. tt) ip port n m.sender m.id m.message
              (attachment m))
            t in
        let rest = deliver_loop-HandedInPart ms x.step x.disk h in
        rw (reached m ms i d e) (one_more m ms i d rest)
    | inr e ↦ rw (unreached m ms i d e) (
        unfold run replies pushes messages_of without_ids in
        record {
          handed = [];
          left = m ∷ ms;
          split = refl;
          told = refl;
          pushed = refl;
          kept = λ j.
              ap (λ files. or_empty (files j)) (db_disconnect-messages (o (suc i)).refuses n d)
              ∙ ground arith;
          dropped =
              inr
                (db_disconnect-Offline (o (suc i)).refuses n d (allowed.at_step (suc i)) t, (i, e));
        })
  ]

module _ (o : ℕ → Outside) (i : ℕ) (n ip : Bytes) (port : ℕ) (d : Disk) (t : Table) (u : User)
    (allowed : AlwaysAllowed o) (mail : AlwaysMail o n) (w : IsWord 19 ip) (p : port < word_mod)
    (r : Represents d t) (registered : lookup n t ≡ some u) (free : u.connected == 1 ≡ false) where
  -- On a disk that holds a table, CONNECT, run alone, of a registered user who is offline, from an
  -- address of 1 to 19 bytes without white space with a 32-bit port, where no file of the user table
  -- or of the user's messages is refused, and the listener is reached at some steps and not at others:
  -- the client is told 0 and nothing more; the messages that go to listeners, acknowledgements left
  -- aside, are the first of the user's pending messages, each once, in their order; the user's file is
  -- without the ids of these, all other files as before; and where any pending message is left over,
  -- the listener was not reached at some step and the disk holds a table in which the user is not
  -- online.
  pub f_connect-HandedInPart :
      HandedInPart o n ip port
        (mailbox d n)
        ((0 ∷ []) ∷ [])
        d
        (run (f_connect (some ip) n port) o i d)
  f_connect-HandedInPart =
      rw (f_connect_tail o i n ip port d t u allowed mail w p r registered free) (
        let x =
          deliver_loop-HandedInPart o n ip port allowed mail (mailbox d n) (suc (suc i))
            (db_connect (o i).refuses n ip port d).1
            (Refines-HoldsTable (refined o i n ip port d t u allowed mail w p r registered free)) in
        record {
          handed = x.handed;
          left = x.left;
          split = x.split;
          told = unfold replies in ap (λ l. (0 ∷ []) ∷ l) x.told;
          pushed = unfold pushes in x.pushed;
          kept = λ j.
              x.kept j
              ∙ rw (same_mail o i n ip port d t u allowed mail w p r registered free j) refl;
          dropped = x.dropped;
        })
