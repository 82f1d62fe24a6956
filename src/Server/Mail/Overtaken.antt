-- ===== src/Server/Mail/Overtaken.antt =====
-- A SEND beside another thread, which runs from its first step to its last behind db_prepare_message and
-- before db_store_message of the SEND.
use mathlib.Core.List.{Memᴰ}
use mathlib.Core.List.Memᴰ
use messaging_service.Prelude.{
  ℕ, suc, Bool, true, false, ◌≡◌, refl, ap, sym, subst, ◌∙◌, none, Option, [], ◌∷◌, ◌++◌, codes,
  Bytes, if◌then◌else◌,
}
use messaging_service.Text.Chars.{streq_refl}
use messaging_service.Text.Decimal.{print_unsigned}
use messaging_service.Disk.{Disk, Refusals, FilePath, Mode}
use messaging_service.Directory.{UsersAllowed}
use messaging_service.Database.Prepare.{Prepared, db_prepare_message}
use messaging_service.Database.Mail.{pending_msg, db_store_message}
use messaging_service.Database.Mail.Laws.{mailbox, db_store_message_appends}
use messaging_service.Program.{
  Outside, Outcome, run, reply, rpc, Prog, ret, emit, atomic, reach, ◌>>=◌, ◌>>◌, send, call,
}
use messaging_service.Handlers.Delivery.{f_send, send_reply, forward, stored}
use messaging_service.Requests.Reading.{message, handler, tratar_peticion-encode}
use messaging_service.Server.{Threads, Step, acts, sends, tries, passes, Steps, start, after}
use messaging_service.Server.Arrivals.{Arrival, thread}
use messaging_service.Server.Mail.Requests.{IsReadable}

-- The rest of a SEND that has been accepted for a receiver who is offline.
abbrev store_only : Bytes → Bytes → Bytes → ℕ → Prog (Unit {0})
store_only a b text i = do
  send (reply (0 ∷ []))
  send (reply (print_unsigned i ++ 0 ∷ []))
  send (rpc a (codes "SEND") [])
  code ← call (λ r d. db_store_message r b a i text none d)
  stored b a i

send_reply-store_only :
    (a b text : Bytes) (res : ℕ) (p : Prepared)
    → res ≡ 0
    → p.recv_connected ≡ 0
    → send_reply a b text (res, p) ≡ store_only a b text p.msg_id
unfolding send_reply forward
send_reply-store_only a b text res p e f = rw (e, f) refl

-- Every file can be opened, and every listener answers.
abbrev pub all_open : Refusals
all_open = λ path mode. false

abbrev pub always : ℕ → Outside
always i = record { refuses = all_open; reaches = λ ip port. true }

-- The system refuses no file, neither of the user table nor of the messages.
abbrev pub NothingRefused : Refusals → Type 0
NothingRefused r = (path : FilePath) (mode : Mode) → r path mode ≡ false

pub all_open-UsersAllowed : UsersAllowed all_open
all_open-UsersAllowed = record { read = refl; add = refl; temp = refl }

by :
    {us ts ts' : Threads} {d e e' : Disk}
    → Step all_open ts e ts' e'
    → Steps NothingRefused us d ts e
    → Steps NothingRefused us d ts' e'
by x s = after all_open (λ path mode. refl) s x

-- The second thread takes all the steps of its run.
run_beside :
    {us : Threads} {c : Disk} (q p : Prog Bool) (i : ℕ) (d : Disk)
    → Steps NothingRefused us c (q ∷ p ∷ []) d
    → Steps NothingRefused us c (q ∷ ret (run p always i d).result ∷ []) (run p always i d).disk
unfolding run
run_beside q (ret a) i d s = s
run_beside q (emit e p) i d s = run_beside q p i d (by (passes sends) s)
run_beside q (atomic act k) i d s =
    run_beside q (k all_open d) (suc i) (act all_open d) (by (passes acts) s)
run_beside q (reach ip port k) i d s = run_beside q (k true) (suc i) d (by (passes (tries true)) s)

abbrev pub sends_message : Bytes → Bytes → Bytes → Option Bytes → Prepared → Arrival
sends_message a b text p1 u1 = record { peer = p1; unset = u1; request = message a b text }

module _ (a b text : Bytes) (p1 : Option Bytes) (u1 : Prepared) (y : Arrival) (d : Disk) where
  abbrev pub prepared : ℕ × Prepared × Disk
  prepared = db_prepare_message all_open a b u1 d

  abbrev pub other_run : Outcome Bool
  other_run = run (handler y.peer y.unset y.request) always 0 prepared.2

  abbrev pub final : Disk
  final = (db_store_message all_open b a prepared.1.msg_id text none other_run.disk).1

  -- What is left of the SEND behind its first step.
  abbrev replies_to_a : Prog Bool
  replies_to_a = send_reply a b text (prepared.0, prepared.1) >>= λ u. ret false

  abbrev From : Threads → Disk → Type 0
  From ts e =
      Steps NothingRefused
        (handler p1 u1 (message a b text) ∷ handler y.peer y.unset y.request ∷ []) d ts e

  chosen : From (replies_to_a ∷ handler y.peer y.unset y.request ∷ []) prepared.2
  unfolding handler f_send
  chosen = by acts start

  answered : From (replies_to_a ∷ ret other_run.result ∷ []) other_run.disk
  answered = run_beside replies_to_a (handler y.peer y.unset y.request) 0 prepared.2 chosen

  finished :
      (prepared.0 ≡ 0)
      → (prepared.1.recv_connected ≡ 0)
      → From (ret false ∷ ret other_run.result ∷ []) final
  unfolding stored
  finished e f = by sends (
      by acts (
        by sends (
          by sends (
            by sends (
              subst (λ q. From (q ∷ ret other_run.result ∷ []) other_run.disk)
                (ap (λ q. q >>= λ u. ret false)
                  (send_reply-store_only a b text prepared.0 prepared.1 e f))
                answered)))))

  -- Both threads come to their ends.
  pub overtaken :
      IsReadable (sends_message a b text p1 u1)
      → IsReadable y
      → prepared.0 ≡ 0
      → prepared.1.recv_connected ≡ 0
      → Steps NothingRefused
          (thread (sends_message a b text p1 u1) ∷ thread y ∷ [])
          d
          (ret false ∷ ret other_run.result ∷ [])
          final
  unfolding thread
  overtaken h k e f =
      subst (λ q. Steps NothingRefused q d (ret false ∷ ret other_run.result ∷ []) final)
        (sym (
          ap (λ q. q ∷ thread y ∷ []) (tratar_peticion-encode p1 u1 (message a b text) h)
          ∙ ap (λ q. handler p1 u1 (message a b text) ∷ q ∷ [])
              (tratar_peticion-encode y.peer y.unset y.request k)))
        (finished e f)

  pub final-users : final.users ≡ other_run.disk.users
  final-users =
      (db_store_message_appends all_open b a prepared.1.msg_id text none other_run.disk b refl).1

  -- The message is last in the file.
  pub final-left :
      (i : ℕ) → prepared.1.msg_id ≡ i → Memᴰ (pending_msg a i text none) (mailbox final b)
  final-left i e =
      subst (λ j. Memᴰ (pending_msg a j text none) (mailbox final b)) e
        (subst (Memᴰ (pending_msg a prepared.1.msg_id text none))
          (sym (
            (db_store_message_appends all_open b a prepared.1.msg_id text none other_run.disk b
              refl).0
            ∙ ap
                (λ same.
                  if same
                  then mailbox other_run.disk b ++ pending_msg a prepared.1.msg_id text none ∷ []
                  else mailbox other_run.disk b)
                (streq_refl b)))
          (Memᴰ.append_right (mailbox other_run.disk b) (Memᴰ.head refl)))
