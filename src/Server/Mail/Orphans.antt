-- ===== src/Server/Mail/Orphans.antt =====
-- A SEND and an UNREGISTER of its receiver, as two threads whose steps are interleaved.
use mathlib.Core.List.{Memᴰ}
use messaging_service.Prelude.{
  false, ◌≡◌, refl, ◌∙◌, none, some, Option, inl, inr, [], ◌∷◌, Bytes, Option-cases,
}
use messaging_service.Text.Chars.{streq_refl}
use messaging_service.Users.Table.{Table, lookup}
use messaging_service.Users.{User}
use messaging_service.Disk.{Disk, PendingMsg}
use messaging_service.Directory.{Represents, Directory, unregister_spec, following_id, assign}
use messaging_service.Database.Accounts.Refinement.{db_unregister-Refines}
use messaging_service.Database.Prepare.{Prepared}
use messaging_service.Database.Prepare.Refinement.{
  db_prepare_message-Answers, db_prepare_message-Refines,
}
use messaging_service.Database.Mail.{pending_msg}
use messaging_service.Database.Mail.Laws.{mailbox}
use messaging_service.Program.{ret, run}
use messaging_service.Handlers.{f_unregister}
use messaging_service.Requests.Reading.{unregister, handler}
use messaging_service.Server.{Steps}
use messaging_service.Server.Arrivals.{Arrival, thread}
use messaging_service.Server.Mail.Requests.{IsReadable}
use messaging_service.Server.Mail.Overtaken.{
  NothingRefused, all_open, all_open-UsersAllowed, sends_message, prepared, final, overtaken,
  final-users, final-left,
}

unregister_spec-gone : (b : Bytes) (dir : Directory) → (unregister_spec b dir).1 b ≡ none
unfolding unregister_spec assign
unregister_spec-gone b dir = elim (Option-cases (dir b)) [
  | inl e ↦ rw (e, unregister_spec) e
  | inr (u, e) ↦ rw (e, unregister_spec) (rw (streq_refl b, assign) refl)
]

-- Both threads have returned; the receiver has no account, and the message is in the receiver's file.
pub record Orphaned (x y : Arrival) (d : Disk) (b : Bytes) (m : PendingMsg) : Type 0 where
  pub disk : Disk
  pub steps : Steps NothingRefused (thread x ∷ thread y ∷ []) d (ret false ∷ ret false ∷ []) disk
  pub table : Table
  pub represents : Represents disk table
  pub gone : lookup b table ≡ none
  pub left : Memᴰ m (mailbox disk b)

module _ (a b text : Bytes) (p1 p2 : Option Bytes) (u1 u2 : Prepared) (d : Disk) where
  abbrev unregisters : Arrival
  unregisters = record { peer = p2; unset = u2; request = unregister b }

  -- A thread serves a SEND from a to b and another an UNREGISTER of b, with strings of at most 254
  -- bytes without a zero byte, on a disk that holds a table with both users in which b is offline.
  -- There is an interleaving of their steps, in which no file is refused, behind which both threads
  -- have returned, the disk holds a table without b, and the file of b holds the message of the SEND,
  -- with the id that follows a's last one.
  pub unregister_leaves_message :
      (t : Table) (u v : User)
      → IsReadable (sends_message a b text p1 u1)
      → IsReadable unregisters
      → Represents d t
      → lookup a t ≡ some u
      → lookup b t ≡ some v
      → v.connected ≡ 0
      → Orphaned
          (sends_message a b text p1 u1)
          unregisters
          d
          b
          (pending_msg a (following_id u.last_id) text none)
  unfolding run handler f_unregister
  unregister_leaves_message t u v h k r e f offline =
      let answers =
        db_prepare_message-Answers all_open a b u1 d t u v all_open-UsersAllowed r e f in
      let sent = db_prepare_message-Refines all_open a b u1 d t all_open-UsersAllowed r in
      let removed =
        db_unregister-Refines all_open b (prepared a b text p1 u1 unregisters d).2 sent.table
          all_open-UsersAllowed sent.represents in
      record {
        disk = final a b text p1 u1 unregisters d;
        steps =
            overtaken a b text p1 u1 unregisters d h k answers.code (answers.connected ∙ offline);
        table = removed.table;
        represents = record {
          file = final-users a b text p1 u1 unregisters d ∙ removed.represents.file;
          valid = removed.represents.valid;
          distinct = removed.represents.distinct;
        };
        gone = removed.view b ∙ unregister_spec-gone b (λ j. lookup j sent.table);
        left = final-left a b text p1 u1 unregisters d (following_id u.last_id) answers.id;
      }
