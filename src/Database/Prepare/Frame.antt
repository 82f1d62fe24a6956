-- ===== src/Database/Prepare/Frame.antt =====
-- What db_prepare_message leaves alone: the message files.
use messaging_service.Prelude.{
  ◌≡◌, Bool, true, false, none, some, inl, inr, Bytes, [], ◌&&◌, Bool-cases, Option-cases,
}
use messaging_service.Users.{lines_of}
use messaging_service.Disk.{Disk, Refusals, temp_usuarios, truncate, open_users}
use messaging_service.Database.Accounts.Frame.{rename_users-messages}
use messaging_service.Database.Prepare.{
  Prepared, db_prepare_message, prepare_end, exist_loop, prepare_loop,
}

prepare_end-messages :
    (b : Bool) (d : Disk) (r : Prepared × Bytes) → (prepare_end b d r).2.messages ≡ d.messages
unfolding prepare_end
prepare_end-messages true d (p, out) = rename_users-messages (record d { users = none })
prepare_end-messages false d (p, out) =
    rename_users-messages (record d { users = none; temp_users = some out })

-- The choice of an id leaves all message files alone, on every path.
pub db_prepare_message-messages :
    (refuses : Refusals) (a b : Bytes) (p : Prepared) (d : Disk)
    → (db_prepare_message refuses a b p d).2.messages ≡ d.messages
unfolding db_prepare_message
db_prepare_message-messages refuses a b p d = elim (Option-cases (open_users refuses d)) [
  | inl e ↦ rw (e, db_prepare_message)
  | inr (content, e) ↦
      rw (e, db_prepare_message)
        (elim (Bool-cases (
          (exist_loop a b (lines_of content) false false).0
          && (exist_loop a b (lines_of content) false false).1)) [
            | inl f ↦ rw f (
                prepare_end-messages (refuses temp_usuarios truncate) d
                  (prepare_loop a b (lines_of content) p []))
            | inr f ↦ rw f
          ])
]
