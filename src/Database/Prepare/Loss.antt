-- ===== src/Database/Prepare/Loss.antt =====
-- database.c: db_prepare_message where its temporary file cannot be opened.
use messaging_service.Prelude.{◌≡◌, refl, true, false, none, some, Bytes}
use messaging_service.Users.{User}
use messaging_service.Users.Table.{Table, lookup, lines_of-print_table}
use messaging_service.Disk.{
  Disk, Refusals, usuarios, temp_usuarios, read_only, truncate, open_users, rename_users,
}
use messaging_service.Directory.{Represents}
use messaging_service.Database.Prepare.{Prepared, db_prepare_message, prepare_end}
use messaging_service.Database.Prepare.Refinement.{exist_loop-lookup}

-- Where usuarios.txt holds a table with both users and can be read, the temporary file cannot be
-- opened and no old one is there, db_prepare_message returns 0, and usuarios.txt is gone.
pub db_prepare_message_loses_users :
    (refuses : Refusals) (a b : Bytes) (p : Prepared) (d : Disk) (t : Table) (u v : User)
    → refuses usuarios read_only ≡ false
    → refuses temp_usuarios truncate ≡ true
    → d.temp_users ≡ none
    → Represents d t
    → lookup a t ≡ some u
    → lookup b t ≡ some v
    → ((db_prepare_message refuses a b p d).0 ≡ 0)
      × ((db_prepare_message refuses a b p d).2.users ≡ none)
unfolding db_prepare_message rename_users open_users
db_prepare_message_loses_users refuses a b p d t u v read temp old r e f =
    rw (read, db_prepare_message)
      (rw (r.file, db_prepare_message)
        (rw (lines_of-print_table t r.valid) (
          rw (exist_loop-lookup a b t false false r.valid)
            (rw (e, f) (rw (temp, prepare_end) (rw (old, rename_users) (refl, refl)))))))
