-- ===== src/Database/Accounts.antt =====
-- database.c: db_init, db_register, db_unregister, db_connect, db_disconnect.
-- Each returns its result code and the new disk.
pub mod Loops
pub mod Refinement
pub mod Sessions
pub mod Frame
pub mod Failure
pub mod Names
use messaging_service.Prelude.{
  ℕ, Bool, true, false, Option, none, some, List, [], ◌∷◌, ◌++◌, Bytes, if◌then◌else◌, ◌==◌, codes,
}
use messaging_service.Text.Chars.{streq}
use messaging_service.Users.{User, format_user, sscanf_user, lines_of}
use messaging_service.Disk.{
  Disk, Refusals, usuarios, temp_usuarios, read_only, append, truncate, open_users, rename_users,
  set_file, or_empty,
}

-- The directory is created where it is missing, and usuarios.txt in it.
unfoldable pub db_init : Refusals → Disk → ℕ × Disk
db_init refuses d =
    if refuses usuarios append then (0, d) else (0, record d { users = some (or_empty d.users) })

-- The row that `"%s 0 0.0.0.0 0 0\n"` writes.
unfoldable pub new_user : Bytes → User
new_user name = record { name = name; connected = 0; ip = codes "0.0.0.0"; port = 0; last_id = 0 }

-- The loop of db_register: whether a line has the name already.
unfoldable pub name_taken : Bytes → List Bytes → Bool
name_taken user_name [] = false
name_taken user_name (line ∷ lines) = elim (sscanf_user line) [
  | none ↦ name_taken user_name lines
  | some u ↦ if streq u.name user_name then true else name_taken user_name lines
]

taken : Bytes → Option Bytes → Bool
unfolding name_taken
taken user_name none = false
taken user_name (some content) = name_taken user_name (lines_of content)

unfoldable pub db_register : Refusals → Bytes → Disk → ℕ × Disk
unfolding taken open_users new_user
db_register refuses user_name d =
    if taken user_name (open_users refuses d)
    then (1, d)
    else if refuses usuarios append
    then (2, d)
    else (0, record d { users = some (or_empty d.users ++ format_user (new_user user_name)) })

-- The loop of db_unregister: `found`, and what has been written to the temporary file.
unfoldable pub unregister_loop : Bytes → List Bytes → Bool → Bytes → Bool × Bytes
unregister_loop user_name [] found out = (found, out)
unregister_loop user_name (line ∷ lines) found out = elim (sscanf_user line) [
  | none ↦ unregister_loop user_name lines found out
  | some u ↦
      let skip = unregister_loop user_name lines true out in
      let copy = unregister_loop user_name lines found (out ++ format_user u) in
      if streq u.name user_name then skip else copy
]

unregister_end : Bytes → Disk → Bool × Bytes → ℕ × Disk
unfolding rename_users
unregister_end user_name d (true, out) =
    let d' = rename_users (record d { users = none; temp_users = some out }) in
    (0, record d' { messages = set_file user_name none d'.messages })
unregister_end user_name d (false, out) = (1, record d { temp_users = none })

unfoldable pub db_unregister : Refusals → Bytes → Disk → ℕ × Disk
unfolding unregister_end open_users unregister_loop
db_unregister refuses user_name d = elim (open_users refuses d) [
  | none ↦ (1, d)
  | some content ↦
      if refuses temp_usuarios truncate
      then (2, d)
      else unregister_end user_name d (unregister_loop user_name (lines_of content) false [])
]

-- The loop of db_connect: `status`, and what has been written to the temporary file.
unfoldable pub connect_loop : Bytes → Bytes → ℕ → List Bytes → ℕ → Bytes → ℕ × Bytes
connect_loop user_name ip_in port_in [] status out = (status, out)
connect_loop user_name ip_in port_in (line ∷ lines) status out = elim (sscanf_user line) [
  | none ↦ connect_loop user_name ip_in port_in lines status out
  | some u ↦
      let copy = out ++ format_user u in
      let online = record u { connected = 1; ip = ip_in; port = port_in } in
      let already = connect_loop user_name ip_in port_in lines 2 copy in
      let now = connect_loop user_name ip_in port_in lines 0 (out ++ format_user online) in
      let other = connect_loop user_name ip_in port_in lines status copy in
      if streq u.name user_name then (if u.connected == 1 then already else now) else other
]

-- The end of db_connect and db_disconnect: the temporary file replaces usuarios.txt on success.
update_end : Disk → ℕ × Bytes → ℕ × Disk
unfolding rename_users
update_end d (status, out) =
    if status == 0
    then (status, rename_users (record d { users = none; temp_users = some out }))
    else (status, record d { temp_users = none })

unfoldable pub db_connect : Refusals → Bytes → Bytes → ℕ → Disk → ℕ × Disk
unfolding update_end open_users connect_loop
db_connect refuses user_name ip_in port_in d = elim (open_users refuses d) [
  | none ↦ (1, d)
  | some content ↦
      if refuses temp_usuarios truncate
      then (3, d)
      else update_end d (connect_loop user_name ip_in port_in (lines_of content) 1 [])
]

unfoldable pub disconnect_loop : Bytes → List Bytes → ℕ → Bytes → ℕ × Bytes
disconnect_loop user_name [] status out = (status, out)
disconnect_loop user_name (line ∷ lines) status out = elim (sscanf_user line) [
  | none ↦ disconnect_loop user_name lines status out
  | some u ↦
      let copy = out ++ format_user u in
      let offline = record u { connected = 0; ip = codes "0.0.0.0"; port = 0 } in
      let already = disconnect_loop user_name lines 2 copy in
      let now = disconnect_loop user_name lines 0 (out ++ format_user offline) in
      let other = disconnect_loop user_name lines status copy in
      if streq u.name user_name then (if u.connected == 0 then already else now) else other
]

unfoldable pub db_disconnect : Refusals → Bytes → Disk → ℕ × Disk
unfolding update_end open_users disconnect_loop
db_disconnect refuses user_name d = elim (open_users refuses d) [
  | none ↦ (1, d)
  | some content ↦
      if refuses temp_usuarios truncate
      then (3, d)
      else update_end d (disconnect_loop user_name (lines_of content) 1 [])
]
