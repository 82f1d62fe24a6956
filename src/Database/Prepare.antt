-- ===== src/Database/Prepare.antt =====
-- database.c: db_prepare_message, which gives a message its id.
pub mod Refinement
pub mod Loss
pub mod Frame
use messaging_service.Prelude.{
  ℕ, ◌+◌, ◌%◌, ◌^◌, Bool, true, false, Option, none, some, List, [], ◌∷◌, ◌++◌, Bytes,
  if◌then◌else◌, ◌==◌, ◌&&◌, ◌≡◌, refl,
}
use messaging_service.Text.Chars.{streq}
use messaging_service.Text.Scan.{word_mod}
use messaging_service.Users.{User, format_user, sscanf_user, lines_of}
use messaging_service.Disk.{Disk, Refusals, temp_usuarios, truncate, open_users, rename_users}

-- The variables of the caller that the function writes through its pointers. They hold anything before.
pub record Prepared : Type 0 where
  pub msg_id : ℕ
  pub recv_connected : ℕ
  pub recv_ip : Bytes
  pub recv_port : ℕ

-- `if (last_id == 4294967295U) last_id = 0; last_id++;`
unfoldable pub next_id : ℕ → ℕ
next_id last_id = ((if last_id == 4294967295 then 0 else last_id) + 1) % word_mod

-- The first pass: `sender_exists` and `receiver_exists`.
unfoldable pub exist_loop : Bytes → Bytes → List Bytes → Bool → Bool → Bool × Bool
exist_loop sender receiver [] s r = (s, r)
exist_loop sender receiver (line ∷ lines) s r = elim (sscanf_user line) [
  | none ↦ exist_loop sender receiver lines s r
  | some u ↦
      exist_loop sender receiver lines (if streq u.name sender then true else s)
        (if streq u.name receiver then true else r)
]

-- One line of the second pass: the line as it is written back, and the output variables.
unfoldable pub count_message : Bytes → User → User
unfolding next_id
count_message sender u = if streq u.name sender then record u { last_id = next_id u.last_id } else u

unfoldable pub note_sender : Bytes → User → Prepared → Prepared
note_sender sender u p = if streq u.name sender then record p { msg_id = u.last_id } else p

unfoldable pub note_receiver : Bytes → User → Prepared → Prepared
note_receiver receiver u p =
    if streq u.name receiver
    then record p { recv_connected = u.connected; recv_ip = u.ip; recv_port = u.port }
    else p

unfoldable pub prepare_loop : Bytes → Bytes → List Bytes → Prepared → Bytes → Prepared × Bytes
unfolding count_message note_sender note_receiver
prepare_loop sender receiver [] p out = (p, out)
prepare_loop sender receiver (line ∷ lines) p out = elim (sscanf_user line) [
  | none ↦ prepare_loop sender receiver lines p out
  | some u ↦
      prepare_loop sender receiver lines
        (note_receiver receiver (count_message sender u)
          (note_sender sender (count_message sender u) p))
        (out ++ format_user (count_message sender u))
]

-- `unlink` and `rename` are called whether or not the temporary file could be opened; where it could
-- not, every write to it fails, and it is what it was.
prepare_end : Bool → Disk → Prepared × Bytes → ℕ × Prepared × Disk
unfolding rename_users
prepare_end true d (p, out) = (0, p, rename_users (record d { users = none }))
prepare_end false d (p, out) =
    (0, p, rename_users (record d { users = none; temp_users = some out }))

unfoldable pub db_prepare_message : Refusals → Bytes → Bytes → Prepared → Disk → ℕ × Prepared × Disk
unfolding prepare_end open_users exist_loop prepare_loop
db_prepare_message refuses sender receiver p d = elim (open_users refuses d) [
  | none ↦ (2, p, d)
  | some content ↦
      let (sender_exists, receiver_exists) =
        exist_loop sender receiver (lines_of content) false false in
      if sender_exists && receiver_exists
      then prepare_end (refuses temp_usuarios truncate) d
          (prepare_loop sender receiver (lines_of content) p [])
      else (1, p, d)
]

wrap : next_id 4294967295 ≡ 1
unfolding next_id
wrap = refl
