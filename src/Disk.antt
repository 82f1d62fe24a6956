-- ===== src/Disk.antt =====
-- The database directory of a server (server/src/c_files/database.c): usuarios.txt, the message file
-- of each user, and the temporary files that are renamed over them.
use messaging_service.Prelude.{ℕ, Bool, Option, none, some, List, [], Bytes, if◌then◌else◌}
use messaging_service.Text.Chars.{streq}

-- The struct that is written to a message file. `file_name` is empty where there is no attachment.
pub record PendingMsg : Type 0 where
  pub sender : Bytes
  pub id : ℕ
  pub message : Bytes
  pub file_name : Bytes

pub data FilePath : Type 0 where
  usuarios : FilePath
  temp_usuarios : FilePath
  mensajes : Bytes → FilePath
  temp_mensajes : Bytes → FilePath

-- The three ways in which the database opens a file: `O_RDONLY`, `O_WRONLY | O_CREAT | O_APPEND` and
-- `O_WRONLY | O_CREAT | O_TRUNC`.
pub data Mode : Type 0 where
  read_only append truncate : Mode

-- Whether `open` returns -1 although the file is there or may be created: no descriptor is left, the
-- name is too long, permission is missing.
abbrev pub Refusals : Type 0
Refusals = FilePath → Mode → Bool

abbrev pub MessageFiles : Type 0
MessageFiles = Bytes → Option (List PendingMsg)

-- Each file, `none` where there is none.
pub record Disk : Type 0 where
  pub users : Option Bytes
  pub temp_users : Option Bytes
  pub messages : MessageFiles
  pub temp_messages : MessageFiles

unfoldable pub set_file : Bytes → Option (List PendingMsg) → MessageFiles → MessageFiles
set_file k v files j = if streq k j then v else files j

-- `open(path, O_RDONLY)`: what is read from the descriptor.
unfoldable pub open_users : Refusals → Disk → Option Bytes
open_users refuses d = if refuses usuarios read_only then none else d.users

unfoldable pub open_messages : Refusals → Bytes → Disk → Option (List PendingMsg)
open_messages refuses name d = if refuses (mensajes name) read_only then none else d.messages name

-- `rename(from, to)`: nothing happens where `from` is missing.
unfoldable pub rename_users : Disk → Disk
rename_users d = elim d.temp_users [
  | none ↦ d
  | some content ↦ record d { users = some content; temp_users = none }
]

unfoldable pub rename_messages : Bytes → Disk → Disk
rename_messages name d = elim (d.temp_messages name) [
  | none ↦ d
  | some content ↦ record d {
    messages = set_file name (some content) d.messages;
    temp_messages = set_file name none d.temp_messages;
  }
]

-- What is there to append to: a missing file is created.
abbrev pub or_empty {ℓ} : {A : Type ℓ} → Option (List A) → List A
or_empty none = []
or_empty (some l) = l
