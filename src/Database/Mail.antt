-- ===== src/Database/Mail.antt =====
-- database.c: the message files, db_store_message, db_delete_message, db_get_pending_messages.
pub mod Laws
pub mod Frame
pub mod Commands
use messaging_service.Prelude.{
  ℕ, zero, suc, Bool, true, false, Option, none, some, List, [], ◌∷◌, ◌++◌, Bytes, if◌then◌else◌,
  ◌==◌,
}
use messaging_service.Disk.{
  Disk, PendingMsg, Refusals, MessageFiles, mensajes, temp_mensajes, append, truncate, set_file,
  open_messages, rename_messages, or_empty,
}

-- The first `n` bytes: what `strncpy(to, from, n)` keeps of a string.
unfoldable pub strncpy : ℕ → Bytes → Bytes
strncpy zero s = []
strncpy (suc n) [] = []
strncpy (suc n) (c ∷ s) = c ∷ strncpy n s

-- `fileName` is NULL for a message without attachment: the field stays empty.
file_field : Option Bytes → Bytes
unfolding strncpy
file_field none = []
file_field (some file_name) = strncpy 255 file_name

unfoldable pub pending_msg : Bytes → ℕ → Bytes → Option Bytes → PendingMsg
unfolding strncpy file_field
pending_msg sender msg_id message file_name = record {
  sender = strncpy 255 sender;
  id = msg_id;
  message = strncpy 255 message;
  file_name = file_field file_name;
}

unfoldable pub db_store_message :
    Refusals → Bytes → Bytes → ℕ → Bytes → Option Bytes → Disk → ℕ × Disk
unfolding set_file
db_store_message refuses receiver sender msg_id message file_name d =
    if refuses (mensajes receiver) append then (2, d) else (
      0,
      record d {
        messages =
            set_file receiver
              (some (
                or_empty (d.messages receiver) ++ pending_msg sender msg_id message file_name ∷ []))
              d.messages;
      },
    )

-- The loop of db_delete_message: the messages of another id are copied.
unfoldable pub delete_loop : ℕ → List PendingMsg → List PendingMsg → List PendingMsg
delete_loop msg_id [] out = out
delete_loop msg_id (m ∷ ms) out =
    delete_loop msg_id ms (if m.id == msg_id then out else out ++ m ∷ [])

-- The file is unlinked and the temporary file renamed, whether or not that could be opened.
delete_end : Bool → Bytes → Disk → List PendingMsg → Disk
unfolding rename_messages set_file
delete_end true name d out =
    rename_messages name (record d { messages = set_file name none d.messages })
delete_end false name d out = rename_messages name (record d {
  messages = set_file name none d.messages;
  temp_messages = set_file name (some out) d.temp_messages;
})

unfoldable pub db_delete_message : Refusals → Bytes → ℕ → Disk → ℕ × Disk
unfolding delete_end open_messages delete_loop
db_delete_message refuses user_name msg_id d = elim (open_messages refuses user_name d) [
  | none ↦ (0, d)
  | some ms ↦ (
    0,
    delete_end (refuses (temp_mensajes user_name) truncate) user_name d (delete_loop msg_id ms []),
  )
]

-- The array that is returned with its length; the result code is always 0.
unfoldable pub db_get_pending_messages : Refusals → Bytes → Disk → List PendingMsg
unfolding open_messages
db_get_pending_messages refuses user_name d = or_empty (open_messages refuses user_name d)
