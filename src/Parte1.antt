-- ===== src/Parte1.antt =====
-- parte1/server/src: the server before attachments and the log. Its database.c has the text of parte2's,
-- but for db_store_message and db_get_connected_users: Parte1.Shared names the functions of the rest. Its
-- PendingMsg has no `fileName`: here that field is empty, and is never read.
pub mod Handlers
pub mod Requests
pub mod Plain
pub mod Closing
pub mod Delivered
pub mod Listings
pub mod Agreement
pub mod Startup
pub mod Shared
pub mod Reading
pub mod Tables
use messaging_service.Prelude.{
  ℕ, ◌+◌, Bool, true, false, Option, none, some, List, [], ◌∷◌, ◌++◌, Bytes, if◌then◌else◌, ◌==◌,
  not,
}
use messaging_service.Users.{sscanf_user, lines_of}
use messaging_service.Disk.{
  Disk, PendingMsg, Refusals, mensajes, append, set_file, open_users, or_empty,
}
use messaging_service.Database.Mail.{strncpy}
use messaging_service.Database.Online.{Census, census_loop, Listing}

unfoldable pub db_store_message : Refusals → Bytes → Bytes → ℕ → Bytes → Disk → ℕ × Disk
unfolding set_file strncpy
db_store_message refuses receiver sender msg_id message d =
    if refuses (mensajes receiver) append then (2, d) else (
      0,
      record d {
        messages =
            set_file receiver
              (some (
                or_empty (d.messages receiver)
                ++ (record {
                  sender = strncpy 255 sender;
                  id = msg_id;
                  message = strncpy 255 message;
                  file_name = [];
                })
                  ∷ []))
              d.messages;
      },
    )

-- The second pass puts the names into the array.
unfoldable pub list_loop : List Bytes → List Bytes → List Bytes
list_loop [] list = list
list_loop (line ∷ lines) list = elim (sscanf_user line) [
  | none ↦ list_loop lines list
  | some u ↦ list_loop lines (if u.connected == 1 then list ++ u.name ∷ [] else list)
]

unfoldable pub listed : Bytes → Census → Listing
unfolding list_loop
listed content c =
    if not c.req_exists
    then record { code = 2; num_users = 0; users_list = [] }
    else if c.req_connected == 0
    then record { code = 1; num_users = 0; users_list = [] }
    else record {
      code = 0;
      num_users = c.count;
      users_list = if c.count == 0 then [] else list_loop (lines_of content) [];
    }

unfoldable pub db_get_connected_users : Refusals → Bytes → Disk → Listing
unfolding listed open_users census_loop
db_get_connected_users refuses requesting d = elim (open_users refuses d) [
  | none ↦ record { code = 2; num_users = 0; users_list = [] }
  | some content ↦ listed content (
      census_loop requesting (lines_of content)
        (record { req_exists = false; req_connected = 0; count = 0 }))
]
