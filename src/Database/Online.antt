-- ===== src/Database/Online.antt =====
-- database.c: db_get_connected_users. funciones.c: get_user_info, the other reader of usuarios.txt.
pub mod Laws
pub mod Info
use messaging_service.Prelude.{
  ℕ, zero, suc, ◌+◌, Bool, true, false, Option, none, some, List, [], ◌∷◌, ◌++◌, Bytes,
  if◌then◌else◌, ◌==◌, codes, length, not,
}
use messaging_service.Text.Chars.{streq}
use messaging_service.Text.Scan.{print_int}
use messaging_service.Users.{User, sscanf_user, scan_user, lines_of}
use messaging_service.Disk.{Disk, Refusals, open_users}

-- `snprintf(buffer, sizeof(buffer), "%s :: %s :: %d", name, ip, port)`
unfoldable pub format_online : User → Bytes
format_online u = u.name ++ (codes " :: " ++ (u.ip ++ (codes " :: " ++ print_int u.port)))

-- The variables of the first pass.
pub record Census : Type 0 where
  pub req_exists : Bool
  pub req_connected : ℕ
  pub count : ℕ

unfoldable pub census_loop : Bytes → List Bytes → Census → Census
census_loop requesting [] c = c
census_loop requesting (line ∷ lines) c = elim (sscanf_user line) [
  | none ↦ census_loop requesting lines c
  | some u ↦ census_loop requesting lines (record {
    req_exists = if streq u.name requesting then true else c.req_exists;
    req_connected = if streq u.name requesting then u.connected else c.req_connected;
    count = if u.connected == 1 then c.count + 1 else c.count;
  })
]

-- The second pass: the strings in the order in which they are put into the array.
unfoldable pub list_loop : List Bytes → List Bytes → List Bytes
list_loop [] list = list
list_loop (line ∷ lines) list = elim (sscanf_user line) [
  | none ↦ list_loop lines list
  | some u ↦ list_loop lines (if u.connected == 1 then list ++ format_online u ∷ [] else list)
]

-- The array has `num_users` places.
pub record Listing : Type 0 where
  pub code : ℕ
  pub num_users : ℕ
  pub users_list : List Bytes

unfoldable pub listed : Bytes → Census → Listing
unfolding list_loop
listed content c =
    if not c.req_exists
    then record { code = 2; num_users = 0; users_list = [] }
    else if c.req_connected == 0
    then record { code = 1; num_users = 0; users_list = [] }
    else record {
      code = 0;
      num_users = c.count;
      users_list = if c.count == 0 then [] else list_loop (lines_of content) [];
    }

unfoldable pub db_get_connected_users : Refusals → Bytes → Disk → Listing
unfolding listed open_users census_loop
db_get_connected_users refuses requesting d = elim (open_users refuses d) [
  | none ↦ record { code = 2; num_users = 0; users_list = [] }
  | some content ↦ listed content (
      census_loop requesting (lines_of content)
        (record { req_exists = false; req_connected = 0; count = 0 }))
]

-- What get_user_info writes through its pointers.
pub record UserInfo : Type 0 where
  pub connected : ℕ
  pub ip : Bytes
  pub port : ℕ

-- `while (fscanf(f, "%255s %d %19s %d %u", …) == 5)`: the stream is scanned on, line ends do not count,
-- and the first text that is no user ends the loop. `none` alone says that the loop has not ended in as
-- many rounds as there is fuel.
unfoldable pub fscanf_loop : ℕ → Bytes → Bytes → Option (Option UserInfo)
fscanf_loop zero user_name s = none
fscanf_loop (suc fuel) user_name s = elim (scan_user s) [
  | none ↦ some none
  | some (u, rest) ↦
      let more = fscanf_loop fuel user_name rest in
      if streq u.name user_name
      then some (some (record { connected = u.connected; ip = u.ip; port = u.port }))
      else more
]

-- What the loop returns: it has ended, since each round takes a byte at least.
abbrev pub ended : Option (Option UserInfo) → Option UserInfo
ended none = none
ended (some result) = result

-- `none` is the result -1.
unfoldable pub get_user_info : Refusals → Bytes → Disk → Option UserInfo
unfolding open_users fscanf_loop
get_user_info refuses user_name d = elim (open_users refuses d) [
  | none ↦ none
  | some content ↦ ended (fscanf_loop (suc (length content)) user_name content)
]
