-- ===== src/Directory.antt =====
-- The abstract view of usuarios.txt: which user stands under a name. The order of the lines and their
-- text are forgotten. Each account function of database.c is specified on it.
pub mod Commands
use messaging_service.Prelude.{
  ℕ, ◌≡◌, false, Option, none, some, Bytes, if◌then◌else◌, ◌==◌, codes, All, leb, ◌+◌,
}
use messaging_service.Text.Chars.{streq}
use messaging_service.Users.{User}
use messaging_service.Users.Laws.{IsUser}
use messaging_service.Users.Table.{Table, print_table, lookup, Distinct}
use messaging_service.Disk.{Disk, Refusals, usuarios, temp_usuarios, read_only, append, truncate}

abbrev pub Directory : Type 0
Directory = Bytes → Option User

unfoldable pub assign : Bytes → Option User → Directory → Directory
assign n v dir j = if streq n j then v else dir j

-- The disk holds a table of valid users with distinct names.
pub record Represents (d : Disk) (t : Table) : Type 0 where
  pub file : d.users ≡ some (print_table t)
  pub valid : All IsUser t
  pub distinct : Distinct t

-- The result code of an operation and the directory that it leaves are the specified ones, and what
-- is on the disk is a table again.
pub record Refines (t : Table) (spec : Directory → ℕ × Directory) (r : ℕ × Disk) : Type 0 where
  pub table : Table
  pub represents : Represents r.1 table
  pub code : r.0 ≡ (spec (λ j. lookup j t)).0
  pub view : (j : Bytes) → lookup j table ≡ (spec (λ i. lookup i t)).1 j

-- No file of the user table is refused.
pub record UsersAllowed (refuses : Refusals) : Type 0 where
  pub read : refuses usuarios read_only ≡ false
  pub add : refuses usuarios append ≡ false
  pub temp : refuses temp_usuarios truncate ≡ false

-- REGISTER: 1 where the name is taken, else the name belongs to a user who is offline.
unfoldable pub register_spec : Bytes → Directory → ℕ × Directory
register_spec n dir = elim (dir n) [
  | some u ↦ (1, dir)
  | none ↦ (
    0,
    assign n
        (some (record { name = n; connected = 0; ip = codes "0.0.0.0"; port = 0; last_id = 0 }))
        dir,
  )
]

-- UNREGISTER: 1 where there is no such user, else the name is free.
unfoldable pub unregister_spec : Bytes → Directory → ℕ × Directory
unregister_spec n dir = elim (dir n) [ none ↦ (1, dir) | some u ↦ (0, assign n none dir) ]

-- CONNECT: 1 where there is no such user, 2 where the user is online, else the user is online at that
-- address and keeps the last message id.
unfoldable pub connect_spec : Bytes → Bytes → ℕ → Directory → ℕ × Directory
connect_spec n ip port dir = elim (dir n) [
  | none ↦ (1, dir)
  | some u ↦
      if u.connected == 1
      then (2, dir)
      else (0, assign n (some (record u { connected = 1; ip = ip; port = port })) dir)
]

-- DISCONNECT: 1 where there is no such user, 2 where the user is offline, else the user is offline.
unfoldable pub disconnect_spec : Bytes → Directory → ℕ × Directory
disconnect_spec n dir = elim (dir n) [
  | none ↦ (1, dir)
  | some u ↦
      if u.connected == 0
      then (2, dir)
      else (0, assign n (some (record u { connected = 0; ip = codes "0.0.0.0"; port = 0 })) dir)
]

-- The id that follows `last_id` in the sender's own sequence 1, 2, …, 2 ^ 32 - 1, 1, …
unfoldable pub following_id : ℕ → ℕ
following_id last_id = if leb 4294967295 last_id then 1 else last_id + 1

-- SEND: 1 where the sender or the receiver is missing, else the sender has used one more id.
unfoldable pub prepare_spec : Bytes → Bytes → Directory → ℕ × Directory
unfolding following_id
prepare_spec sender receiver dir = elim (dir sender) [
  | none ↦ (1, dir)
  | some u ↦ elim (dir receiver) [
    | none ↦ (1, dir)
    | some v ↦ (0, assign sender (some (record u { last_id = following_id u.last_id })) dir)
  ]
]
