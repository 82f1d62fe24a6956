-- ===== src/Server/Tables.antt =====
-- The threads of the server and usuarios.txt: how their steps change its users.
pub mod Requests
pub mod Kept
use messaging_service.Prelude.{refl, All}
use messaging_service.Disk.{Disk, Refusals}
use messaging_service.Directory.{UsersAllowed}
use messaging_service.Directory.Commands.{Command, Evolves, no_command, Evolves-trans}
use messaging_service.Program.Tables.{HoldsTable, KeepsTable}
use messaging_service.Server.{Threads, Step, acts, sends, tries, passes, Steps, start, after}

module _ (P : Command → Type 0) where
  Step-KeepsTable :
      {r : Refusals} {ts ts' : Threads} {d d' : Disk}
      → UsersAllowed r
      → Step r ts d ts' d'
      → All (KeepsTable P) ts
      → (t : HoldsTable d) → All (KeepsTable P) ts' × Evolves P t.table d'
  unfolding KeepsTable
  Step-KeepsTable {r} {d = d} a acts h t = (((h.0 r d a t).1, h.1), (h.0 r d a t).0)
  Step-KeepsTable {d = d} a sends h t = (h, no_command d d t.table refl t.represents)
  Step-KeepsTable {d = d} a (tries b) h t = ((h.0 b, h.1), no_command d d t.table refl t.represents)
  Step-KeepsTable a (passes s) h t = let rest = Step-KeepsTable a s h.1 t in ((h.0, rest.0), rest.1)

  pub Steps-KeepsTable :
      {ts ts' : Threads} {d d' : Disk}
      → Steps UsersAllowed ts d ts' d'
      → All (KeepsTable P) ts
      → (t : HoldsTable d) → All (KeepsTable P) ts' × Evolves P t.table d'
  Steps-KeepsTable (start {d = d}) h t = (h, no_command d d t.table refl t.represents)
  Steps-KeepsTable (after r a s x) h t =
      let before = Steps-KeepsTable s h t in
      let last =
        Step-KeepsTable a x before.0
          (record { table = before.1.table; represents = before.1.represents }) in
      (last.0, Evolves-trans before.1 last.1)
