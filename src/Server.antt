-- ===== src/Server.antt =====
-- The worker threads of the server (servidor.c) on one disk: in each step one of them acts, in any order.
-- A function of database.c is one step, since it holds `db_mutex` from its first line to its last.
pub mod Arrivals
pub mod Tables
pub mod Mail
use messaging_service.Prelude.{ℕ, Bool, List, ◌∷◌, Bytes}
use messaging_service.Disk.{Disk, Refusals}
use messaging_service.Program.{Event, Prog, emit, atomic, reach}

abbrev pub Threads : Type 0
Threads = List (Prog Bool)

-- One step of one thread.
pub data Step (r : Refusals) : Threads → Disk → Threads → Disk → Type 0 where
  acts :
      {act : Refusals → Disk → Disk} {k : Refusals → Disk → Prog Bool} {ts : Threads} {d : Disk}
      → Step r (atomic act k ∷ ts) d (k r d ∷ ts) (act r d)
  sends :
      {e : Event} {p : Prog Bool} {ts : Threads} {d : Disk} → Step r (emit e p ∷ ts) d (p ∷ ts) d
  tries :
      {ip : Bytes} {port : ℕ} {k : Bool → Prog Bool} {ts : Threads} {d : Disk} (b : Bool)
      → Step r (reach ip port k ∷ ts) d (k b ∷ ts) d
  passes :
      {p : Prog Bool} {ts ts' : Threads} {d d' : Disk}
      → Step r ts d ts' d'
      → Step r (p ∷ ts) d (p ∷ ts') d'

-- Any number of steps, in which the system refuses files as it is allowed to.
pub data Steps (Allows : Refusals → Type 0) : Threads → Disk → Threads → Disk → Type 0 where
  start : {ts : Threads} {d : Disk} → Steps Allows ts d ts d
  after :
      {ts ts' ts'' : Threads} {d d' d'' : Disk} (r : Refusals)
      → Allows r
      → Steps Allows ts d ts' d'
      → Step r ts' d' ts'' d''
      → Steps Allows ts d ts'' d''
