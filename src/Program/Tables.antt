-- ===== src/Program/Tables.antt =====
-- Programs that keep usuarios.txt a table of valid users and change it by commands, whatever other
-- threads do between their steps.
use messaging_service.Prelude.{ℕ, suc, Bool, true, false, if◌then◌else◌}
use messaging_service.Disk.{Disk, Refusals}
use messaging_service.Users.Table.{Table}
use messaging_service.Directory.{Represents, Refines, UsersAllowed, Directory}
use messaging_service.Directory.Commands.{Command, Evolves}
use messaging_service.Program.{Outside, run, Prog, ret, emit, atomic, reach, ◌>>=◌}

pub record HoldsTable (d : Disk) : Type 0 where
  pub table : Table
  pub represents : Represents d table

-- Each step that a program may come to leaves a table, where it finds one and is refused no file of it,
-- and changes its users by commands of a kind.
unfoldable pub KeepsTable : {A : Type 0} → (Command → Type 0) → Prog A → Type 0
KeepsTable P (ret a) = Unit {0}
KeepsTable P (emit e p) = KeepsTable P p
KeepsTable P (atomic act k) =
    (r : Refusals) (d : Disk)
    → UsersAllowed r
    → (t : HoldsTable d) → Evolves P t.table (act r d) × KeepsTable P (k r d)
KeepsTable P (reach ip port k) = (b : Bool) → KeepsTable P (k b)

pub bind-KeepsTable :
    (P : Command → Type 0) {A B : Type 0} (p : Prog A) (f : A → Prog B)
    → KeepsTable P p
    → ((a : A) → KeepsTable P (f a))
    → KeepsTable P (p >>= f)
unfolding KeepsTable
bind-KeepsTable P (ret a) f h g = g a
bind-KeepsTable P (emit e p) f h g = bind-KeepsTable P p f h g
bind-KeepsTable P (atomic act k) f h g =
    λ r d a t. ((h r d a t).0, bind-KeepsTable P (k r d) f (h r d a t).1 g)
bind-KeepsTable P (reach ip port k) f h g = λ b. bind-KeepsTable P (k b) f (h b) g

pub if-KeepsTable :
    (P : Command → Type 0) {A : Type 0} (b : Bool) (p q : Prog A)
    → KeepsTable P p
    → KeepsTable P q
    → KeepsTable P (if b then p else q)
if-KeepsTable P true p q h g = h
if-KeepsTable P false p q h g = g

-- An operation that refines a specification keeps the table.
pub Refines-HoldsTable :
    {t : Table} {spec : Directory → ℕ × Directory} {r : ℕ × Disk}
    → Refines t spec r
    → HoldsTable r.1
Refines-HoldsTable f = record { table = f.table; represents = f.represents }

-- A table that has evolved is a table.
pub Evolves-HoldsTable :
    {P : Command → Type 0} {t : Table} {e : Disk} → Evolves P t e → HoldsTable e
Evolves-HoldsTable x = record { table = x.table; represents = x.represents }

-- So does a program that keeps the table leave one, where it runs alone.
pub run-HoldsTable :
    (P : Command → Type 0) {A : Type 0} (p : Prog A) (o : ℕ → Outside) (i : ℕ) (d : Disk)
    → ((k : ℕ) → UsersAllowed (o k).refuses)
    → KeepsTable P p
    → HoldsTable d
    → HoldsTable (run p o i d).disk
unfolding KeepsTable run
run-HoldsTable P (ret a) o i d w h t = t
run-HoldsTable P (emit e p) o i d w h t = run-HoldsTable P p o i d w h t
run-HoldsTable P (atomic act k) o i d w h t =
    let s = h (o i).refuses d (w i) t in
    run-HoldsTable P (k (o i).refuses d) o (suc i) (act (o i).refuses d) w s.1
      (Evolves-HoldsTable s.0)
run-HoldsTable P (reach ip port k) o i d w h t =
    run-HoldsTable P (k ((o i).reaches ip port)) o (suc i) d w (h ((o i).reaches ip port)) t
