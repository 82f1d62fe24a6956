-- ===== src/Program.antt =====
-- How a worker thread acts (server/src/c_files/funciones.c): it holds `db_mutex` for one function of the
-- database at a time, and between two of them other threads may change the disk. A handler is a
-- program of such atomic steps, of connections to the clients' listeners, and of what it sends.
pub mod Tables
pub mod Replies
pub mod Mail
pub mod Promises
use messaging_service.Prelude.{ℕ, suc, ◌≤◌, arith, Bool, List, [], ◌∷◌, ◌++◌, Bytes, ◌≡◌, refl, ap}
use messaging_service.Disk.{Disk, Refusals}

pub data Event : Type 0 where
  -- `sendMessage` to the client whose request is being served
  reply : Bytes → Event
  -- a connection to a listener at an address and a port, and the strings that are sent on it
  push : Bytes → ℕ → List Bytes → Event
  -- `log_rpc_send(usuario, operacion, fichero)`
  rpc : Bytes → Bytes → Bytes → Event
  -- a line on the server's terminal
  console : Bytes → Event

pub data Prog (A : Type 0) : Type 0 where
  ret : A → Prog A
  emit : Event → Prog A → Prog A
  -- a function of the database: what it does to the disk, and the rest, by what it returns
  atomic : (Refusals → Disk → Disk) → (Refusals → Disk → Prog A) → Prog A
  -- whether `socket` and `connect` succeed
  reach : Bytes → ℕ → (Bool → Prog A) → Prog A

infixl 5 ◌>>=◌ ◌>>◌
abbrev pub ◌>>=◌ : {A B : Type 0} → Prog A → (A → Prog B) → Prog B
ret a >>= f = f a
emit e p >>= f = emit e (p >>= f)
atomic act k >>= f = atomic act (λ r d. k r d >>= f)
reach ip port k >>= f = reach ip port (λ b. k b >>= f)

abbrev pub ◌>>◌ : {A B : Type 0} → Prog A → Prog B → Prog B
p >> q = p >>= λ _. q

abbrev pub send : Event → Prog (Unit {0})
send e = emit e (ret tt)

-- A function of the database as a step: its result and its change of the disk.
abbrev pub call : {A : Type 0} → (Refusals → Disk → A × Disk) → Prog A
call op = atomic (λ r d. (op r d).1) (λ r d. ret (op r d).0)

-- One that only reads.
abbrev pub look : {A : Type 0} → (Refusals → Disk → A) → Prog A
look op = atomic (λ r d. d) (λ r d. ret (op r d))

-- What the operating system and the network answer at one step.
pub record Outside : Type 0 where
  pub refuses : Refusals
  pub reaches : Bytes → ℕ → Bool

pub record Outcome (A : Type 0) : Type 0 where
  pub result : A
  pub disk : Disk
  -- the number of the step after the last
  pub step : ℕ
  pub events : List Event

with_event : {A : Type 0} → Event → Outcome A → Outcome A
with_event e o = record o { events = e ∷ o.events }

-- The run of one handler alone, from step `i` on.
unfoldable pub run : {A : Type 0} → Prog A → (ℕ → Outside) → ℕ → Disk → Outcome A
unfolding with_event
run (ret a) o i d = record { result = a; disk = d; step = i; events = [] }
run (emit e p) o i d = with_event e (run p o i d)
run (atomic act k) o i d = run (k (o i).refuses d) o (suc i) (act (o i).refuses d)
run (reach ip port k) o i d = run (k ((o i).reaches ip port)) o (suc i) d

-- The answer of the network decides how a program goes on.
pub run-reach :
    {A : Type 0} (ip : Bytes) (port : ℕ) (k : Bool → Prog A) (o : ℕ → Outside) (i : ℕ) (d : Disk)
    (b : Bool)
    → (o i).reaches ip port ≡ b
    → run (reach ip port k) o i d ≡ run (k b) o (suc i) d
unfolding run
run-reach ip port k o i d b e = ap (λ x. run (k x) o (suc i) d) e

abbrev pub with_events : {A : Type 0} → List Event → Outcome A → Outcome A
with_events es o = record o { events = es ++ o.events }

-- A program goes on from where its first part has ended.
pub run-bind :
    {A B : Type 0} (p : Prog A) (f : A → Prog B) (o : ℕ → Outside) (i : ℕ) (d : Disk)
    → run (p >>= f) o i d
      ≡ with_events
          (run p o i d).events
          (run (f (run p o i d).result) o (run p o i d).step (run p o i d).disk)
unfolding run
run-bind (ret a) f o i d = refl
run-bind (emit e p) f o i d = ap (with_event e) (run-bind p f o i d)
run-bind (atomic act k) f o i d = run-bind (k (o i).refuses d) f o (suc i) (act (o i).refuses d)
run-bind (reach ip port k) f o i d = run-bind (k ((o i).reaches ip port)) f o (suc i) d

-- The steps of a run are numbered upwards.
pub run-step-le :
    {A : Type 0} (p : Prog A) (o : ℕ → Outside) (i : ℕ) (d : Disk) → i ≤ (run p o i d).step
unfolding run
run-step-le (ret a) o i d = omega arith
run-step-le (emit e p) o i d = run-step-le p o i d
run-step-le (atomic act k) o i d =
    omega (arith, run-step-le (k (o i).refuses d) o (suc i) (act (o i).refuses d))
run-step-le (reach ip port k) o i d =
    omega (arith, run-step-le (k ((o i).reaches ip port)) o (suc i) d)

-- What the client whose request is served receives.
unfoldable pub replies : List Event → List Bytes
replies [] = []
replies (reply s ∷ es) = s ∷ replies es
replies (push ip port strings ∷ es) = replies es
replies (rpc user operation file ∷ es) = replies es
replies (console line ∷ es) = replies es

-- The strings that go to listeners, with the address and the port.
unfoldable pub pushes : List Event → List (Bytes × ℕ × List Bytes)
pushes [] = []
pushes (reply s ∷ es) = pushes es
pushes (push ip port strings ∷ es) = (ip, port, strings) ∷ pushes es
pushes (rpc user operation file ∷ es) = pushes es
pushes (console line ∷ es) = pushes es
