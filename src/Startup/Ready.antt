-- ===== src/Startup/Ready.antt =====
-- servidor.c: what main leaves where it returns, and where it comes to its accept loop.
use mathlib.Core.Option
use messaging_service.Prelude.{
  ℕ, ◌≡◌, refl, ◌⊎◌, inl, inr, true, false, Option, none, some, [], ◌∷◌, Bytes, List, arith,
  Bool-cases, Option-cases, ◌==◌,
}
use messaging_service.Text.Scan.{strtol}
use messaging_service.Handlers.Delivery.{port_of}
use messaging_service.Disk.{Disk, Refusals, usuarios, append}
use messaging_service.Users.Table.{print_table}
use messaging_service.Database.Accounts.{db_init}
use messaging_service.Program.Tables.{HoldsTable}
use messaging_service.Rpc.{minus_one, log_rpc_destroy}
use messaging_service.Startup.{
  System, Process, Launch, returns, serves, crashes, without_socket, close, print_line, greet,
  announce, bind_and_listen, open_socket, port_argument, main, manejador_sigint,
}

-- Where main returns it has no socket open; where it listens, that is on the port, the disk holds a table,
-- and SIGINT closes the one socket and the log client; and it dereferences a null pointer only where the
-- host has no address, when it listens on the port.
abbrev pub IsReady : Option Bytes → Option ℕ → Launch → Type 0
IsReady host port (returns code p) = (code ≡ minus_one) × (p.sockets ≡ [])
IsReady host port (serves sd p) =
    (p.port ≡ port)
    × (p.sockets ≡ sd ∷ [])
    × HoldsTable p.disk
    × ((manejador_sigint sd p).1.sockets ≡ [])
    × ((manejador_sigint sd p).1.log ≡ record { clnt = false; enabled = false })
IsReady host port (crashes sd p) =
    (host ≡ none) × (p.port ≡ port) × (p.sockets ≡ sd ∷ []) × HoldsTable p.disk

self : (n : ℕ) → (n == n) ≡ true
self n = ground arith

pub alone : (sd : ℕ) → without_socket sd (sd ∷ []) ≡ []
unfolding without_socket
alone sd = rw (self sd) refl

pub db_init-HoldsTable :
    (refuses : Refusals) (d : Disk)
    → refuses usuarios append ≡ false
    → (d.users ≡ none) ⊎ HoldsTable d
    → HoldsTable (db_init refuses d).1
unfolding db_init
db_init-HoldsTable refuses d a (inl e) =
    rw (a, db_init)
      (rw e (record {
        table = [];
        represents = record { file = unfold print_table in refl; valid = tt; distinct = tt };
      }))
db_init-HoldsTable refuses d a (inr t) =
    rw (a, db_init)
      (record {
        table = t.table;
        represents = record {
          file = rw t.represents.file refl;
          valid = t.represents.valid;
          distinct = t.represents.distinct;
        };
      })

greet-IsReady :
    (host : Option Bytes) (o : System) (ip : Bytes) (puerto sd : ℕ) (p : Process)
    → p.port ≡ some (port_of puerto)
    → p.sockets ≡ sd ∷ []
    → HoldsTable p.disk
    → IsReady host (some (port_of puerto)) (greet o ip puerto sd p)
unfolding greet close print_line manejador_sigint log_rpc_destroy
greet-IsReady host o ip puerto sd p b h t = elim (Bool-cases o.installs) [
  | inl e ↦ rw (e, greet) (b, h, t, rw h (alone sd), refl)
  | inr e ↦ rw (e, greet) (refl, rw h (alone sd))
]

announce-IsReady :
    (o : System) (puerto sd : ℕ) (p : Process)
    → p.port ≡ some (port_of puerto)
    → p.sockets ≡ sd ∷ []
    → HoldsTable p.disk
    → IsReady o.ip_local (some (port_of puerto)) (announce o puerto sd p)
unfolding announce
announce-IsReady o puerto sd p b h t = elim (Option-cases o.ip_local) [
  | inl e ↦ rw (e, announce) (refl, b, h, t)
  | inr (ip, e) ↦ rw (e, announce) (greet-IsReady (some ip) o ip puerto sd p b h t)
]

bind_and_listen-IsReady :
    (o : System) (puerto sd : ℕ) (p : Process)
    → p.sockets ≡ sd ∷ []
    → HoldsTable p.disk
    → IsReady o.ip_local (some (port_of puerto)) (bind_and_listen o puerto sd p)
unfolding bind_and_listen close print_line
bind_and_listen-IsReady o puerto sd p h t = elim (Bool-cases o.binds) [
  | inr e ↦ rw (e, bind_and_listen) (refl, rw h (alone sd))
  | inl e ↦ elim (Bool-cases o.listens) [
    | inr l ↦ rw (e, bind_and_listen) (rw (l, bind_and_listen) (refl, rw h (alone sd)))
    | inl l ↦
        rw (e, bind_and_listen) (rw (l, bind_and_listen) (announce-IsReady o puerto sd _ refl h t))
  ]
]

pub open_socket-IsReady :
    (o : System) (puerto : ℕ) (p : Process)
    → p.sockets ≡ []
    → HoldsTable p.disk
    → IsReady o.ip_local (some (port_of puerto)) (open_socket o puerto p)
unfolding open_socket print_line
open_socket-IsReady o puerto p h t = elim (Option-cases o.socket) [
  | inl e ↦ rw (e, open_socket) (refl, h)
  | inr (sd, e) ↦
      rw (e, open_socket)
        (bind_and_listen-IsReady o puerto sd (record p { sockets = sd ∷ p.sockets }) (rw h refl) t)
]

-- main of servidor.c, on a disk that holds a table or has no usuarios.txt, where that may be created
-- and the process has no socket open, whatever its arguments are and whatever calls of the system
-- fail: where it returns before its accept loop the result is -1 and no socket is open; where it comes
-- to the loop it listens on the one socket that it has opened, at the port that the arguments name,
-- the disk holds a table, and manejador_sigint closes that socket and destroys the log client; and
-- where gethostbyname gives no address for the host, it may come to dereference the null pointer
-- instead, when it listens at that port and the disk holds a table.
pub main-IsReady :
    (argv : List Bytes) (o : System) (p : Process)
    → o.refuses usuarios append ≡ false
    → (p.disk.users ≡ none) ⊎ HoldsTable p.disk
    → p.sockets ≡ []
    → IsReady o.ip_local
        (Option.map (λ port. port_of (strtol port)) (port_argument argv))
        (main argv o p)
unfolding main print_line
main-IsReady argv o p a t h = elim (Option-cases (port_argument argv)) [
  | inl e ↦ rw (e, main) (refl, h)
  | inr (port, e) ↦
      rw (e, main) (open_socket-IsReady o _ _ h (db_init-HoldsTable o.refuses p.disk a t))
]
