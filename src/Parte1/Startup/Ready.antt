-- ===== src/Parte1/Startup/Ready.antt =====
-- servidor.c of parte1: what main leaves where it returns, and where it comes to its accept loop.
use mathlib.Core.Option
use messaging_service.Prelude.{
  ℕ, ◌≡◌, refl, subst, sym, ◌⊎◌, none, some, false, [], ◌∷◌, Bytes, List, Bool-cases, Option-cases,
  inl, inr, Option,
}
use messaging_service.Text.Scan.{strtol}
use messaging_service.Handlers.Delivery.{port_of}
use messaging_service.Disk.{usuarios, append}
use messaging_service.Database.Accounts.{db_init}
use messaging_service.Program.Tables.{HoldsTable}
use messaging_service.Rpc.{minus_one}
use messaging_service.Startup.{
  System, Process, Launch, returns, serves, crashes, close, print_line, greet, announce,
  bind_and_listen, open_socket, port_argument,
}
use messaging_service.Startup.Ready.{IsReady, alone, db_init-HoldsTable, open_socket-IsReady}
use messaging_service.Parte1.Startup.{main, manejador_sigint}

abbrev process : Launch → Process
process (returns code p) = p
process (serves sd p) = p
process (crashes sd p) = p

-- The disk holds a table in any case, and a null pointer is dereferenced only where the host has no
-- address. Where main returns, no socket is open; where it listens, that is on
-- the port, and SIGINT closes the one socket.
abbrev pub IsStarted : Option Bytes → Option ℕ → Launch → Type 0
IsStarted host port (returns code p) = (code ≡ minus_one) × (p.sockets ≡ []) × HoldsTable p.disk
IsStarted host port (serves sd p) =
    (p.port ≡ port)
    × (p.sockets ≡ sd ∷ [])
    × HoldsTable p.disk
    × ((manejador_sigint sd p).1.sockets ≡ [])
    × ((manejador_sigint sd p).1.log ≡ p.log)
IsStarted host port (crashes sd p) =
    (host ≡ none) × (p.port ≡ port) × (p.sockets ≡ sd ∷ []) × HoldsTable p.disk

greet-disk :
    (o : System) (ip : Bytes) (puerto sd : ℕ) (p : Process)
    → (process (greet o ip puerto sd p)).disk ≡ p.disk
unfolding greet close print_line
greet-disk o ip puerto sd p = elim (Bool-cases o.installs) [
  | inl e ↦ rw (e, greet) refl
  | inr e ↦ rw (e, greet) refl
]

announce-disk :
    (o : System) (puerto sd : ℕ) (p : Process) → (process (announce o puerto sd p)).disk ≡ p.disk
unfolding announce
announce-disk o puerto sd p = elim (Option-cases o.ip_local) [
  | inl e ↦ rw (e, announce) refl
  | inr (ip, e) ↦ rw (e, announce) (greet-disk o ip puerto sd p)
]

bind_and_listen-disk :
    (o : System) (puerto sd : ℕ) (p : Process)
    → (process (bind_and_listen o puerto sd p)).disk ≡ p.disk
unfolding bind_and_listen close print_line
bind_and_listen-disk o puerto sd p = elim (Bool-cases o.binds) [
  | inr e ↦ rw (e, bind_and_listen) refl
  | inl e ↦ elim (Bool-cases o.listens) [
    | inr l ↦ rw (e, bind_and_listen) (rw (l, bind_and_listen) refl)
    | inl l ↦
        rw (e, bind_and_listen)
          (rw (l, bind_and_listen)
            (announce-disk o puerto sd (record p { port = some (port_of puerto) })))
  ]
]

open_socket-disk :
    (o : System) (puerto : ℕ) (p : Process) → (process (open_socket o puerto p)).disk ≡ p.disk
unfolding open_socket print_line
open_socket-disk o puerto p = elim (Option-cases o.socket) [
  | inl e ↦ rw (e, open_socket) refl
  | inr (sd, e) ↦
      rw (e, open_socket) (bind_and_listen-disk o puerto sd (record p { sockets = sd ∷ p.sockets }))
]

IsReady-IsStarted :
    (host : Option Bytes) (port : Option ℕ) (l : Launch)
    → IsReady host port l
    → HoldsTable (process l).disk
    → IsStarted host port l
unfolding manejador_sigint close print_line
IsReady-IsStarted host port (returns code p) h t = (h.0, h.1, t)
IsReady-IsStarted host port (serves sd p) h t = (h.0, h.1, t, rw h.1 (alone sd), refl)
IsReady-IsStarted host port (crashes sd p) h t = (h.0, h.1, h.2, t)

-- main of parte1's servidor.c, on a disk that holds a table or has no usuarios.txt, where that may be
-- created and the process has no socket open, whatever its arguments are and whatever calls of the
-- system fail: the disk holds a table behind it; where it returns before its accept loop the result is
-- -1 and no socket is open; where it comes to the loop it listens on the one socket that it has
-- opened, at the port that the arguments name, and manejador_sigint closes that socket; and where
-- gethostbyname gives no address for the host, it may come to dereference the null pointer instead,
-- when it listens at that port.
pub parte1_main-IsStarted :
    (argv : List Bytes) (o : System) (p : Process)
    → o.refuses usuarios append ≡ false
    → (p.disk.users ≡ none) ⊎ HoldsTable p.disk
    → p.sockets ≡ []
    → IsStarted o.ip_local
        (Option.map (λ port. port_of (strtol port)) (port_argument argv))
        (main argv o p)
unfolding main print_line
parte1_main-IsStarted argv o p a t h =
    let q : Process = record p { disk = (db_init o.refuses p.disk).1 } in
    let holds = db_init-HoldsTable o.refuses p.disk a t in
    elim (Option-cases (port_argument argv)) [
      | inl e ↦ rw (e, main) (refl, h, holds)
      | inr (port, e) ↦
          rw (e, main)
            (IsReady-IsStarted o.ip_local (some (port_of (strtol port)))
              (open_socket o (strtol port) q) (open_socket-IsReady o (strtol port) q h holds)
              (subst HoldsTable (sym (open_socket-disk o (strtol port) q)) holds))
    ]
