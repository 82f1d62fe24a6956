-- ===== src/Server/Tables/Requests.antt =====
-- Any number of requests, each served by a thread of its own.
use messaging_service.Prelude.{
  ◌≡◌, refl, ◌⊎◌, inl, inr, List, [], ◌∷◌, map, Option, none, some, Bytes, All, Bool,
}
use messaging_service.Text.Scan.{strtol}
use messaging_service.Text.Scan.Laws.{IsWord}
use messaging_service.Text.Scan.Results.{strtol-lt}
use messaging_service.Disk.{Disk}
use messaging_service.Database.Prepare.{Prepared}
use messaging_service.Program.{Prog, ret, ◌>>=◌}
use messaging_service.Directory.Commands.{
  Command, registers, unregisters, connects, disconnects, prepares, Evolves,
}
use messaging_service.Program.Tables.{HoldsTable, KeepsTable, bind-KeepsTable, Evolves-HoldsTable}
use messaging_service.Handlers.{f_register, f_unregister, f_disconnect, f_users}
use messaging_service.Handlers.Tables.{
  f_register-KeepsTable, f_unregister-KeepsTable, f_disconnect-KeepsTable, f_users-KeepsTable,
}
use messaging_service.Handlers.Delivery.{f_send, f_sendattach}
use messaging_service.Handlers.Delivery.Tables.{f_send-KeepsTable, f_sendattach-KeepsTable}
use messaging_service.Handlers.Connect.{f_connect}
use messaging_service.Handlers.Connect.Tables.{f_connect-KeepsTable}
use messaging_service.Requests.Reading.{
  Request, register, unregister, connect, disconnect, users, message, attach, strings, handler,
  Fields, tratar_peticion-encode,
}
use messaging_service.Directory.{UsersAllowed}
use messaging_service.Server.{Threads, Steps}
use messaging_service.Server.Arrivals.{Arrival, thread}
use messaging_service.Server.Tables.{Steps-KeepsTable}

-- The address is a text of 1 to 19 bytes.
abbrev pub IsPeer : Option Bytes → Type 0
IsPeer none = Unit
IsPeer (some ip) = IsWord 19 ip

-- A name that is registered has 1 to 255 bytes and no white space.
abbrev pub IsNamed : Request → Type 0
IsNamed (register n) = IsWord 255 n
IsNamed (unregister n) = Unit
IsNamed (connect n port) = Unit
IsNamed (disconnect n) = Unit
IsNamed (users n) = Unit
IsNamed (message a b m) = Unit
IsNamed (attach a b m f) = Unit

pub record IsProper (x : Arrival) : Type 0 where
  pub fields : Fields (strings x.request)
  pub peer : IsPeer x.peer
  pub named : IsNamed x.request

-- The commands that a thread may carry out for its request. Any thread may find that a listener is not
-- there, and disconnect its user.
unfoldable pub Asks : Arrival → Command → Type 0
Asks x (registers n) = x.request ≡ register n
Asks x (unregisters n) = x.request ≡ unregister n
Asks x (connects n ip port) =
    (x.peer ≡ some ip) × ((s : Bytes) × (x.request ≡ connect n s) × (strtol s ≡ port))
Asks x (disconnects n) = Unit
Asks x (prepares a b) =
    ((m : Bytes) × (x.request ≡ message a b m))
    ⊎ ((m : Bytes) × (f : Bytes) × (x.request ≡ attach a b m f))

unfoldable pub Asked : List Arrival → Command → Type 0
Asked [] c = ⊥
Asked (x ∷ xs) c = Asks x c ⊎ Asked xs c

module _ (P : Command → Type 0) where
  then_ret : (p : Prog (Unit {0})) (b : Bool) → KeepsTable P p → KeepsTable P (p >>= λ _. ret b)
  then_ret p b h = bind-KeepsTable P p _ h (λ u. unfold KeepsTable in tt)

  handler-KeepsTable :
      (peer : Option Bytes) (unset : Prepared) (q : Request)
      → IsPeer peer
      → IsNamed q
      → ((c : Command) → Asks (record { peer = peer; unset = unset; request = q }) c → P c)
      → KeepsTable P (handler peer unset q)
  unfolding handler Asks
  handler-KeepsTable peer unset (register n) w h ok =
      then_ret (f_register n) _ (f_register-KeepsTable P n h (ok (registers n) refl))
  handler-KeepsTable peer unset (unregister n) w h ok =
      then_ret (f_unregister n) _ (f_unregister-KeepsTable P n (ok (unregisters n) refl))
  handler-KeepsTable none unset (connect n port) w h ok = unfold f_connect KeepsTable in tt
  handler-KeepsTable (some ip) unset (connect n port) w h ok =
      then_ret (f_connect (some ip) n (strtol port)) _ (
        f_connect-KeepsTable P (λ j. ok (disconnects j) tt) n ip (strtol port) w (strtol-lt port)
          (ok (connects n ip (strtol port)) (refl, (port, refl, refl))))
  handler-KeepsTable peer unset (disconnect n) w h ok =
      then_ret (f_disconnect peer n) _ (f_disconnect-KeepsTable P peer n (ok (disconnects n) tt))
  handler-KeepsTable peer unset (users n) w h ok = then_ret (f_users n) _ (f_users-KeepsTable P n)
  handler-KeepsTable peer unset (message a b m) w h ok = then_ret (f_send unset a b m) _ (
      f_send-KeepsTable P (λ j. ok (disconnects j) tt) unset a b m
        (ok (prepares a b) (inl (m, refl))))
  handler-KeepsTable peer unset (attach a b m f) w h ok = then_ret (f_sendattach unset a b m f) _ (
      f_sendattach-KeepsTable P (λ j. ok (disconnects j) tt) unset a b m f
        (ok (prepares a b) (inr (m, f, refl))))

  threads-KeepsTable :
      (xs : List Arrival)
      → All IsProper xs
      → ((c : Command) → Asked xs c → P c)
      → All (KeepsTable P) (map thread xs)
  unfolding thread Asked
  threads-KeepsTable [] h ok = tt
  threads-KeepsTable (x ∷ xs) h ok = (
    rw (tratar_peticion-encode x.peer x.unset x.request h.0.fields)
        (handler-KeepsTable x.peer x.unset x.request h.0.peer h.0.named (λ c a. ok c (inl a))),
    threads-KeepsTable xs h.1 (λ c a. ok c (inr a)),
  )

-- Any number of threads serve requests, each with strings of at most 254 bytes without a zero byte,
-- from an address of 1 to 19 bytes without white space or one that cannot be found out, and a REGISTER
-- with a name that is not empty and has no white space. In whatever order their steps are interleaved,
-- and whichever listeners are reached, after any number of steps usuarios.txt holds a table of valid
-- users with distinct names, where it did at the start and no file of the user table is refused; and
-- these users are what a sequence of the specified commands makes of those at the start, one after the
-- other, each of them a command that one of the requests asks for or the disconnection of a user.
pub Steps-Evolves :
    (xs : List Arrival) (ts : Threads) (d e : Disk)
    → All IsProper xs
    → (t : HoldsTable d) → Steps UsersAllowed (map thread xs) d ts e
    → Evolves (Asked xs) t.table e
Steps-Evolves xs ts d e h t s =
    (Steps-KeepsTable (Asked xs) s (threads-KeepsTable (Asked xs) xs h (λ c a. a)) t).1

-- Any number of threads serve requests, each with strings of at most 254 bytes without a zero byte,
-- from an address of 1 to 19 bytes without white space or one that cannot be found out, and a REGISTER
-- with a name that is not empty and has no white space. In whatever order their steps are interleaved,
-- and whichever listeners are reached, usuarios.txt holds a table of valid users with distinct names after any
-- number of steps, where it did at the start and no file of the user table is refused.
pub Steps-HoldsTable :
    (xs : List Arrival) (ts : Threads) (d e : Disk)
    → All IsProper xs
    → HoldsTable d
    → Steps UsersAllowed (map thread xs) d ts e
    → HoldsTable e
Steps-HoldsTable xs ts d e h t s = Evolves-HoldsTable (Steps-Evolves xs ts d e h t s)
