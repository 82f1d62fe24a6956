-- ===== src/Parte1/Tables.antt =====
-- The threads of parte1 on one disk, in any order.
use messaging_service.Prelude.{
  ◌≡◌, refl, sym, subst, inl, inr, ◌==◌, List, [], ◌∷◌, map, Option, none, some, Bytes, All, Bool,
  true,
}
use messaging_service.Text.Scan.{strtol}
use messaging_service.Text.Scan.Results.{strtol-lt}
use messaging_service.Disk.{Disk}
use messaging_service.Database.Prepare.{Prepared}
use messaging_service.Database.Online.{Listing}
use messaging_service.Program.{reply, push, rpc, console, Prog, ret, emit, atomic, reach, ◌>>=◌}
use messaging_service.Directory.Commands.{
  Command, registers, unregisters, connects, disconnects, prepares, Evolves, no_command,
}
use messaging_service.Program.Tables.{HoldsTable, KeepsTable, bind-KeepsTable, if-KeepsTable}
use messaging_service.Handlers.Tables.{
  f_register-KeepsTable, f_unregister-KeepsTable, f_disconnect-KeepsTable,
}
use messaging_service.Handlers.Delivery.Tables.{f_send-KeepsTable}
use messaging_service.Handlers.Connect.Tables.{f_connect-KeepsTable}
use messaging_service.Requests.Reading.{
  Request, register, unregister, connect, disconnect, users, message, attach, strings, encode,
}
use messaging_service.Directory.{UsersAllowed}
use messaging_service.Server.{Threads, Steps}
use messaging_service.Server.Arrivals.{Arrival}
use messaging_service.Server.Tables.{Steps-KeepsTable}
use messaging_service.Server.Tables.Requests.{IsPeer, IsNamed, IsProper, Asks, Asked}
use messaging_service.Parte1.{db_get_connected_users}
use messaging_service.Parte1.Handlers.{
  f_register, f_unregister, f_connect, f_disconnect, f_send, f_users, users_reply, reply_strings,
}
use messaging_service.Parte1.Plain.{plain}
use messaging_service.Parte1.Agreement.{
  register-plain, unregister-plain, connect-plain, disconnect-plain, send-plain,
}
use messaging_service.Parte1.Reading.{handler, tratar_peticion-handler}
use messaging_service.Parte1.Requests.{tratar_peticion}

-- The thread of a request.
unfoldable pub thread : Arrival → Prog Bool
thread x = tratar_peticion x.peer x.unset (encode (strings x.request))

module _ (P : Command → Type 0) where
  plain-KeepsTable : {A : Type 0} (p : Prog A) → KeepsTable P p → KeepsTable P (plain p)
  unfolding KeepsTable plain
  plain-KeepsTable (ret a) h = h
  plain-KeepsTable (emit (reply s) p) h = plain-KeepsTable p h
  plain-KeepsTable (emit (push ip port strings) p) h = plain-KeepsTable p h
  plain-KeepsTable (emit (rpc user operation file) p) h = plain-KeepsTable p h
  plain-KeepsTable (emit (console line) p) h = plain-KeepsTable p h
  plain-KeepsTable (atomic act k) h =
      λ r d a t. ((h r d a t).0, plain-KeepsTable (k r d) (h r d a t).1)
  plain-KeepsTable (reach ip port k) h = λ b. plain-KeepsTable (k b) (h b)

  by_plain :
      (p q : Prog (Unit {0})) → p ≡ plain q → KeepsTable P q → KeepsTable P (p >>= λ u. ret true)
  unfolding KeepsTable
  by_plain p q e h =
      bind-KeepsTable P p _ (subst (KeepsTable P) (sym e) (plain-KeepsTable q h)) (λ u. tt)

  reply_strings-KeepsTable : (list : List Bytes) → KeepsTable P (reply_strings list)
  unfolding KeepsTable reply_strings
  reply_strings-KeepsTable [] = tt
  reply_strings-KeepsTable (s ∷ list) = reply_strings-KeepsTable list

  users_reply-KeepsTable : (res : Listing) → KeepsTable P (users_reply res)
  unfolding KeepsTable users_reply
  users_reply-KeepsTable res =
      if-KeepsTable P (res.code == 0) _ _
        (bind-KeepsTable P (reply_strings res.users_list) _
          (reply_strings-KeepsTable res.users_list) (λ u. tt))
        tt

  f_users-KeepsTable : (n : Bytes) → KeepsTable P (f_users n)
  unfolding f_users KeepsTable
  f_users-KeepsTable n = λ r d a t. (
    no_command d d t.table refl t.represents,
    users_reply-KeepsTable (db_get_connected_users r n d),
  )

  handler-KeepsTable :
      (peer : Option Bytes) (unset : Prepared) (q : Request)
      → IsPeer peer
      → IsNamed q
      → ((c : Command) → Asks (record { peer = peer; unset = unset; request = q }) c → P c)
      → KeepsTable P (handler peer unset q)
  unfolding handler Asks KeepsTable
  handler-KeepsTable peer unset (register n) w h ok =
      by_plain (f_register n) _ (register-plain n)
        (f_register-KeepsTable P n h (ok (registers n) refl))
  handler-KeepsTable peer unset (unregister n) w h ok =
      by_plain (f_unregister n) _ (unregister-plain n)
        (f_unregister-KeepsTable P n (ok (unregisters n) refl))
  handler-KeepsTable none unset (connect n port) w h ok = unfold f_connect in tt
  handler-KeepsTable (some ip) unset (connect n port) w h ok =
      by_plain (f_connect (some ip) n (strtol port)) _ (connect-plain (some ip) n (strtol port)) (
        f_connect-KeepsTable P (λ j. ok (disconnects j) tt) n ip (strtol port) w (strtol-lt port)
          (ok (connects n ip (strtol port)) (refl, (port, refl, refl))))
  handler-KeepsTable peer unset (disconnect n) w h ok =
      by_plain (f_disconnect peer n) _ (disconnect-plain peer n)
        (f_disconnect-KeepsTable P peer n (ok (disconnects n) tt))
  handler-KeepsTable peer unset (users n) w h ok =
      bind-KeepsTable P (f_users n) _ (f_users-KeepsTable n) (λ u. tt)
  handler-KeepsTable peer unset (message a b m) w h ok =
      by_plain (f_send unset a b m) _ (send-plain unset a b m) (
        f_send-KeepsTable P (λ j. ok (disconnects j) tt) unset a b m
          (ok (prepares a b) (inl (m, refl))))
  handler-KeepsTable peer unset (attach a b m f) w h ok = tt

  threads-KeepsTable :
      (xs : List Arrival)
      → All IsProper xs
      → ((c : Command) → Asked xs c → P c)
      → All (KeepsTable P) (map thread xs)
  unfolding thread Asked
  threads-KeepsTable [] h ok = tt
  threads-KeepsTable (x ∷ xs) h ok = (
    rw (tratar_peticion-handler x.peer x.unset x.request h.0.fields)
        (handler-KeepsTable x.peer x.unset x.request h.0.peer h.0.named (λ c a. ok c (inl a))),
    threads-KeepsTable xs h.1 (λ c a. ok c (inr a)),
  )

-- Any number of threads of parte1 serve requests, SENDATTACH among them, which parte1 does not know,
-- each with strings of at most 254 bytes without a zero byte, from an address of 1 to 19 bytes without
-- white space or one that cannot be found out, and a REGISTER with a name that is not empty and has no
-- white space. In whatever order their steps are interleaved, and whichever listeners are reached,
-- after any number of steps usuarios.txt holds a table of valid users with distinct names, where it
-- did at the start and no file of the user table is refused; and these users are what a sequence of
-- the specified commands makes of those at the start, one after the other, each of them a command that
-- one of the requests asks for or the disconnection of a user.
pub parte1_Steps-Evolves :
    (xs : List Arrival) (ts : Threads) (d e : Disk)
    → All IsProper xs
    → (t : HoldsTable d) → Steps UsersAllowed (map thread xs) d ts e
    → Evolves (Asked xs) t.table e
parte1_Steps-Evolves xs ts d e h t s =
    (Steps-KeepsTable (Asked xs) s (threads-KeepsTable (Asked xs) xs h (λ c a. a)) t).1
