-- ===== src/Handlers/Connect.antt =====
-- funciones.c: f_connect, which delivers the pending messages of the user who comes online.
pub mod Sent
pub mod Pending
pub mod Accepted
pub mod Partial
pub mod Loss
pub mod Tables
pub mod Mail
use messaging_service.Prelude.{
  ℕ, Option, none, some, List, [], ◌∷◌, ◌++◌, Bytes, if◌then◌else◌, ◌==◌, codes,
}
use messaging_service.Disk.{PendingMsg}
use messaging_service.Database.Accounts.{db_connect}
use messaging_service.Database.Mail.{db_get_pending_messages}
use messaging_service.Program.{Prog, ret, reach, rpc, console, reply, ◌>>=◌, ◌>>◌, send, call, look}
use messaging_service.Handlers.Delivery.{port_of, drop_user, deliver}

-- `has_attach`: the file name of a message that has one.
unfoldable pub attachment : PendingMsg → Option Bytes
attachment m = elim m.file_name [ [] ↦ none | c ∷ s ↦ some m.file_name ]

-- One round of the loop over the pending messages; `rest` is the loop over those that follow. Where the
-- listener cannot be reached the loop is left.
unfoldable pub deliver_round : Bytes → Bytes → ℕ → PendingMsg → Prog (Unit {0}) → Prog (Unit {0})
unfolding deliver attachment
deliver_round user_name ip port m rest = reach ip (port_of port) (λ reached.
    if reached
    then (deliver ip port user_name m.sender m.id m.message (attachment m) >> rest)
    else drop_user user_name)

unfoldable pub deliver_loop : Bytes → Bytes → ℕ → List PendingMsg → Prog (Unit {0})
unfolding deliver_round
deliver_loop user_name ip port [] = ret tt
deliver_loop user_name ip port (m ∷ ms) =
    deliver_round user_name ip port m (deliver_loop user_name ip port ms)

unfoldable pub connected : Bytes → Bytes → ℕ → ℕ → Prog (Unit {0})
unfolding deliver_loop
connected user_name ip_str puerto_escucha res =
    if res == 0
    then (do
      send (console (codes "s> CONNECT " ++ user_name ++ codes " OK\n"))
      msgs ← look (λ r d. db_get_pending_messages r user_name d)
      deliver_loop user_name ip_str puerto_escucha msgs)
    else send (console (codes "s> CONNECT " ++ user_name ++ codes " FAIL\n"))

unfoldable pub f_connect : Option Bytes → Bytes → ℕ → Prog (Unit {0})
unfolding connected
f_connect none user_name puerto_escucha = do
  send (reply (3 ∷ []))
  send (console (codes "s> CONNECT " ++ user_name ++ codes " FAIL\n"))
f_connect (some ip_str) user_name puerto_escucha = do
  res ← call (λ r d. db_connect r user_name ip_str puerto_escucha d)
  send (reply (res ∷ []))
  send (rpc user_name (codes "CONNECT") [])
  connected user_name ip_str puerto_escucha res
