-- ===== src/Handlers.antt =====
-- server/src/c_files/funciones.c: what a worker thread does for each operation. The handlers of SEND,
-- SENDATTACH and CONNECT, which talk to the listeners of the clients, are in modules of their own.
pub mod Delivery
pub mod Connect
pub mod Replies
pub mod Tables
pub mod Mail
pub mod Answers
use mathlib.Core.List.{flatten}
use messaging_service.Prelude.{
  ℕ, ◌%◌, ◌^◌, Bool, true, false, Option, none, some, List, [], ◌∷◌, ◌++◌, map, Bytes,
  if◌then◌else◌, ◌==◌, codes, not,
}
use messaging_service.Text.Chars.{streq}
use messaging_service.Text.Scan.{print_int}
use messaging_service.Database.Accounts.{db_register, db_unregister, db_disconnect}
use messaging_service.Database.Online.{Listing, UserInfo, db_get_connected_users, get_user_info}
use messaging_service.Program.{Prog, ret, emit, reply, rpc, console, ◌>>=◌, ◌>>◌, send, call, look}

-- `s> <operation> <user> OK` or `FAIL` on the terminal.
abbrev pub report : Bytes → Bytes → Bool → Prog (Unit {0})
report operation user_name ok = send (
    console (
      codes "s> "
      ++ operation
      ++ codes " "
      ++ user_name
      ++ (if ok then codes " OK\n" else codes " FAIL\n")))

-- `char code = …; sendMessage(sd, &code, 1)`
abbrev pub reply_code : ℕ → Prog (Unit {0})
reply_code code = send (reply (code ∷ []))

-- `sendMessage(sd, s, strlen(s) + 1)`
abbrev pub reply_string : Bytes → Prog (Unit {0})
reply_string s = send (reply (s ++ 0 ∷ []))

abbrev pub log_rpc : Bytes → Bytes → Prog (Unit {0})
log_rpc user_name operation = send (rpc user_name operation [])

unfoldable pub f_register : Bytes → Prog (Unit {0})
f_register user_name = do
  resultado ← call (λ r d. db_register r user_name d)
  report (codes "REGISTER") user_name (resultado == 0)
  reply_code resultado
  log_rpc user_name (codes "REGISTER")

unfoldable pub f_unregister : Bytes → Prog (Unit {0})
f_unregister user_name = do
  resultado ← call (λ r d. db_unregister r user_name d)
  report (codes "UNREGISTER") user_name (resultado == 0)
  reply_code resultado
  log_rpc user_name (codes "UNREGISTER")

-- The early returns of f_disconnect.
unfoldable pub refuse_disconnect : Bytes → ℕ → Prog (Unit {0})
refuse_disconnect user_name code = do
  reply_code code
  report (codes "DISCONNECT") user_name false
  log_rpc user_name (codes "DISCONNECT")

unfoldable pub disconnect_from : Bytes → Bytes → Option UserInfo → Prog (Unit {0})
unfolding refuse_disconnect
disconnect_from user_name ip_cliente none = refuse_disconnect user_name 1
disconnect_from user_name ip_cliente (some registered) =
    if not (streq ip_cliente registered.ip) then refuse_disconnect user_name 3 else do
      res ← call (λ r d. db_disconnect r user_name d)
      reply_code res
      report (codes "DISCONNECT") user_name (res == 0)
      log_rpc user_name (codes "DISCONNECT")

-- `peer` is the client's address in text, `none` where `getpeername` fails.
unfoldable pub f_disconnect : Option Bytes → Bytes → Prog (Unit {0})
unfolding refuse_disconnect disconnect_from
f_disconnect none user_name = refuse_disconnect user_name 3
f_disconnect (some ip_cliente) user_name = do
  registered ← look (λ r d. get_user_info r user_name d)
  disconnect_from user_name ip_cliente registered

reply_strings : List Bytes → Prog (Unit {0})
reply_strings [] = ret tt
reply_strings (s ∷ list) = emit (reply (s ++ 0 ∷ [])) (reply_strings list)

users_reply : Bytes → Listing → Prog (Unit {0})
unfolding reply_strings
users_reply user_name res =
    reply_code res.code
    >> (if res.code == 0
        then (do
          reply_string (print_int res.num_users)
          reply_strings res.users_list
          log_rpc user_name (codes "USERS")
          send (console (codes "s> CONNECTEDUSERS OK\n")))
        else send (console (codes "s> CONNECTEDUSERS FAIL\n")))

unfoldable pub f_users : Bytes → Prog (Unit {0})
unfolding users_reply
f_users user_name = do
  res ← look (λ r d. db_get_connected_users r user_name d)
  users_reply user_name res
