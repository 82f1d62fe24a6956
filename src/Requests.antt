-- ===== src/Requests.antt =====
-- server/src/c_files/servidor.c: tratar_peticion, which reads a request from its socket and calls the
-- handler. The result of the program is whether the thread has closed its socket.
pub mod Reading
pub mod Answered
use messaging_service.Prelude.{
  ℕ, Bool, true, false, Option, none, some, List, [], ◌∷◌, ◌++◌, Bytes, if◌then◌else◌, leb, codes,
}
use messaging_service.Text.Chars.{streq}
use messaging_service.Text.Scan.{strtol}
use messaging_service.Program.{Prog, ret, ◌>>=◌, ◌>>◌}
use messaging_service.Sockets.{Leida, leer_cadena}
use messaging_service.Database.Prepare.{Prepared}
use messaging_service.Handlers.{f_register, f_unregister, f_disconnect, f_users}
use messaging_service.Handlers.Delivery.{f_send, f_sendattach}
use messaging_service.Handlers.Connect.{f_connect}

-- `SHORT_MSG_SIZE`, and the size of `buffer_op`.
abbrev pub short_msg_size : ℕ
short_msg_size = 256

-- `if (bytes_leidos <= 0) { close(s_local); … }`: the socket is closed and the request dropped.
unfoldable pub after_field : Option Leida → (Bytes → Bytes → Prog Bool) → Prog Bool
after_field none next = ret true
after_field (some f) next = if leb f.leidos 0 then ret true else next f.text f.rest

-- The next string of the request, and what is done with it and with the rest.
unfoldable pub with_field : Bytes → (Bytes → Bytes → Prog Bool) → Prog Bool
unfolding after_field leer_cadena
with_field s next = after_field (leer_cadena s short_msg_size) next

-- `return NULL` behind the handler, the socket left open.
abbrev pub and_leave_open : Prog (Unit {0}) → Prog Bool
and_leave_open p = p >>= λ _. ret false

abbrev pub and_close : Prog (Unit {0}) → Prog Bool
and_close p = p >>= λ _. ret true

unfoldable pub dispatch : Option Bytes → Prepared → Bytes → Bytes → Prog Bool
unfolding with_field
dispatch peer unset op s =
    if streq op (codes "REGISTER")
    then with_field s (λ user s. and_leave_open (f_register user))
    else if streq op (codes "UNREGISTER")
    then with_field s (λ user s. and_leave_open (f_unregister user))
    else if streq op (codes "CONNECT")
    then with_field s
        (λ user s. with_field s (λ port s. and_leave_open (f_connect peer user (strtol port))))
    else if streq op (codes "DISCONNECT")
    then with_field s (λ user s. and_leave_open (f_disconnect peer user))
    else if streq op (codes "SEND")
    then with_field s (λ user s.
      with_field s
        (λ dest s. with_field s (λ message s. and_leave_open (f_send unset user dest message))))
    else if streq op (codes "USERS")
    then with_field s (λ user s. and_leave_open (f_users user))
    else if streq op (codes "SENDATTACH")
    then with_field s (λ user s. with_field s (λ dest s. with_field s (λ message s.
      with_field s (λ file s. and_close (f_sendattach unset user dest message file)))))
    else ret false

-- `peer` is the address that `getpeername` gives for the socket, `unset` what local variables hold
-- before they are written.
unfoldable pub tratar_peticion : Option Bytes → Prepared → Bytes → Prog Bool
unfolding dispatch with_field
tratar_peticion peer unset s = with_field s (λ op s. dispatch peer unset op s)
