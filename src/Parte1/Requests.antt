-- ===== src/Parte1/Requests.antt =====
-- parte1/server/src/c_files/servidor.c: tratar_peticion. The result of the program is whether the
-- thread has closed its socket.
use messaging_service.Prelude.{Bool, true, Option, Bytes, if◌then◌else◌, codes}
use messaging_service.Text.Chars.{streq}
use messaging_service.Text.Scan.{strtol}
use messaging_service.Program.{Prog, ret}
use messaging_service.Database.Prepare.{Prepared}
use messaging_service.Requests.{with_field, and_close}
use messaging_service.Parte1.Handlers.{
  f_register, f_unregister, f_connect, f_disconnect, f_send, f_users,
}

unfoldable pub dispatch : Option Bytes → Prepared → Bytes → Bytes → Prog Bool
unfolding with_field
dispatch peer unset op s =
    if streq op (codes "REGISTER")
    then with_field s (λ user s. and_close (f_register user))
    else if streq op (codes "UNREGISTER")
    then with_field s (λ user s. and_close (f_unregister user))
    else if streq op (codes "CONNECT")
    then with_field s
        (λ user s. with_field s (λ port s. and_close (f_connect peer user (strtol port))))
    else if streq op (codes "DISCONNECT")
    then with_field s (λ user s. and_close (f_disconnect peer user))
    else if streq op (codes "SEND")
    then with_field s (λ user s.
      with_field s
        (λ dest s. with_field s (λ message s. and_close (f_send unset user dest message))))
    else if streq op (codes "USERS")
    then with_field s (λ user s. and_close (f_users user))
    else ret true

unfoldable pub tratar_peticion : Option Bytes → Prepared → Bytes → Prog Bool
unfolding dispatch with_field
tratar_peticion peer unset s = with_field s (λ op s. dispatch peer unset op s)
