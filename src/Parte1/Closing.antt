-- ===== src/Parte1/Closing.antt =====
-- parte1/server/src/c_files/servidor.c: the socket of a thread at its end.
use messaging_service.Prelude.{
  ◌≡◌, refl, Bool, true, false, Option, none, some, if◌then◌else◌, Bytes, codes, leb,
}
use messaging_service.Text.Chars.{streq}
use messaging_service.Text.Scan.{strtol}
use messaging_service.Disk.{Disk, Refusals}
use messaging_service.Program.{Prog, ret, emit, atomic, reach}
use messaging_service.Database.Prepare.{Prepared}
use messaging_service.Sockets.{Leida, leer_cadena}
use messaging_service.Requests.{with_field, after_field, and_close}
use messaging_service.Parte1.Handlers.{
  f_register, f_unregister, f_connect, f_disconnect, f_send, f_users,
}
use messaging_service.Parte1.Requests.{dispatch, tratar_peticion}

-- Whatever the steps of a thread return, and whatever other threads do, it ends with its socket closed.
unfoldable pub Closes : Prog Bool → Type 0
Closes (ret b) = b ≡ true
Closes (emit e p) = Closes p
Closes (atomic act k) = (r : Refusals) (d : Disk) → Closes (k r d)
Closes (reach ip port k) = (b : Bool) → Closes (k b)

and_close-Closes : (p : Prog (Unit {0})) → Closes (and_close p)
unfolding Closes
and_close-Closes (ret a) = refl
and_close-Closes (emit e p) = and_close-Closes p
and_close-Closes (atomic act k) = λ r d. and_close-Closes (k r d)
and_close-Closes (reach ip port k) = λ b. and_close-Closes (k b)

closed : Closes (ret true)
unfolding Closes
closed = refl

if-Closes : (b : Bool) (p q : Prog Bool) → Closes p → Closes q → Closes (if b then p else q)
if-Closes true p q h g = h
if-Closes false p q h g = g

after_field-Closes :
    (f : Option Leida) (next : Bytes → Bytes → Prog Bool)
    → ((s rest : Bytes) → Closes (next s rest))
    → Closes (after_field f next)
unfolding after_field Closes
after_field-Closes none next h = refl
after_field-Closes (some f) next h = if-Closes (leb f.leidos 0) _ _ refl (h f.text f.rest)

with_field-Closes :
    (s : Bytes) (next : Bytes → Bytes → Prog Bool)
    → ((s rest : Bytes) → Closes (next s rest))
    → Closes (with_field s next)
unfolding with_field
with_field-Closes s next h = after_field-Closes (leer_cadena s 256) next h

dispatch-Closes :
    (peer : Option Bytes) (unset : Prepared) (op s : Bytes) → Closes (dispatch peer unset op s)
unfolding dispatch
dispatch-Closes peer unset op s =
    if-Closes (streq op (codes "REGISTER")) _ _
      (with_field-Closes s _ (λ a s. and_close-Closes (f_register a)))
      (if-Closes (streq op (codes "UNREGISTER")) _ _
        (with_field-Closes s _ (λ a s. and_close-Closes (f_unregister a)))
        (if-Closes (streq op (codes "CONNECT")) _ _
          (with_field-Closes s _ (λ a s.
            with_field-Closes s _ (λ port s. and_close-Closes (f_connect peer a (strtol port)))))
          (if-Closes (streq op (codes "DISCONNECT")) _ _
            (with_field-Closes s _ (λ a s. and_close-Closes (f_disconnect peer a)))
            (if-Closes (streq op (codes "SEND")) _ _
              (with_field-Closes s _ (λ a s.
                with_field-Closes s _
                  (λ b s. with_field-Closes s _ (λ m s. and_close-Closes (f_send unset a b m)))))
              (if-Closes (streq op (codes "USERS")) _ _
                (with_field-Closes s _ (λ a s. and_close-Closes (f_users a))) closed)))))

-- Whatever bytes a client of parte1 sends, whatever the steps of its thread return and whatever other
-- threads do to the disk, the thread ends with its socket closed.
pub tratar_peticion-Closes :
    (peer : Option Bytes) (unset : Prepared) (s : Bytes) → Closes (tratar_peticion peer unset s)
unfolding tratar_peticion
tratar_peticion-Closes peer unset s =
    with_field-Closes s _ (λ op s. dispatch-Closes peer unset op s)
