-- ===== src/Server/Mail/Requests.antt =====
-- The thread of a request and the message files.
use messaging_service.Prelude.{Bool, refl, inl, inr, List, [], ◌∷◌, map, Option, Bytes, All}
use messaging_service.Text.Scan.{strtol}
use messaging_service.Database.Prepare.{Prepared}
use messaging_service.Database.Mail.{pending_msg}
use messaging_service.Database.Mail.Commands.{MailCommand}
use messaging_service.Program.{Prog, ret, ◌>>=◌}
use messaging_service.Program.Mail.{Log, KeepsMail, bind-KeepsMail}
use messaging_service.Handlers.{f_register, f_unregister, f_disconnect, f_users}
use messaging_service.Handlers.Mail.{
  f_register-KeepsMail, f_unregister-KeepsMail, f_disconnect-KeepsMail, f_users-KeepsMail,
}
use messaging_service.Handlers.Delivery.{f_send, f_sendattach}
use messaging_service.Handlers.Delivery.Mail.{f_send-KeepsMail, f_sendattach-KeepsMail}
use messaging_service.Handlers.Connect.{f_connect}
use messaging_service.Handlers.Connect.Mail.{f_connect-KeepsMail}
use messaging_service.Requests.Reading.{
  Request, register, unregister, connect, disconnect, users, message, attach, strings, handler,
  Fields, tratar_peticion-encode,
}
use messaging_service.Server.Arrivals.{Arrival, thread}
use messaging_service.Server.Mail.{Permits, SentBy, DeliversTo, Serving}

-- The strings of the request fit the buffers.
abbrev pub IsReadable : Arrival → Type 0
IsReadable x = Fields (strings x.request)

-- At the start no thread has sent anything.
abbrev pub silent : List Arrival → List Log
silent xs = map (λ x. []) xs

then_ret :
    (P : Log → MailCommand → Type 0) (p : Prog (Unit {0})) (c : Bool)
    → KeepsMail P [] p
    → KeepsMail P [] (p >>= λ _. ret c)
then_ret P p c h = bind-KeepsMail P [] p _ h (λ l u. unfold KeepsMail in tt)

handler-KeepsMail :
    (peer : Option Bytes) (unset : Prepared) (q : Request)
    → KeepsMail
        (Permits (record { peer = peer; unset = unset; request = q }))
        []
        (handler peer unset q)
unfolding handler Permits SentBy DeliversTo
handler-KeepsMail peer unset (register n) =
    then_ret _ (f_register n) _ (f_register-KeepsMail _ [] n)
handler-KeepsMail peer unset (unregister n) =
    then_ret _ (f_unregister n) _ (f_unregister-KeepsMail _ [] n refl)
handler-KeepsMail peer unset (connect n port) = then_ret _ (f_connect peer n (strtol port)) _ (
    f_connect-KeepsMail (Permits (record { peer = peer; unset = unset; request = connect n port }))
      n (λ l i h. (inl (port, refl), h)) [] peer (strtol port))
handler-KeepsMail peer unset (disconnect n) =
    then_ret _ (f_disconnect peer n) _ (f_disconnect-KeepsMail _ [] peer n)
handler-KeepsMail peer unset (users n) = then_ret _ (f_users n) _ (f_users-KeepsMail _ [] n)
handler-KeepsMail peer unset (message a b m) = then_ret _ (f_send unset a b m) _ (
    f_send-KeepsMail (Permits (record { peer = peer; unset = unset; request = message a b m })) b
      (λ l i h. (inr (inl (a, m, refl)), h)) [] unset a m
      (λ l i h. unfold pending_msg in (h, inl (a, m, refl, refl))))
handler-KeepsMail peer unset (attach a b m f) = then_ret _ (f_sendattach unset a b m f) _ (
    f_sendattach-KeepsMail
      (Permits (record { peer = peer; unset = unset; request = attach a b m f })) b
      (λ l i h. (inr (inr (a, m, f, refl)), h)) [] unset a m f
      (λ l i h. unfold pending_msg in (h, inr (a, m, f, refl, refl))))

pub threads-Serving :
    (xs : List Arrival) → All IsReadable xs → Serving (map thread xs) xs (silent xs)
unfolding thread Serving
threads-Serving [] h = tt
threads-Serving (x ∷ xs) h = (
  rw (tratar_peticion-encode x.peer x.unset x.request h.0)
      (handler-KeepsMail x.peer x.unset x.request),
  threads-Serving xs h.1,
)
