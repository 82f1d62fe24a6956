-- ===== src/Requests/Answered.antt =====
-- servidor.c and funciones.c: what the thread of a request writes to its client first.
use messaging_service.Prelude.{ℕ, Option, none, some, refl, Bytes}
use messaging_service.Text.Scan.{strtol}
use messaging_service.Database.Prepare.{Prepared}
use messaging_service.Program.Replies.{AnswersByte, bind-AnswersByte}
use messaging_service.Handlers.{f_register, f_unregister, f_disconnect, f_users}
use messaging_service.Handlers.Answers.{
  f_register-AnswersByte, f_unregister-AnswersByte, f_disconnect-AnswersByte, f_users-AnswersByte,
}
use messaging_service.Handlers.Delivery.{f_send, f_sendattach}
use messaging_service.Handlers.Delivery.Answers.{f_send-AnswersByte, f_sendattach-AnswersByte}
use messaging_service.Handlers.Connect.{f_connect}
use messaging_service.Requests.{tratar_peticion}
use messaging_service.Requests.Reading.{
  Request, register, unregister, connect, disconnect, users, message, attach, strings, encode,
  handler, Fields, tratar_peticion-encode,
}

f_connect-AnswersByte :
    (peer : Option Bytes) (n : Bytes) (port : ℕ) → AnswersByte (f_connect peer n port)
unfolding f_connect AnswersByte
f_connect-AnswersByte none n port = (3, refl)
f_connect-AnswersByte (some ip) n port = λ r d. (_, refl)

handler-AnswersByte :
    (peer : Option Bytes) (unset : Prepared) (q : Request) → AnswersByte (handler peer unset q)
unfolding handler
handler-AnswersByte peer unset (register n) =
    bind-AnswersByte (f_register n) _ (f_register-AnswersByte n)
handler-AnswersByte peer unset (unregister n) =
    bind-AnswersByte (f_unregister n) _ (f_unregister-AnswersByte n)
handler-AnswersByte peer unset (connect n port) =
    bind-AnswersByte (f_connect peer n (strtol port)) _ (f_connect-AnswersByte peer n (strtol port))
handler-AnswersByte peer unset (disconnect n) =
    bind-AnswersByte (f_disconnect peer n) _ (f_disconnect-AnswersByte peer n)
handler-AnswersByte peer unset (users n) = bind-AnswersByte (f_users n) _ (f_users-AnswersByte n)
handler-AnswersByte peer unset (message a b m) =
    bind-AnswersByte (f_send unset a b m) _ (f_send-AnswersByte unset a b m)
handler-AnswersByte peer unset (attach a b m f) =
    bind-AnswersByte (f_sendattach unset a b m f) _ (f_sendattach-AnswersByte unset a b m f)

-- A request of the protocol, whose strings have no zero byte and at most 254 bytes each: whatever the
-- steps of its thread return and whatever other threads do to the disk, the thread writes to its
-- client, and what it writes first is one byte.
pub tratar_peticion-AnswersByte :
    (peer : Option Bytes) (unset : Prepared) (q : Request)
    → Fields (strings q)
    → AnswersByte (tratar_peticion peer unset (encode (strings q)))
tratar_peticion-AnswersByte peer unset q f =
    rw (tratar_peticion-encode peer unset q f) (handler-AnswersByte peer unset q)
