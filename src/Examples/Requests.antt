-- ===== src/Examples/Requests.antt =====
-- Sockets, requests and the log at concrete inputs.
use messaging_service.Prelude.{
  ℕ, zero, suc, ◌≡◌, refl, ap, Bool, some, none, [], ◌∷◌, codes, arith, Bytes, length,
}
use messaging_service.Sockets.{send_message, bytes}
use messaging_service.Sockets.Fields.{IsText}
use messaging_service.Sockets.Transfer.{Sent, send_message-Sent}
use messaging_service.Database.Prepare.{Prepared}
use messaging_service.Handlers.Delivery.{f_sendattach}
use messaging_service.Requests.{tratar_peticion, and_close}
use messaging_service.Requests.Reading.{
  IsField, encode, strings, handler, message, attach, tratar_peticion-encode,
  sendattach_loses_file_name,
}
use messaging_service.Program.Replies.{AnswersByte}
use messaging_service.Requests.Answered.{tratar_peticion-AnswersByte}
use messaging_service.Rpc.{Client, Stub, log_rpc_send, log_operation_1_svc}
use messaging_service.Rpc.Logging.{Carries, log_rpc_send_succeeds}

send_message-Sent_example :
    Sent
      (codes "UNKNOWN")
      (bytes 3 ∷ bytes 4 ∷ [])
      (send_message (codes "UNKNOWN") 7 (bytes 3 ∷ bytes 4 ∷ []))
send_message-Sent_example = send_message-Sent (codes "UNKNOWN") (bytes 3 ∷ bytes 4 ∷ [])

abbrev unset : Prepared
unset = record { msg_id = 0; recv_connected = 0; recv_ip = []; recv_port = 0 }

abbrev text_of : ℕ → Bytes
text_of zero = []
text_of (suc n) = b'x' ∷ text_of n

text_of-IsText : (n : ℕ) → IsText (text_of n)
text_of-IsText zero = tt
text_of-IsText (suc n) = (refl, text_of-IsText n)

length-text_of : (n : ℕ) → length (text_of n) ≡ n
length-text_of zero = refl
length-text_of (suc n) = ap suc (length-text_of n)

ana-IsField : IsField (codes "ana")
ana-IsField = record { text = (refl, (refl, (refl, tt))); fits = omega arith }

luis-IsField : IsField (codes "luis")
luis-IsField = record { text = (refl, (refl, (refl, (refl, tt)))); fits = omega arith }

send-IsField : IsField (codes "SEND")
send-IsField = record { text = (refl, (refl, (refl, (refl, tt)))); fits = omega arith }

tratar_peticion-encode_example :
    tratar_peticion none unset
      (encode (strings (message (codes "ana") (codes "luis") (codes "luis"))))
    ≡ handler none unset (message (codes "ana") (codes "luis") (codes "luis"))
unfolding strings
tratar_peticion-encode_example =
    tratar_peticion-encode none unset (message (codes "ana") (codes "luis") (codes "luis"))
      (send-IsField, (ana-IsField, (luis-IsField, (luis-IsField, tt))))

sendattach_loses_file_name_example :
    tratar_peticion none unset
      (encode (strings (attach (codes "ana") (codes "luis") (text_of 255) (codes "/tmp/data.txt"))))
    ≡ and_close (f_sendattach unset (codes "ana") (codes "luis") (text_of 255) [])
sendattach_loses_file_name_example =
    sendattach_loses_file_name none unset (codes "ana") (codes "luis") (text_of 255)
      (codes "/tmp/data.txt") ana-IsField luis-IsField (text_of-IsText 255) (length-text_of 255)

-- A transport that hands every call to the service.
abbrev local : Stub
local usuario operacion fichero =
    some (log_operation_1_svc (some usuario) (some operacion) (some fichero)).0

local-Carries : Carries local
local-Carries = record { carries = λ usuario operacion fichero h k l. refl }

abbrev ready : Client
ready = record { clnt = Bool.true; enabled = Bool.true }

log_rpc_send_succeeds_example :
    log_rpc_send local ready (some (codes "ana")) (some (codes "SEND")) none ≡ 0
log_rpc_send_succeeds_example =
    log_rpc_send_succeeds local ready (codes "ana") (codes "SEND") none local-Carries

tratar_peticion-AnswersByte_example : AnswersByte (
    tratar_peticion none unset
      (encode (strings (message (codes "ana") (codes "luis") (codes "luis")))))
unfolding strings
tratar_peticion-AnswersByte_example =
    tratar_peticion-AnswersByte none unset (message (codes "ana") (codes "luis") (codes "luis"))
      (send-IsField, (ana-IsField, (luis-IsField, (luis-IsField, tt))))
