-- ===== src/Handlers/Delivery/Answers.antt =====
-- funciones.c: what f_send and f_sendattach write to their client first.
use messaging_service.Prelude.{refl, Bytes}
use messaging_service.Database.Prepare.{Prepared}
use messaging_service.Program.Replies.{AnswersByte}
use messaging_service.Handlers.Delivery.{f_send, send_reply, f_sendattach, sendattach_reply}

pub f_send-AnswersByte : (unset : Prepared) (a b m : Bytes) → AnswersByte (f_send unset a b m)
unfolding f_send send_reply AnswersByte
f_send-AnswersByte unset a b m = λ r d. (_, refl)

pub f_sendattach-AnswersByte :
    (unset : Prepared) (a b m f : Bytes) → AnswersByte (f_sendattach unset a b m f)
unfolding f_sendattach sendattach_reply AnswersByte
f_sendattach-AnswersByte unset a b m f = λ r d. (_, refl)
