-- ===== src/Handlers/Answers.antt =====
-- funciones.c: what each handler of the accounts and of USERS writes to its client first.
use messaging_service.Prelude.{Option, none, some, refl, not, Bytes}
use messaging_service.Text.Chars.{streq}
use messaging_service.Database.Online.{UserInfo}
use messaging_service.Program.Replies.{AnswersByte, if-AnswersByte}
use messaging_service.Handlers.{
  f_register, f_unregister, refuse_disconnect, disconnect_from, f_disconnect, users_reply, f_users,
}

pub f_register-AnswersByte : (n : Bytes) → AnswersByte (f_register n)
unfolding f_register AnswersByte
f_register-AnswersByte n = λ r d. (_, refl)

pub f_unregister-AnswersByte : (n : Bytes) → AnswersByte (f_unregister n)
unfolding f_unregister AnswersByte
f_unregister-AnswersByte n = λ r d. (_, refl)

disconnect_from-AnswersByte :
    (n ip : Bytes) (u : Option UserInfo) → AnswersByte (disconnect_from n ip u)
unfolding disconnect_from refuse_disconnect AnswersByte
disconnect_from-AnswersByte n ip none = (1, refl)
disconnect_from-AnswersByte n ip (some u) =
    if-AnswersByte (not (streq ip u.ip)) _ _ (3, refl) (λ r d. (_, refl))

pub f_disconnect-AnswersByte : (peer : Option Bytes) (n : Bytes) → AnswersByte (f_disconnect peer n)
unfolding f_disconnect refuse_disconnect AnswersByte
f_disconnect-AnswersByte none n = (3, refl)
f_disconnect-AnswersByte (some ip) n = λ r d. disconnect_from-AnswersByte n ip _

pub f_users-AnswersByte : (n : Bytes) → AnswersByte (f_users n)
unfolding f_users users_reply AnswersByte
f_users-AnswersByte n = λ r d. (_, refl)
