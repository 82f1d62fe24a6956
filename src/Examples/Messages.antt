-- ===== src/Examples/Messages.antt =====
-- The handlers and the message files at concrete inputs.
use messaging_service.Prelude.{ℕ, ◌≡◌, refl, true, some, none, inl, [], ◌∷◌, codes, Bytes}
use messaging_service.Text.Chars.{streq}
use messaging_service.Text.Decimal.{print_unsigned}
use messaging_service.Users.Table.{lookup}
use messaging_service.Directory.{following_id}
use messaging_service.Program.{Outside, run, replies}
use messaging_service.Database.Prepare.{Prepared}
use messaging_service.Database.Mail.{pending_msg}
use messaging_service.Database.Mail.Laws.{MailAllowed}
use messaging_service.Handlers.{f_disconnect}
use messaging_service.Handlers.Replies.{AlwaysAllowed, disconnect_code, replies-f_disconnect}
use messaging_service.Handlers.Delivery.{f_send, port_of, message_strings}
use messaging_service.Handlers.Delivery.Sending.{AlwaysMail, Waits, HandedOver}
use messaging_service.Handlers.Delivery.Sending.Accepted.{f_send-Waits, f_send_delivers}
use messaging_service.Examples.World.{
  ana, luis, people, calm, start, calm-UsersAllowed, start-Represents,
}

abbrev sunny : ℕ → Outside
sunny i = record { refuses = calm; reaches = λ ip port. true }

sunny-AlwaysAllowed : AlwaysAllowed sunny
sunny-AlwaysAllowed = record { at_step = λ i. calm-UsersAllowed }

calm-MailAllowed : (n : Bytes) → MailAllowed calm n
calm-MailAllowed n = record { read = refl; add = refl; temp = refl }

sunny-AlwaysMail : (n : Bytes) → AlwaysMail sunny n
sunny-AlwaysMail n = record { at_step = λ i. calm-MailAllowed n }

abbrev unset : Prepared
unset = record { msg_id = 77; recv_connected = 9; recv_ip = []; recv_port = 1 }

f_send-Waits_example :
    Waits
      (codes "luis")
      (pending_msg (codes "ana") (following_id 3) (codes "hello") none)
      start
      (run (f_send unset (codes "ana") (codes "luis") (codes "hello")) sunny 0 start)
unfolding lookup streq
f_send-Waits_example =
    f_send-Waits sunny 0 unset (codes "ana") (codes "luis") (codes "hello") start people ana luis
      sunny-AlwaysAllowed (sunny-AlwaysMail (codes "luis")) start-Represents refl refl (inl refl)

f_send_delivers_example :
    HandedOver
      (codes "10.0.0.7", port_of 5050)
      (message_strings (codes "luis") (print_unsigned (following_id 0)) (codes "hello") none)
      (following_id 0)
      start
      (run (f_send unset (codes "luis") (codes "ana") (codes "hello")) sunny 0 start)
unfolding lookup streq
f_send_delivers_example =
    f_send_delivers sunny 0 unset (codes "luis") (codes "ana") (codes "hello") start people luis ana
      sunny-AlwaysAllowed (sunny-AlwaysMail (codes "ana")) start-Represents refl refl refl refl tt

replies-f_disconnect_example :
    replies (run (f_disconnect (some (codes "10.0.0.7")) (codes "ana")) sunny 0 start).events
    ≡ (disconnect_code (some (codes "10.0.0.7")) (lookup (codes "ana") people) ∷ []) ∷ []
replies-f_disconnect_example =
    replies-f_disconnect sunny 0 (some (codes "10.0.0.7")) (codes "ana") start people
      sunny-AlwaysAllowed start-Represents
