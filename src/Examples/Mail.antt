-- ===== src/Examples/Mail.antt =====
-- A thread that serves SEND from ana to luis, for whom two messages wait: it has chosen an id, and then
-- tells ana the result.
use mathlib.Core.List.{Memᴰ}
use messaging_service.Prelude.{◌⊎◌, refl, sym, subst, some, [], ◌∷◌, map, codes, arith, All}
use messaging_service.Text.Chars.{streq}
use messaging_service.Disk.{Disk, or_empty}
use messaging_service.Database.Prepare.Frame.{db_prepare_message-messages}
use messaging_service.Database.Prepare.{db_prepare_message}
use messaging_service.Database.Mail.Laws.{mailbox}
use messaging_service.Program.Mail.{AllMail}
use messaging_service.Handlers.Delivery.{f_send, send_reply}
use messaging_service.Handlers.Delivery.Mail.{Told}
use messaging_service.Requests.Reading.{message, strings, handler, tratar_peticion-encode}
use messaging_service.Server.{Threads, acts, sends, Steps, start, after}
use messaging_service.Server.Arrivals.{Arrival, thread}
use messaging_service.Server.Mail.{logs, OneOf, SentBy}
use messaging_service.Server.Mail.Requests.{IsReadable, silent}
use messaging_service.Server.Mail.Kept.{Gone, message_stays, message_comes_from}
use messaging_service.Examples.World.{calm}
use messaging_service.Examples.Catching.{hello, waiting}

abbrev pub sender : Arrival
sender = record {
  peer = some (codes "10.0.0.7");
  unset = record { msg_id = 7; recv_connected = 9; recv_ip = []; recv_port = 1 };
  request = message (codes "ana") (codes "luis") (codes "hi");
}

pub sender-IsReadable : All IsReadable (sender ∷ [])
unfolding strings
sender-IsReadable = (
  (
    record { text = (refl, (refl, (refl, (refl, tt)))); fits = omega arith },
    (
      record { text = (refl, (refl, (refl, tt))); fits = omega arith },
      (
        record { text = (refl, (refl, (refl, (refl, tt)))); fits = omega arith },
        (record { text = (refl, (refl, tt)); fits = omega arith }, tt),
      ),
    ),
  ),
  tt,
)

pub calm-AllMail : AllMail calm
calm-AllMail n = record { read = refl; add = refl; temp = refl }

abbrev prepared : Disk
prepared = (db_prepare_message calm (codes "ana") (codes "luis") sender.unset waiting).2

first :
    (ts : Threads) × Steps AllMail
      (handler sender.peer sender.unset sender.request ∷ [])
      waiting
      ts
      prepared
unfolding handler f_send
first = (_, after calm calm-AllMail start acts)

second : (us : Threads) × Steps AllMail first.0 prepared us prepared
unfolding first send_reply handler f_send
second = (_, after calm calm-AllMail start sends)

chosen : Steps AllMail (map thread (sender ∷ [])) waiting first.0 prepared
unfolding thread
chosen =
    subst (λ p. Steps AllMail (p ∷ []) waiting first.0 prepared)
      (sym (tratar_peticion-encode sender.peer sender.unset sender.request sender-IsReadable.0))
      first.1

still_there : Memᴰ hello (mailbox prepared (codes "luis"))
unfolding streq
still_there =
    subst (λ files. Memᴰ hello (or_empty (files (codes "luis"))))
      (sym (db_prepare_message-messages calm (codes "ana") (codes "luis") sender.unset waiting))
      (Memᴰ.head refl)

message_stays_example :
    Memᴰ hello (mailbox prepared (codes "luis"))
    ⊎ Gone (sender ∷ []) (logs second.1 (logs chosen (silent (sender ∷ [])))) (codes "luis") 2
message_stays_example =
    message_stays (sender ∷ []) chosen second.1 (codes "luis") hello sender-IsReadable still_there

message_comes_from_example :
    Memᴰ hello (mailbox waiting (codes "luis"))
    ⊎ OneOf
        (λ x l. Told l 2 × SentBy x (codes "luis") hello)
        (sender ∷ [])
        (logs chosen (silent (sender ∷ [])))
message_comes_from_example =
    message_comes_from (sender ∷ []) chosen (codes "luis") hello sender-IsReadable still_there
