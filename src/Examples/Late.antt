-- ===== src/Examples/Late.antt =====
-- ana sends luis, who is offline, a message, while luis connects.
use messaging_service.Prelude.{refl, none, some, codes, arith}
use messaging_service.Text.Chars.{streq}
use messaging_service.Users.Table.{lookup}
use messaging_service.Directory.{following_id}
use messaging_service.Database.Mail.{pending_msg}
use messaging_service.Requests.Reading.{strings, connect}
use messaging_service.Server.Arrivals.{Arrival}
use messaging_service.Server.Mail.Requests.{IsReadable}
use messaging_service.Server.Mail.Late.{Overlooked, connect_misses_message}
use messaging_service.Examples.World
use messaging_service.Examples.World.{ana, luis, people, start-Represents, is_word, IsWord-by}
use messaging_service.Examples.Mail.{sender, sender-IsReadable}

abbrev joiner : Arrival
joiner = record {
  peer = some (codes "10.0.0.9");
  unset = sender.unset;
  request = connect (codes "luis") (codes "6000");
}

joiner-IsReadable : IsReadable joiner
unfolding strings
joiner-IsReadable = (
  record { text = (refl, (refl, (refl, (refl, (refl, (refl, (refl, tt))))))); fits = omega arith },
  (
    record { text = (refl, (refl, (refl, (refl, tt)))); fits = omega arith },
    (record { text = (refl, (refl, (refl, (refl, tt)))); fits = omega arith }, tt),
  ),
)

connect_misses_message_example :
    Overlooked sender joiner World.start
      (codes "luis")
      (pending_msg (codes "ana") 4 (codes "hi") none)
unfolding lookup streq following_id is_word
connect_misses_message_example =
    connect_misses_message (codes "ana") (codes "luis") (codes "hi") (codes "10.0.0.9")
      (codes "6000") sender.peer sender.unset joiner.unset World.start people ana luis
      sender-IsReadable.0 joiner-IsReadable (IsWord-by 19 (codes "10.0.0.9") refl) start-Represents
      refl refl refl refl
