-- ===== src/Examples/Orphans.antt =====
-- ana sends luis, who is offline, a message, while luis is unregistered.
use messaging_service.Prelude.{refl, none, some, codes, arith}
use messaging_service.Text.Chars.{streq}
use messaging_service.Users.Table.{lookup}
use messaging_service.Directory.{following_id}
use messaging_service.Database.Mail.{pending_msg}
use messaging_service.Requests.Reading.{strings, unregister}
use messaging_service.Server.Arrivals.{Arrival}
use messaging_service.Server.Mail.Requests.{IsReadable}
use messaging_service.Server.Mail.Orphans.{Orphaned, unregister_leaves_message}
use messaging_service.Examples.World
use messaging_service.Examples.World.{ana, luis, people, start-Represents}
use messaging_service.Examples.Mail.{sender, sender-IsReadable}

abbrev leaver : Arrival
leaver = record {
  peer = some (codes "10.0.0.9");
  unset = sender.unset;
  request = unregister (codes "luis");
}

leaver-IsReadable : IsReadable leaver
unfolding strings
leaver-IsReadable = (
  record {
    text = (refl, (refl, (refl, (refl, (refl, (refl, (refl, (refl, (refl, (refl, tt))))))))));
    fits = omega arith;
  },
  (record { text = (refl, (refl, (refl, (refl, tt)))); fits = omega arith }, tt),
)

unregister_leaves_message_example :
    Orphaned sender leaver World.start
      (codes "luis")
      (pending_msg (codes "ana") 4 (codes "hi") none)
unfolding lookup streq following_id
unregister_leaves_message_example =
    unregister_leaves_message (codes "ana") (codes "luis") (codes "hi") sender.peer leaver.peer
      sender.unset leaver.unset World.start people ana luis sender-IsReadable.0 leaver-IsReadable
      start-Represents refl refl refl
