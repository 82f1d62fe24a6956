-- ===== src/Examples/Catching.antt =====
-- CONNECT of luis, for whom two messages wait.
use messaging_service.Prelude.{
  ◌==◌, ◌≡◌, ℕ, refl, true, some, none, [], ◌∷◌, codes, arith, if◌then◌else◌,
}
use messaging_service.Text.Chars.{streq}
use messaging_service.Users.Table.{lookup}
use messaging_service.Disk.{Disk, PendingMsg}
use messaging_service.Directory.{Represents}
use messaging_service.Program.{Outside, run}
use messaging_service.Handlers.Connect.{f_connect}
use messaging_service.Handlers.Connect.Accepted.{CaughtUp, f_connect-CaughtUp}
use messaging_service.Program.{pushes}
use messaging_service.Database.Mail.Laws.{mailbox}
use messaging_service.Handlers.Connect.Sent.{messages_of, parcel}
use messaging_service.Handlers.Connect.Partial.{HandedInPart, f_connect-HandedInPart}
use messaging_service.Handlers.Connect.Loss.{f_connect_loses_message}
use messaging_service.Examples.World.{
  luis, people, calm, start, calm-UsersAllowed, start-Represents, is_word, IsWord-by,
}

abbrev pub hello : PendingMsg
hello = record { sender = codes "ana"; id = 2; message = codes "hello"; file_name = [] }

abbrev pub look : PendingMsg
look = record { sender = codes "ana"; id = 3; message = codes "look"; file_name = codes "/tmp/a" }

abbrev pub waiting : Disk
waiting = record start {
  messages = λ n. if streq n (codes "luis") then some (hello ∷ look ∷ []) else none;
}

waiting-Represents : Represents waiting people
waiting-Represents = record {
  file = refl;
  valid = start-Represents.valid;
  distinct = start-Represents.distinct;
}

-- Every listener answers.
abbrev bright : ℕ → Outside
bright i = record { refuses = calm; reaches = λ ip port. true }

f_connect-CaughtUp_example :
    CaughtUp
      (codes "luis")
      (codes "10.0.0.9")
      6000
      waiting
      (run (f_connect (some (codes "10.0.0.9")) (codes "luis") 6000) bright 0 waiting)
unfolding lookup streq is_word
f_connect-CaughtUp_example =
    f_connect-CaughtUp bright 0 (codes "luis") (codes "10.0.0.9") 6000 waiting people luis
      (record { at_step = λ i. calm-UsersAllowed })
      (record { at_step = λ i. record { read = refl; add = refl; temp = refl } })
      (IsWord-by 19 (codes "10.0.0.9") refl) (omega arith) waiting-Represents refl refl
      (record { at_step = λ i. refl })

-- The listener answers once, at the third step.
abbrev once : ℕ → Outside
once i = record { refuses = calm; reaches = λ ip port. i == 2 }

f_connect-HandedInPart_example :
    HandedInPart once
      (codes "luis")
      (codes "10.0.0.9")
      6000
      (hello ∷ look ∷ [])
      ((0 ∷ []) ∷ [])
      waiting
      (run (f_connect (some (codes "10.0.0.9")) (codes "luis") 6000) once 0 waiting)
unfolding lookup streq is_word
f_connect-HandedInPart_example =
    f_connect-HandedInPart once 0 (codes "luis") (codes "10.0.0.9") 6000 waiting people luis
      (record { at_step = λ i. calm-UsersAllowed })
      (record { at_step = λ i. record { read = refl; add = refl; temp = refl } })
      (IsWord-by 19 (codes "10.0.0.9") refl) (omega arith) waiting-Represents refl refl

-- A message of another sender with the same id.
abbrev hi : PendingMsg
hi = record { sender = codes "eva"; id = 2; message = codes "hi"; file_name = [] }

abbrev colliding : Disk
colliding = record start {
  messages = λ n. if streq n (codes "luis") then some (hello ∷ hi ∷ []) else none;
}

colliding-Represents : Represents colliding people
colliding-Represents = record {
  file = refl;
  valid = start-Represents.valid;
  distinct = start-Represents.distinct;
}

f_connect_loses_message_example :
    (messages_of (
        pushes
          (run (f_connect (some (codes "10.0.0.9")) (codes "luis") 6000) once 0 colliding).events)
      ≡ parcel (codes "10.0.0.9") 6000 hello ∷ [])
    × (mailbox
          (run (f_connect (some (codes "10.0.0.9")) (codes "luis") 6000) once 0 colliding).disk
          (codes "luis")
        ≡ [])
unfolding lookup streq is_word
f_connect_loses_message_example =
    f_connect_loses_message once 0 (codes "luis") (codes "10.0.0.9") 6000 colliding people luis
      (record { at_step = λ i. calm-UsersAllowed })
      (record { at_step = λ i. record { read = refl; add = refl; temp = refl } })
      (IsWord-by 19 (codes "10.0.0.9") refl) (omega arith) colliding-Represents refl refl hello hi
      refl refl refl (λ j h. ground arith)
