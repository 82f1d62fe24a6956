-- ===== src/Examples/Accounts.antt =====
-- The account functions at concrete inputs.
use messaging_service.Prelude.{◌≡◌, ◌++◌, some, refl, [], codes, arith, true}
use messaging_service.Directory.{
  Refines, register_spec, unregister_spec, connect_spec, disconnect_spec, prepare_spec,
}
use messaging_service.Database.Accounts.{
  new_user, db_register, db_unregister, db_connect, db_disconnect,
}
use messaging_service.Disk.{Refusals, or_empty}
use messaging_service.Users.{format_user}
use messaging_service.Text.Chars.{is_space}
use messaging_service.Database.Accounts.Names.{db_register_again}
use messaging_service.Database.Accounts.Failure.{OrUnchanged, failure-OrUnchanged}
use messaging_service.Database.Accounts.Refinement.{db_register-Refines, db_unregister-Refines}
use messaging_service.Database.Accounts.Sessions.{db_connect-Refines, db_disconnect-Refines}
use messaging_service.Database.Prepare.{Prepared, db_prepare_message}
use messaging_service.Database.Prepare.Refinement.{db_prepare_message-Refines, code_and_disk}
use messaging_service.Examples.World.{
  people, calm, start, calm-UsersAllowed, start-Represents, IsWord-by, is_word,
}

db_register-Refines_example :
    Refines people (register_spec (codes "eva")) (db_register calm (codes "eva") start)
unfolding is_word
db_register-Refines_example =
    db_register-Refines calm (codes "eva") start people calm-UsersAllowed
      (IsWord-by 255 (codes "eva") refl) start-Represents

db_unregister-Refines_example :
    Refines people (unregister_spec (codes "ana")) (db_unregister calm (codes "ana") start)
db_unregister-Refines_example =
    db_unregister-Refines calm (codes "ana") start people calm-UsersAllowed start-Represents

db_connect-Refines_example :
    Refines people
      (connect_spec (codes "luis") (codes "10.0.0.8") 6060)
      (db_connect calm (codes "luis") (codes "10.0.0.8") 6060 start)
unfolding is_word
db_connect-Refines_example =
    db_connect-Refines calm (codes "luis") (codes "10.0.0.8") 6060 start people calm-UsersAllowed
      (IsWord-by 19 (codes "10.0.0.8") refl) (omega arith) start-Represents

db_disconnect-Refines_example :
    Refines people (disconnect_spec (codes "ana")) (db_disconnect calm (codes "ana") start)
db_disconnect-Refines_example =
    db_disconnect-Refines calm (codes "ana") start people calm-UsersAllowed start-Represents

abbrev unset : Prepared
unset = record { msg_id = 77; recv_connected = 9; recv_ip = []; recv_port = 1 }

db_prepare_message-Refines_example :
    Refines people
      (prepare_spec (codes "ana") (codes "luis"))
      (code_and_disk (db_prepare_message calm (codes "ana") (codes "luis") unset start))
db_prepare_message-Refines_example =
    db_prepare_message-Refines calm (codes "ana") (codes "luis") unset start people
      calm-UsersAllowed start-Represents

-- Nothing can be opened.
abbrev shut : Refusals
shut = λ path mode. true

failure-OrUnchanged_example :
    OrUnchanged start (db_register shut (codes "ana") start)
    × OrUnchanged start (db_unregister shut (codes "ana") start)
    × OrUnchanged start (db_connect shut (codes "ana") (codes "10.0.0.9") 6000 start)
    × OrUnchanged start (db_disconnect shut (codes "ana") start)
failure-OrUnchanged_example = failure-OrUnchanged shut (codes "ana") (codes "10.0.0.9") 6000 start

db_register_again_example :
    ((db_register calm (codes "a b") start).0 ≡ 0)
    × ((db_register calm (codes "a b") start).1.users
        ≡ some (or_empty start.users ++ format_user (new_user (codes "a b"))))
unfolding is_space
db_register_again_example = db_register_again calm (codes "a") (codes "b") 32 start refl refl
