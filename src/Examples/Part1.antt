-- ===== src/Examples/Part1.antt =====
-- parte1 at concrete inputs.
use messaging_service.Prelude.{◌≡◌, sym, subst, none, [], ◌∷◌, map, codes}
use messaging_service.Disk.{Disk, Refusals}
use messaging_service.Database.Prepare.{Prepared}
use messaging_service.Handlers
use messaging_service.Handlers.Delivery
use messaging_service.Handlers.Connect
use messaging_service.Requests.Reading.{encode, strings, disconnect}
use messaging_service.Parte1.Handlers.{f_register, f_unregister, f_connect, f_disconnect, f_send}
use messaging_service.Parte1.Requests.{tratar_peticion}
use messaging_service.Parte1.Plain.{plain}
use messaging_service.Parte1.Agreement.{parte1-plain}
use messaging_service.Parte1.Listings.{Same}
use messaging_service.Parte1.{db_get_connected_users}
use messaging_service.Database.Online
use messaging_service.Directory.{UsersAllowed}
use messaging_service.Directory.Commands.{Evolves}
use messaging_service.Server.{Threads, acts, Steps, start, after}
use messaging_service.Server.Tables.Requests.{Asked}
use messaging_service.Parte1.Reading.{handler, tratar_peticion-handler}
use messaging_service.Parte1.Tables.{thread, parte1_Steps-Evolves}
use messaging_service.Examples.World
use messaging_service.Examples.World.{people, calm, calm-UsersAllowed, start-Represents}
use messaging_service.Examples.Threads.{eva, eva-IsProper, registered}
use messaging_service.Parte1.Closing.{Closes, tratar_peticion-Closes}

abbrev unset : Prepared
unset = record { msg_id = 7; recv_connected = 9; recv_ip = []; recv_port = 1 }

parte1-plain_example :
    (f_register (codes "ana") ≡ plain (Handlers.f_register (codes "ana")))
    × (f_unregister (codes "ana") ≡ plain (Handlers.f_unregister (codes "ana")))
    × (f_connect none (codes "ana") 5050 ≡ plain (Connect.f_connect none (codes "ana") 5050))
    × (f_disconnect none (codes "ana") ≡ plain (Handlers.f_disconnect none (codes "ana")))
    × (f_send unset (codes "ana") (codes "luis") (codes "hello")
        ≡ plain (Delivery.f_send unset (codes "ana") (codes "luis") (codes "hello")))
    × ((r : Refusals) (d : Disk)
        → Same
            (db_get_connected_users r (codes "ana") d)
            (Online.db_get_connected_users r (codes "ana") d))
parte1-plain_example = parte1-plain none unset (codes "ana") (codes "luis") (codes "hello") 5050

tratar_peticion-Closes_example :
    Closes (tratar_peticion none unset (encode (strings (disconnect (codes "ana")))))
tratar_peticion-Closes_example =
    tratar_peticion-Closes none unset (encode (strings (disconnect (codes "ana"))))

first_step :
    (ts : Threads) × Steps UsersAllowed
      (handler eva.peer eva.unset eva.request ∷ [])
      World.start
      ts
      registered
unfolding handler f_register
first_step = (_, after calm calm-UsersAllowed start acts)

one_step : (ts : Threads) × Steps UsersAllowed (map thread (eva ∷ [])) World.start ts registered
unfolding thread
one_step = (
  first_step.0,
  subst (λ p. Steps UsersAllowed (p ∷ []) World.start first_step.0 registered)
      (sym (tratar_peticion-handler eva.peer eva.unset eva.request eva-IsProper.fields))
      first_step.1,
)

parte1_Steps-Evolves_example : Evolves (Asked (eva ∷ [])) people registered
parte1_Steps-Evolves_example =
    parte1_Steps-Evolves (eva ∷ []) one_step.0 World.start registered (eva-IsProper, tt)
      (record { table = people; represents = start-Represents }) one_step.1
