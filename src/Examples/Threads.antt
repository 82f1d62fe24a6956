-- ===== src/Examples/Threads.antt =====
-- A thread that serves REGISTER eva, after the step in which db_register acts.
use messaging_service.Prelude.{inl, inr, refl, sym, subst, some, [], ◌∷◌, map, codes, arith}
use messaging_service.Disk.{Disk}
use messaging_service.Database.Accounts.{db_register}
use messaging_service.Handlers.{f_register}
use messaging_service.Requests.Reading.{register, strings, handler, tratar_peticion-encode}
use messaging_service.Directory.{UsersAllowed}
use messaging_service.Server.{Threads, acts, Steps, start, after}
use messaging_service.Server.Arrivals.{Arrival, thread}
use messaging_service.Server.Tables.Requests.{IsProper, Asks, Asked, Steps-Evolves}
use messaging_service.Server.Tables.Kept.{Keeps, Steps-Keeps}
use messaging_service.Directory.Commands.{Evolves, unregisters}
use messaging_service.Users.Table.{lookup}
use messaging_service.Text.Chars.{streq}
use messaging_service.Examples.World.{
  ana, people, calm, calm-UsersAllowed, start-Represents, is_word, IsWord-by,
}
use messaging_service.Examples.World

abbrev pub eva : Arrival
eva = record {
  peer = some (codes "10.0.0.5");
  unset = record { msg_id = 7; recv_connected = 9; recv_ip = []; recv_port = 1 };
  request = register (codes "eva");
}

pub eva-IsProper : IsProper eva
unfolding is_word strings
eva-IsProper = record {
  fields = (
    record {
      text = (refl, (refl, (refl, (refl, (refl, (refl, (refl, (refl, tt))))))));
      fits = omega arith;
    },
    (record { text = (refl, (refl, (refl, tt))); fits = omega arith }, tt),
  );
  peer = IsWord-by 19 (codes "10.0.0.5") refl;
  named = IsWord-by 255 (codes "eva") refl;
}

abbrev pub registered : Disk
registered = (db_register calm (codes "eva") World.start).1

first_step :
    (ts : Threads) × Steps UsersAllowed
      (handler eva.peer eva.unset eva.request ∷ [])
      World.start
      ts
      registered
unfolding handler f_register
first_step = (_, after calm calm-UsersAllowed start acts)

one_step : (ts : Threads) × Steps UsersAllowed (map thread (eva ∷ [])) World.start ts registered
unfolding thread
one_step = (
  first_step.0,
  subst (λ p. Steps UsersAllowed (p ∷ []) World.start first_step.0 registered)
      (sym (tratar_peticion-encode eva.peer eva.unset eva.request eva-IsProper.fields))
      first_step.1,
)

Steps-Evolves_example : Evolves (Asked (eva ∷ [])) people registered
Steps-Evolves_example =
    Steps-Evolves (eva ∷ []) one_step.0 World.start registered (eva-IsProper, tt)
      (record { table = people; represents = start-Represents }) one_step.1

eva_only : Asked (eva ∷ []) (unregisters (codes "ana")) → ⊥
unfolding Asked Asks
eva_only (inl e) = cc
eva_only (inr e) = e

Steps-Keeps_example : Keeps (Asked (eva ∷ [])) (codes "ana") ana registered
unfolding lookup streq
Steps-Keeps_example =
    Steps-Keeps (eva ∷ []) one_step.0 World.start registered (codes "ana") ana (eva-IsProper, tt)
      (record { table = people; represents = start-Represents }) refl eva_only one_step.1
