-- ===== src/Directory/Commands.antt =====
-- What the database functions do to the directory, as commands that come one after the other.
use messaging_service.Prelude.{
  ℕ, ◌≡◌, refl, ap, sym, ◌∙◌, fun_ext, List, [], ◌∷◌, ◌++◌, Bytes, All, All-append,
}
use messaging_service.Disk.{Disk}
use messaging_service.Users.Table.{Table, lookup}
use messaging_service.Directory.{
  Directory, Represents, register_spec, unregister_spec, connect_spec, disconnect_spec,
  prepare_spec,
}

pub data Command : Type 0 where
  registers : Bytes → Command
  unregisters : Bytes → Command
  connects : Bytes → Bytes → ℕ → Command
  disconnects : Bytes → Command
  prepares : Bytes → Bytes → Command

unfoldable pub perform : Command → Directory → Directory
perform (registers n) dir = (register_spec n dir).1
perform (unregisters n) dir = (unregister_spec n dir).1
perform (connects n ip port) dir = (connect_spec n ip port dir).1
perform (disconnects n) dir = (disconnect_spec n dir).1
perform (prepares a b) dir = (prepare_spec a b dir).1

unfoldable pub perform_all : List Command → Directory → Directory
perform_all [] dir = dir
perform_all (c ∷ cs) dir = perform_all cs (perform c dir)

pub perform_all-append :
    (cs es : List Command) (dir : Directory)
    → perform_all (cs ++ es) dir ≡ perform_all es (perform_all cs dir)
unfolding perform_all
perform_all-append [] es dir = refl
perform_all-append (c ∷ cs) es dir = perform_all-append cs es (perform c dir)

-- The disk holds a table, which commands of a kind have made of the users in `t`.
pub record Evolves (P : Command → Type 0) (t : Table) (e : Disk) : Type 0 where
  pub table : Table
  pub represents : Represents e table
  pub commands : List Command
  pub permitted : All P commands
  pub view : (λ j. lookup j table) ≡ perform_all commands (λ j. lookup j t)

module _ {P : Command → Type 0} where
  pub no_command : (d e : Disk) (t : Table) → e.users ≡ d.users → Represents d t → Evolves P t e
  no_command d e t h r = record {
    table = t;
    represents = record { file = rw h r.file; valid = r.valid; distinct = r.distinct };
    commands = [];
    permitted = tt;
    view = unfold perform_all in refl;
  }

  pub one_command :
      (c : Command) (t t' : Table) (e : Disk)
      → P c
      → Represents e t'
      → ((j : Bytes) → lookup j t' ≡ perform c (λ i. lookup i t) j)
      → Evolves P t e
  one_command c t t' e h r v = record {
    table = t';
    represents = r;
    commands = c ∷ [];
    permitted = (h, tt);
    view = unfold perform_all in fun_ext v;
  }

  pub Evolves-trans :
      {t : Table} {d e : Disk} (x : Evolves P t d) → Evolves P x.table e → Evolves P t e
  Evolves-trans {t} x y = record {
    table = y.table;
    represents = y.represents;
    commands = x.commands ++ y.commands;
    permitted = All-append P x.commands y.commands x.permitted y.permitted;
    view =
        y.view
        ∙ ap (perform_all y.commands) x.view
        ∙ sym (perform_all-append x.commands y.commands (λ j. lookup j t));
  }
