-- ===== src/Database/Accounts/Refinement.antt =====
-- db_register and db_unregister, against the directory.
use messaging_service.Prelude.{
  ◌≡◌, refl, false, some, inl, inr, [], ◌∷◌, ◌++◌, Bytes, All, All-append, arith, Option-cases,
  append-nil, codes,
}
use messaging_service.Text.Chars.{is_space}
use messaging_service.Text.Scan.Laws.{IsWord}
use messaging_service.Users.{User, format_user}
use messaging_service.Users.Laws.{IsUser}
use messaging_service.Users.Table.{
  Table, print_table, print_table-append, print_table-cons, lookup, without, lookup-Fresh,
  lookup-append, lookup-without, lines_of-print_table, without-All, without-Distinct,
  append-Distinct,
}
use messaging_service.Disk.{Disk, Refusals, open_users}
use messaging_service.Directory.{
  assign, Represents, Refines, UsersAllowed, register_spec, unregister_spec,
}
use messaging_service.Database.Accounts.{db_register, db_unregister, new_user, taken}
use messaging_service.Database.Accounts.Loops.{is_some, name_taken-lookup, unregister_loop-without}

pub open_users-some :
    (refuses : Refusals) (d : Disk) (t : Table)
    → UsersAllowed refuses
    → Represents d t
    → open_users refuses d ≡ some (print_table t)
unfolding open_users
open_users-some refuses d t a r = rw a.read r.file

-- The address that a user who is offline has.
pub unassigned-IsWord : IsWord 19 (codes "0.0.0.0")
unfolding is_space
unassigned-IsWord = record {
  nonempty = omega arith;
  short = omega arith;
  graphic = (refl, (refl, (refl, (refl, (refl, (refl, (refl, tt)))))));
}

new_user-IsUser : (n : Bytes) → IsWord 255 n → IsUser (new_user n)
unfolding new_user
new_user-IsUser n h = record {
  name = h;
  connected = omega arith;
  ip = unassigned-IsWord;
  port = omega arith;
  last_id = omega arith;
}

print_table-one :
    (t : Table) (u : User) → print_table (t ++ u ∷ []) ≡ print_table t ++ format_user u
print_table-one t u =
    rw (print_table-append t (u ∷ []))
      (rw print_table-cons (unfold print_table in rw append-nil refl))

taken-lookup :
    (n : Bytes) (t : Table) → All IsUser t → taken n (some (print_table t)) ≡ is_some (lookup n t)
unfolding taken
taken-lookup n t v = rw (lines_of-print_table t v) (name_taken-lookup n t v)

-- On a disk that holds a table, where no file of the user table is refused, db_register of a name
-- without white space of 1 to 255 bytes refines `register_spec`: it returns 1 and changes no user
-- where the name is taken, else it returns 0 and the name belongs to a user who is offline and has
-- sent nothing. The disk holds a table again.
pub db_register-Refines :
    (refuses : Refusals) (n : Bytes) (d : Disk) (t : Table)
    → UsersAllowed refuses
    → IsWord 255 n
    → Represents d t
    → Refines t (register_spec n) (db_register refuses n d)
unfolding db_register register_spec
db_register-Refines refuses n d t a w r = elim (Option-cases (lookup n t)) [
  | inl e ↦ rw (open_users-some refuses d t a r) (
      rw (taken-lookup n t r.valid) (
        rw (e, a.add)
          (record {
            table = t ++ new_user n ∷ [];
            represents = record {
              file = rw r.file (rw print_table-one refl);
              valid = All-append _ t (new_user n ∷ []) r.valid (new_user-IsUser n w, tt);
              distinct =
                  append-Distinct t (new_user n) (unfold new_user in lookup-Fresh n t e) r.distinct;
            };
            code = rw (e, register_spec);
            view = λ j.
                rw (e, register_spec)
                  (unfold new_user assign in lookup-append j t (new_user n) (lookup-Fresh n t e));
          })))
  | inr (u, e) ↦ rw (open_users-some refuses d t a r) (
      rw (taken-lookup n t r.valid) (
        rw e (record {
          table = t;
          represents = r;
          code = rw (e, register_spec);
          view = λ j. rw (e, register_spec);
        })))
]

-- On a disk that holds a table, where no file of the user table is refused, db_unregister refines
-- `unregister_spec`: it returns 1 and changes no user where the name is free, else it returns 0 and
-- the name is free, all other users as before. The disk holds a table again.
pub db_unregister-Refines :
    (refuses : Refusals) (n : Bytes) (d : Disk) (t : Table)
    → UsersAllowed refuses
    → Represents d t
    → Refines t (unregister_spec n) (db_unregister refuses n d)
unfolding db_unregister unregister_spec
db_unregister-Refines refuses n d t a r =
    rw (open_users-some refuses d t a r, db_unregister)
      (rw a.temp (
        rw (lines_of-print_table t r.valid) (
          rw (unregister_loop-without n t false [] r.valid) (elim (Option-cases (lookup n t)) [
            | inl e ↦ rw e (record {
              table = t;
              represents = record { file = r.file; valid = r.valid; distinct = r.distinct };
              code = rw (e, unregister_spec);
              view = λ j. rw (e, unregister_spec);
            })
            | inr (u, e) ↦ rw e (record {
              table = without n t;
              represents = record {
                file = refl;
                valid = without-All IsUser n t r.valid;
                distinct = without-Distinct n t r.distinct;
              };
              code = rw (e, unregister_spec);
              view = λ j. rw (e, unregister_spec) (unfold assign in lookup-without n j t);
            })
          ]))))
