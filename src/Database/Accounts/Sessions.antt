-- ===== src/Database/Accounts/Sessions.antt =====
-- db_connect and db_disconnect, against the directory.
use messaging_service.Prelude.{
  ℕ, ◌<◌, ◌≡◌, refl, false, none, some, inl, inr, [], Bytes, ◌==◌, arith, Bool-cases, Option-cases,
  codes,
}
use messaging_service.Text.Chars.{streq_iff}
use messaging_service.Text.Scan.{word_mod}
use messaging_service.Text.Scan.Laws.{IsWord}
use messaging_service.Users.{User}
use messaging_service.Users.Laws.{IsUser}
use messaging_service.Users.Table.{
  Table, print_table, lookup, modify, lookup-modify, lines_of-print_table, modify-All,
  modify-Distinct,
}
use messaging_service.Disk.{Disk, Refusals, rename_users}
use messaging_service.Directory.{
  assign, Represents, Refines, UsersAllowed, connect_spec, disconnect_spec,
}
use messaging_service.Database.Accounts.{db_connect, db_disconnect}
use messaging_service.Database.Accounts.Refinement.{open_users-some, unassigned-IsWord}
use messaging_service.Database.Accounts.Loops.{
  connect_loop-modify, disconnect_loop-modify, go_online, go_offline, status_of-lookup,
}

-- What CONNECT and DISCONNECT share: the table after a change of the one user of the name.
update-Represents :
    (n : Bytes) (f : User → User) (d : Disk) (t : Table)
    → ((u : User) → (f u).name ≡ u.name)
    → ((u : User) → IsUser u → IsUser (f u))
    → Represents d t
    → Represents
        (rename_users (record d { users = none; temp_users = some (print_table (modify n f t)) }))
        (modify n f t)
unfolding rename_users
update-Represents n f d t keeps ok r = record {
  file = refl;
  valid = modify-All IsUser n f t ok r.valid;
  distinct = modify-Distinct n f t keeps r.distinct;
}

go_online-name : (ip : Bytes) (port : ℕ) (u : User) → (go_online ip port u).name ≡ u.name
unfolding go_online
go_online-name ip port u = ground arith

go_online-IsUser :
    (ip : Bytes) (port : ℕ)
    → IsWord 19 ip
    → port < word_mod
    → (u : User) → IsUser u
    → IsUser (go_online ip port u)
unfolding go_online
go_online-IsUser ip port w p u v = elim (Bool-cases (u.connected == 1)) [
  | inl e ↦ rw e v
  | inr e ↦
      rw e
        (record { name = v.name; connected = omega arith; ip = w; port = p; last_id = v.last_id })
]

online_view :
    (n ip : Bytes) (port : ℕ) (j : Bytes) (t : Table) (u : User)
    → lookup n t ≡ some u
    → u.connected == 1 ≡ false
    → lookup j (modify n (go_online ip port) t)
      ≡ assign n (some (record u { connected = 1; ip = ip; port = port })) (λ i. lookup i t) j
unfolding go_online assign
online_view n ip port j t u e c =
    ground (arith, lookup-modify n j (go_online ip port) t (go_online-name ip port), streq_iff n j)

-- On a disk that holds a table, where no file of the user table is refused, db_connect with an address
-- of 1 to 19 bytes without white space and a 32-bit port refines `connect_spec`: 1 where there is no
-- such user and 2 where the user is online, with no user changed; else 0, and the user is online at
-- that address and port with the last id kept. The disk holds a table again.
pub db_connect-Refines :
    (refuses : Refusals) (n ip : Bytes) (port : ℕ) (d : Disk) (t : Table)
    → UsersAllowed refuses
    → IsWord 19 ip
    → port < word_mod
    → Represents d t
    → Refines t (connect_spec n ip port) (db_connect refuses n ip port d)
unfolding db_connect connect_spec
db_connect-Refines refuses n ip port d t a w p r =
    rw (open_users-some refuses d t a r, db_connect)
      (rw a.temp (
        rw (lines_of-print_table t r.valid) (
          rw (connect_loop-modify n ip port t 1 [] r.valid) (
            rw (status_of-lookup 1 n t 1 r.distinct) (elim (Option-cases (lookup n t)) [
              | inl e ↦ rw e (record {
                table = t;
                represents = record { file = r.file; valid = r.valid; distinct = r.distinct };
                code = rw (e, connect_spec);
                view = λ j. rw (e, connect_spec);
              })
              | inr (u, e) ↦ elim (Bool-cases (u.connected == 1)) [
                | inl c ↦
                    rw (e, c)
                      (record {
                        table = t;
                        represents = record {
                          file = r.file;
                          valid = r.valid;
                          distinct = r.distinct;
                        };
                        code = rw (e, connect_spec) (rw c);
                        view = λ j. rw (e, connect_spec) (rw c);
                      })
                | inr c ↦
                    rw (e, c)
                      (record {
                        table = modify n (go_online ip port) t;
                        represents =
                            update-Represents n (go_online ip port) d t (go_online-name ip port)
                              (go_online-IsUser ip port w p) r;
                        code = rw (e, connect_spec) (rw c);
                        view = λ j. rw (e, connect_spec) (rw c (online_view n ip port j t u e c));
                      })
              ]
            ])))))

go_offline-name : (u : User) → (go_offline u).name ≡ u.name
unfolding go_offline
go_offline-name u = ground arith

go_offline-IsUser : (u : User) → IsUser u → IsUser (go_offline u)
unfolding go_offline
go_offline-IsUser u v = elim (Bool-cases (u.connected == 0)) [
  | inl e ↦ rw e v
  | inr e ↦ rw e (record {
    name = v.name;
    connected = omega arith;
    ip = unassigned-IsWord;
    port = omega arith;
    last_id = v.last_id;
  })
]

offline_view :
    (n j : Bytes) (t : Table) (u : User)
    → lookup n t ≡ some u
    → u.connected == 0 ≡ false
    → lookup j (modify n go_offline t)
      ≡ assign n
          (some (record u { connected = 0; ip = codes "0.0.0.0"; port = 0 }))
          (λ i. lookup i t)
          j
unfolding go_offline assign
offline_view n j t u e c =
    ground (arith, lookup-modify n j go_offline t go_offline-name, streq_iff n j)

-- On a disk that holds a table, where no file of the user table is refused, db_disconnect refines
-- `disconnect_spec`: 1 where there is no such user and 2 where the user is offline, with no user
-- changed; else 0, and the user is offline with the address 0.0.0.0, the port 0 and the last id kept.
-- The disk holds a table again.
pub db_disconnect-Refines :
    (refuses : Refusals) (n : Bytes) (d : Disk) (t : Table)
    → UsersAllowed refuses
    → Represents d t
    → Refines t (disconnect_spec n) (db_disconnect refuses n d)
unfolding db_disconnect disconnect_spec
db_disconnect-Refines refuses n d t a r =
    rw (open_users-some refuses d t a r, db_disconnect)
      (rw a.temp (
        rw (lines_of-print_table t r.valid) (
          rw (disconnect_loop-modify n t 1 [] r.valid) (
            rw (status_of-lookup 0 n t 1 r.distinct) (elim (Option-cases (lookup n t)) [
              | inl e ↦ rw e (record {
                table = t;
                represents = record { file = r.file; valid = r.valid; distinct = r.distinct };
                code = rw (e, disconnect_spec);
                view = λ j. rw (e, disconnect_spec);
              })
              | inr (u, e) ↦ elim (Bool-cases (u.connected == 0)) [
                | inl c ↦
                    rw (e, c)
                      (record {
                        table = t;
                        represents = record {
                          file = r.file;
                          valid = r.valid;
                          distinct = r.distinct;
                        };
                        code = rw (e, disconnect_spec) (rw c);
                        view = λ j. rw (e, disconnect_spec) (rw c);
                      })
                | inr c ↦
                    rw (e, c)
                      (record {
                        table = modify n go_offline t;
                        represents =
                            update-Represents n go_offline d t go_offline-name go_offline-IsUser r;
                        code = rw (e, disconnect_spec) (rw c);
                        view = λ j. rw (e, disconnect_spec) (rw c (offline_view n j t u e c));
                      })
              ]
            ])))))
