-- ===== src/Database/Accounts/Frame.antt =====
-- What the account functions leave alone: the message files.
use messaging_service.Prelude.{
  refl, ap, ◌⊎◌, Bool, true, false, none, some, ℕ, ◌≡◌, inl, inr, Bytes, arith, Bool-cases,
  Option-cases, [],
}
use messaging_service.Users.{lines_of}
use messaging_service.Disk.{
  Disk, Refusals, temp_usuarios, truncate, rename_users, open_users, set_file,
}
use messaging_service.Database.Accounts.{
  db_register, db_unregister, unregister_end, unregister_loop, db_connect, db_disconnect,
  update_end, connect_loop, disconnect_loop,
}

pub rename_users-messages : (d : Disk) → (rename_users d).messages ≡ d.messages
unfolding rename_users
rename_users-messages d = ground arith

update_end-messages : (d : Disk) (r : ℕ × Bytes) → (update_end d r).1.messages ≡ d.messages
unfolding update_end
update_end-messages d (status, out) = ground arith

-- A disconnection leaves all message files alone.
pub db_disconnect-messages :
    (refuses : Refusals) (n : Bytes) (d : Disk)
    → (db_disconnect refuses n d).1.messages ≡ d.messages
unfolding db_disconnect
db_disconnect-messages refuses n d = elim (Option-cases (open_users refuses d)) [
  | inl e ↦ rw (e, db_disconnect)
  | inr (content, e) ↦
      rw (e, db_disconnect)
        (elim (Bool-cases (refuses temp_usuarios truncate)) [
          | inl f ↦ rw f
          | inr f ↦ rw f (update_end-messages d (disconnect_loop n (lines_of content) 1 []))
        ])
]

-- So does a connection.
pub db_connect-messages :
    (refuses : Refusals) (n ip : Bytes) (port : ℕ) (d : Disk)
    → (db_connect refuses n ip port d).1.messages ≡ d.messages
unfolding db_connect
db_connect-messages refuses n ip port d = elim (Option-cases (open_users refuses d)) [
  | inl e ↦ rw (e, db_connect)
  | inr (content, e) ↦
      rw (e, db_connect)
        (elim (Bool-cases (refuses temp_usuarios truncate)) [
          | inl f ↦ rw f
          | inr f ↦ rw f (update_end-messages d (connect_loop n ip port (lines_of content) 1 []))
        ])
]

-- So does a registration.
pub db_register-messages :
    (refuses : Refusals) (n : Bytes) (d : Disk) → (db_register refuses n d).1.messages ≡ d.messages
unfolding db_register
db_register-messages refuses n d = ground arith

unregister_end-files :
    (n : Bytes) (d : Disk) (r : Bool × Bytes)
    → ((unregister_end n d r).1.messages ≡ d.messages)
      ⊎ ((unregister_end n d r).1.messages ≡ set_file n none d.messages)
unfolding unregister_end
unregister_end-files n d (true, out) = inr (
    ap (set_file n none) (rename_users-messages (record d { users = none; temp_users = some out })))
unregister_end-files n d (false, out) = inl refl

-- UNREGISTER leaves the message files alone, or takes the user's away.
pub db_unregister-files :
    (refuses : Refusals) (n : Bytes) (d : Disk)
    → ((db_unregister refuses n d).1.messages ≡ d.messages)
      ⊎ ((db_unregister refuses n d).1.messages ≡ set_file n none d.messages)
unfolding db_unregister
db_unregister-files refuses n d = elim (Option-cases (open_users refuses d)) [
  | inl e ↦ inl (rw (e, db_unregister))
  | inr (content, e) ↦ elim (Bool-cases (refuses temp_usuarios truncate)) [
    | inl f ↦ inl (rw (e, db_unregister) (rw f))
    | inr f ↦
        rw (e, db_unregister)
          (rw f (unregister_end-files n d (unregister_loop n (lines_of content) false [])))
  ]
]
