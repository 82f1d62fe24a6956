-- ===== src/Database/Accounts/Failure.antt =====
-- What an account function leaves where it fails, whatever is on the disk.
use messaging_service.Prelude.{
  ℕ, ◌≡◌, refl, inl, inr, ◌⊎◌, Bool, true, false, Bytes, arith, Bool-cases, Option-cases, [], ◌==◌,
}
use messaging_service.Users.{lines_of}
use messaging_service.Disk.{Disk, Refusals, temp_usuarios, usuarios, append, truncate, open_users}
use messaging_service.Database.Accounts.{
  db_register, db_unregister, db_connect, db_disconnect, update_end, unregister_end,
  unregister_loop, connect_loop, disconnect_loop, taken,
}

-- The operation has returned 0, or usuarios.txt has the bytes that it had.
pub OrUnchanged : Disk → ℕ × Disk → Type 0
OrUnchanged d r = (r.0 ≡ 0) ⊎ (r.1.users ≡ d.users)

update_end-OrUnchanged : (d : Disk) (r : ℕ × Bytes) → OrUnchanged d (update_end d r)
unfolding update_end OrUnchanged
update_end-OrUnchanged d (status, out) = elim (Bool-cases (status == 0)) [
  | inl e ↦ inl (ground arith)
  | inr e ↦ inr (rw e refl)
]

unregister_end-OrUnchanged :
    (n : Bytes) (d : Disk) (r : Bool × Bytes) → OrUnchanged d (unregister_end n d r)
unfolding unregister_end OrUnchanged
unregister_end-OrUnchanged n d (true, out) = inl refl
unregister_end-OrUnchanged n d (false, out) = inr refl

db_register-OrUnchanged :
    (refuses : Refusals) (n : Bytes) (d : Disk) → OrUnchanged d (db_register refuses n d)
unfolding db_register OrUnchanged
db_register-OrUnchanged refuses n d = elim (Bool-cases (taken n (open_users refuses d))) [
  | inl e ↦ inr (rw e refl)
  | inr e ↦ elim (Bool-cases (refuses usuarios append)) [
    | inl f ↦ inr (rw (e, f) refl)
    | inr f ↦ inl (rw (e, f) refl)
  ]
]

db_unregister-OrUnchanged :
    (refuses : Refusals) (n : Bytes) (d : Disk) → OrUnchanged d (db_unregister refuses n d)
unfolding db_unregister
db_unregister-OrUnchanged refuses n d = elim (Option-cases (open_users refuses d)) [
  | inl e ↦ rw (e, db_unregister) (unfold OrUnchanged in inr refl)
  | inr (content, e) ↦
      rw (e, db_unregister)
        (elim (Bool-cases (refuses temp_usuarios truncate)) [
          | inl f ↦ rw f (unfold OrUnchanged in inr refl)
          | inr f ↦
              rw f (unregister_end-OrUnchanged n d (unregister_loop n (lines_of content) false []))
        ])
]

db_connect-OrUnchanged :
    (refuses : Refusals) (n ip : Bytes) (port : ℕ) (d : Disk)
    → OrUnchanged d (db_connect refuses n ip port d)
unfolding db_connect
db_connect-OrUnchanged refuses n ip port d = elim (Option-cases (open_users refuses d)) [
  | inl e ↦ rw (e, db_connect) (unfold OrUnchanged in inr refl)
  | inr (content, e) ↦
      rw (e, db_connect)
        (elim (Bool-cases (refuses temp_usuarios truncate)) [
          | inl f ↦ rw f (unfold OrUnchanged in inr refl)
          | inr f ↦ rw f (update_end-OrUnchanged d (connect_loop n ip port (lines_of content) 1 []))
        ])
]

db_disconnect-OrUnchanged :
    (refuses : Refusals) (n : Bytes) (d : Disk) → OrUnchanged d (db_disconnect refuses n d)
unfolding db_disconnect
db_disconnect-OrUnchanged refuses n d = elim (Option-cases (open_users refuses d)) [
  | inl e ↦ rw (e, db_disconnect) (unfold OrUnchanged in inr refl)
  | inr (content, e) ↦
      rw (e, db_disconnect)
        (elim (Bool-cases (refuses temp_usuarios truncate)) [
          | inl f ↦ rw f (unfold OrUnchanged in inr refl)
          | inr f ↦ rw f (update_end-OrUnchanged d (disconnect_loop n (lines_of content) 1 []))
        ])
]

-- Whatever is on the disk and whichever files are refused: db_register, db_unregister, db_connect and
-- db_disconnect each return 0 or leave every byte of usuarios.txt as it was.
pub failure-OrUnchanged :
    (refuses : Refusals) (n ip : Bytes) (port : ℕ) (d : Disk)
    → OrUnchanged d (db_register refuses n d)
      × OrUnchanged d (db_unregister refuses n d)
      × OrUnchanged d (db_connect refuses n ip port d)
      × OrUnchanged d (db_disconnect refuses n d)
failure-OrUnchanged refuses n ip port d = (
  db_register-OrUnchanged refuses n d,
  db_unregister-OrUnchanged refuses n d,
  db_connect-OrUnchanged refuses n ip port d,
  db_disconnect-OrUnchanged refuses n d,
)
