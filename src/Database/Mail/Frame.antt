-- ===== src/Database/Mail/Frame.antt =====
-- database.c: the message functions and usuarios.txt.
use messaging_service.Prelude.{
  ℕ, ◌≡◌, Bool, true, false, Option, List, inl, inr, Bytes, [], arith, Option-cases,
}
use messaging_service.Disk.{
  Disk, PendingMsg, Refusals, temp_mensajes, truncate, open_messages, rename_messages,
}
use messaging_service.Database.Mail.{db_store_message, db_delete_message, delete_loop, delete_end}

pub db_store_message-users :
    (refuses : Refusals) (receiver sender : Bytes) (i : ℕ) (text : Bytes) (file : Option Bytes)
    (d : Disk)
    → (db_store_message refuses receiver sender i text file d).1.users ≡ d.users
unfolding db_store_message
db_store_message-users refuses receiver sender i text file d = ground arith

delete_end-users :
    (b : Bool) (n : Bytes) (d : Disk) (out : List PendingMsg)
    → (delete_end b n d out).users ≡ d.users
unfolding delete_end rename_messages
delete_end-users true n d out = ground arith
delete_end-users false n d out = ground arith

pub db_delete_message-users :
    (refuses : Refusals) (n : Bytes) (i : ℕ) (d : Disk)
    → (db_delete_message refuses n i d).1.users ≡ d.users
unfolding db_delete_message
db_delete_message-users refuses n i d = elim (Option-cases (open_messages refuses n d)) [
  | inl e ↦ rw (e, db_delete_message)
  | inr (ms, e) ↦
      rw (e, db_delete_message)
        (delete_end-users (refuses (temp_mensajes n) truncate) n d (delete_loop i ms []))
]
