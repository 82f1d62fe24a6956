-- ===== src/Handlers/Mail.antt =====
-- funciones.c: the handlers of the accounts and of USERS, and what they do to the message files.
use messaging_service.Prelude.{
  refl, ap, ◌∙◌, inl, inr, Option, none, some, List, [], ◌∷◌, ◌==◌, not, Bytes, Bool-cases,
}
use messaging_service.Text.Chars.{streq}
use messaging_service.Disk.{Disk, Refusals, set_file, or_empty}
use messaging_service.Database.Accounts.{db_register, db_unregister, db_disconnect}
use messaging_service.Database.Accounts.Frame.{
  db_register-messages, db_unregister-files, db_disconnect-messages,
}
use messaging_service.Database.Mail.Commands.{MailCommand, removes, command, Changes}
use messaging_service.Database.Online.{db_get_connected_users, Listing, UserInfo}
use messaging_service.Program.Mail.{Log, KeepsMail, bind-KeepsMail, if-KeepsMail, same_files}
use messaging_service.Handlers.{
  f_register, f_unregister, refuse_disconnect, disconnect_from, f_disconnect, reply_strings,
  users_reply, f_users,
}

db_unregister-Changes :
    {Q : MailCommand → Type 0} (r : Refusals) (n : Bytes) (d : Disk)
    → Q (removes n)
    → Changes Q d (db_unregister r n d).1
unfolding command set_file
db_unregister-Changes r n d q = elim (db_unregister-files r n d) [
  | inl e ↦ same_files d (db_unregister r n d).1 e
  | inr e ↦ inr (
    removes n,
    q,
    λ j. elim (Bool-cases (streq n j)) [
      | inl h ↦ ap (λ files. or_empty (files j)) e ∙ rw h refl
      | inr h ↦ ap (λ files. or_empty (files j)) e ∙ rw h refl
    ],
  )
]

module _ (P : Log → MailCommand → Type 0) (l : Log) where
  pub f_register-KeepsMail : (n : Bytes) → KeepsMail P l (f_register n)
  unfolding f_register KeepsMail
  f_register-KeepsMail n =
      λ r d a. (same_files d (db_register r n d).1 (db_register-messages r n d), tt)

  pub f_unregister-KeepsMail : (n : Bytes) → P l (removes n) → KeepsMail P l (f_unregister n)
  unfolding f_unregister KeepsMail
  f_unregister-KeepsMail n h = λ r d a. (db_unregister-Changes r n d h, tt)

  disconnect_from-KeepsMail :
      (n ip : Bytes) (u : Option UserInfo) → KeepsMail P l (disconnect_from n ip u)
  unfolding disconnect_from refuse_disconnect KeepsMail
  disconnect_from-KeepsMail n ip none = tt
  disconnect_from-KeepsMail n ip (some u) =
      if-KeepsMail P l (not (streq ip u.ip)) _ _ (unfold KeepsMail in tt) (
        unfold KeepsMail in
        λ r d a. (same_files d (db_disconnect r n d).1 (db_disconnect-messages r n d), tt))

  pub f_disconnect-KeepsMail :
      (peer : Option Bytes) (n : Bytes) → KeepsMail P l (f_disconnect peer n)
  unfolding f_disconnect refuse_disconnect KeepsMail
  f_disconnect-KeepsMail none n = tt
  f_disconnect-KeepsMail (some ip) n =
      λ r d a. (same_files d d refl, disconnect_from-KeepsMail n ip _)

module _ (P : Log → MailCommand → Type 0) where
  reply_strings-KeepsMail : (l : Log) (list : List Bytes) → KeepsMail P l (reply_strings list)
  unfolding reply_strings KeepsMail
  reply_strings-KeepsMail l [] = tt
  reply_strings-KeepsMail l (s ∷ list) = reply_strings-KeepsMail _ list

  users_reply-KeepsMail : (l : Log) (n : Bytes) (res : Listing) → KeepsMail P l (users_reply n res)
  unfolding users_reply KeepsMail
  users_reply-KeepsMail l n res =
      if-KeepsMail P _ (res.code == 0) _ _
        (bind-KeepsMail P _ (reply_strings res.users_list) _
          (reply_strings-KeepsMail _ res.users_list) (λ l u. tt))
        tt

  pub f_users-KeepsMail : (l : Log) (n : Bytes) → KeepsMail P l (f_users n)
  unfolding f_users KeepsMail
  f_users-KeepsMail l n =
      λ r d a. (same_files d d refl, users_reply-KeepsMail l n (db_get_connected_users r n d))
