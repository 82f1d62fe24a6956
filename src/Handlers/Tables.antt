-- ===== src/Handlers/Tables.antt =====
-- funciones.c: the handlers of the accounts and of USERS, and what they do to usuarios.txt.
use messaging_service.Prelude.{refl, Option, none, some, List, [], ◌∷◌, ◌==◌, not, Bytes}
use messaging_service.Text.Chars.{streq}
use messaging_service.Text.Scan.Laws.{IsWord}
use messaging_service.Database.Accounts.Refinement.{db_register-Refines, db_unregister-Refines}
use messaging_service.Database.Accounts.Sessions.{db_disconnect-Refines}
use messaging_service.Database.Online.{db_get_connected_users, Listing, UserInfo}
use messaging_service.Disk.{Disk, Refusals}
use messaging_service.Directory.{UsersAllowed}
use messaging_service.Database.Accounts.{db_disconnect}
use messaging_service.Directory.Commands.{
  Command, registers, unregisters, disconnects, perform, Evolves, no_command, one_command,
}
use messaging_service.Program.Tables.{HoldsTable, KeepsTable, if-KeepsTable, bind-KeepsTable}
use messaging_service.Handlers.{
  f_register, f_unregister, refuse_disconnect, disconnect_from, f_disconnect, reply_strings,
  users_reply, f_users,
}

module _ (P : Command → Type 0) where
  pub f_register-KeepsTable :
      (n : Bytes) → IsWord 255 n → P (registers n) → KeepsTable P (f_register n)
  unfolding f_register KeepsTable perform
  f_register-KeepsTable n w h = λ r d a t.
      let f = db_register-Refines r n d t.table a w t.represents in
      (one_command (registers n) t.table f.table _ h f.represents f.view, tt)

  pub f_unregister-KeepsTable : (n : Bytes) → P (unregisters n) → KeepsTable P (f_unregister n)
  unfolding f_unregister KeepsTable perform
  f_unregister-KeepsTable n h = λ r d a t.
      let f = db_unregister-Refines r n d t.table a t.represents in
      (one_command (unregisters n) t.table f.table _ h f.represents f.view, tt)

  pub db_disconnect-Evolves :
      (n : Bytes) (r : Refusals) (d : Disk)
      → P (disconnects n)
      → UsersAllowed r
      → (t : HoldsTable d) → Evolves P t.table (db_disconnect r n d).1
  unfolding perform
  db_disconnect-Evolves n r d h a t =
      let f = db_disconnect-Refines r n d t.table a t.represents in
      one_command (disconnects n) t.table f.table _ h f.represents f.view

  disconnect_from-KeepsTable :
      (n ip : Bytes) (u : Option UserInfo)
      → P (disconnects n)
      → KeepsTable P (disconnect_from n ip u)
  unfolding disconnect_from refuse_disconnect KeepsTable
  disconnect_from-KeepsTable n ip none h = tt
  disconnect_from-KeepsTable n ip (some u) h =
      if-KeepsTable P (not (streq ip u.ip)) _ _ (unfold KeepsTable in tt)
        (unfold KeepsTable in λ r d a t. (db_disconnect-Evolves n r d h a t, tt))

  pub f_disconnect-KeepsTable :
      (peer : Option Bytes) (n : Bytes) → P (disconnects n) → KeepsTable P (f_disconnect peer n)
  unfolding f_disconnect refuse_disconnect KeepsTable
  f_disconnect-KeepsTable none n h = tt
  f_disconnect-KeepsTable (some ip) n h =
      λ r d a t. (no_command d d t.table refl t.represents, disconnect_from-KeepsTable n ip _ h)

  reply_strings-KeepsTable : (list : List Bytes) → KeepsTable P (reply_strings list)
  unfolding reply_strings KeepsTable
  reply_strings-KeepsTable [] = tt
  reply_strings-KeepsTable (s ∷ list) = reply_strings-KeepsTable list

  users_reply-KeepsTable : (n : Bytes) (res : Listing) → KeepsTable P (users_reply n res)
  unfolding users_reply KeepsTable
  users_reply-KeepsTable n res =
      if-KeepsTable P (res.code == 0) _ _
        (bind-KeepsTable P (reply_strings res.users_list) _
          (reply_strings-KeepsTable res.users_list) (λ u. tt))
        tt

  pub f_users-KeepsTable : (n : Bytes) → KeepsTable P (f_users n)
  unfolding f_users KeepsTable
  f_users-KeepsTable n = λ r d a t. (
    no_command d d t.table refl t.represents,
    users_reply-KeepsTable n (db_get_connected_users r n d),
  )
