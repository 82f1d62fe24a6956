-- ===== src/Handlers/Connect/Tables.antt =====
-- funciones.c: f_connect and usuarios.txt.
use messaging_service.Prelude.{refl, ℕ, ◌<◌, ◌==◌, List, [], ◌∷◌, some, Bytes}
use messaging_service.Text.Scan.{word_mod}
use messaging_service.Text.Scan.Laws.{IsWord}
use messaging_service.Disk.{PendingMsg}
use messaging_service.Database.Accounts.{db_connect}
use messaging_service.Database.Mail.{db_get_pending_messages}
use messaging_service.Database.Accounts.Sessions.{db_connect-Refines}
use messaging_service.Directory.Commands.{
  Command, connects, disconnects, perform, no_command, one_command,
}
use messaging_service.Program.Tables.{KeepsTable, if-KeepsTable, bind-KeepsTable}
use messaging_service.Handlers.Delivery.{deliver}
use messaging_service.Handlers.Delivery.Tables.{drop_user-KeepsTable, deliver-KeepsTable}
use messaging_service.Handlers.Connect.{
  attachment, deliver_round, deliver_loop, connected, f_connect,
}

module _ (P : Command → Type 0) (drops : (n : Bytes) → P (disconnects n)) where
  deliver_loop-KeepsTable :
      (n ip : Bytes) (port : ℕ) (ms : List PendingMsg) → KeepsTable P (deliver_loop n ip port ms)
  unfolding deliver_loop deliver_round KeepsTable
  deliver_loop-KeepsTable n ip port [] = tt
  deliver_loop-KeepsTable n ip port (m ∷ ms) = λ b.
      if-KeepsTable P b _ _
        (bind-KeepsTable P (deliver ip port n m.sender m.id m.message (attachment m)) _
          (deliver-KeepsTable P drops ip port n m.sender m.id m.message (attachment m))
          (λ u. deliver_loop-KeepsTable n ip port ms))
        (drop_user-KeepsTable P drops n)

  connected-KeepsTable : (n ip : Bytes) (port res : ℕ) → KeepsTable P (connected n ip port res)
  unfolding connected KeepsTable
  connected-KeepsTable n ip port res =
      if-KeepsTable P (res == 0) _ _
        (λ r d a t. (
          no_command d d t.table refl t.represents,
          deliver_loop-KeepsTable n ip port (db_get_pending_messages r n d),
        ))
        tt

  pub f_connect-KeepsTable :
      (n ip : Bytes) (port : ℕ)
      → IsWord 19 ip
      → port < word_mod
      → P (connects n ip port)
      → KeepsTable P (f_connect (some ip) n port)
  unfolding f_connect KeepsTable perform
  f_connect-KeepsTable n ip port w p h = λ r d a t.
      let f = db_connect-Refines r n ip port d t.table a w p t.represents in
      (
        one_command (connects n ip port) t.table f.table _ h f.represents f.view,
        connected-KeepsTable n ip port (db_connect r n ip port d).0,
      )
