-- ===== src/Handlers/Connect/Mail.antt =====
-- funciones.c: f_connect and the message files.
use messaging_service.Prelude.{ℕ, refl, ◌==◌, List, [], ◌∷◌, Option, none, some, Bytes}
use messaging_service.Disk.{PendingMsg}
use messaging_service.Database.Accounts.{db_connect}
use messaging_service.Database.Accounts.Frame.{db_connect-messages}
use messaging_service.Database.Mail.{db_get_pending_messages}
use messaging_service.Database.Mail.Commands.{MailCommand, deletes}
use messaging_service.Program.Mail.{Log, KeepsMail, bind-KeepsMail, if-KeepsMail, same_files}
use messaging_service.Handlers.Delivery.{deliver}
use messaging_service.Handlers.Delivery.Mail.{Handed, drop_user-KeepsMail, deliver-KeepsMail}
use messaging_service.Handlers.Connect.{
  attachment, deliver_round, deliver_loop, connected, f_connect,
}

module _ (P : Log → MailCommand → Type 0) (n : Bytes)
    (hands : (l : Log) (i : ℕ) → Handed l i → P l (deletes n i)) where
  deliver_loop-KeepsMail :
      (l : Log) (ip : Bytes) (port : ℕ) (ms : List PendingMsg)
      → KeepsMail P l (deliver_loop n ip port ms)
  unfolding deliver_loop deliver_round KeepsMail
  deliver_loop-KeepsMail l ip port [] = tt
  deliver_loop-KeepsMail l ip port (m ∷ ms) = λ b.
      if-KeepsMail P l b _ _
        (bind-KeepsMail P l (deliver ip port n m.sender m.id m.message (attachment m)) _
          (deliver-KeepsMail P n hands l ip port m.sender m.id m.message (attachment m))
          (λ l u. deliver_loop-KeepsMail l ip port ms))
        (drop_user-KeepsMail P l n)

  connected-KeepsMail :
      (l : Log) (ip : Bytes) (port res : ℕ) → KeepsMail P l (connected n ip port res)
  unfolding connected KeepsMail
  connected-KeepsMail l ip port res =
      if-KeepsMail P l (res == 0) _ _
        (λ r d a.
          (same_files d d refl, deliver_loop-KeepsMail _ ip port (db_get_pending_messages r n d)))
        tt

  pub f_connect-KeepsMail :
      (l : Log) (peer : Option Bytes) (port : ℕ) → KeepsMail P l (f_connect peer n port)
  unfolding f_connect KeepsMail
  f_connect-KeepsMail l none port = tt
  f_connect-KeepsMail l (some ip) port = λ r d a. (
    same_files d (db_connect r n ip port d).1 (db_connect-messages r n ip port d),
    connected-KeepsMail _ ip port (db_connect r n ip port d).0,
  )
