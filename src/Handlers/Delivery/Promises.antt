-- ===== src/Handlers/Delivery/Promises.antt =====
-- funciones.c: f_send and f_sendattach: the id that the client is told, and the message that is stored.
use mathlib.Core.List.{Memᴰ}
use mathlib.Core.List.Memᴰ
use messaging_service.Prelude.{
  ℕ, ◌≡◌, refl, ap, sym, subst, ◌∙◌, ◌++◌, [], ◌∷◌, Option, none, some, List, ◌==◌, not, Bytes,
}
use messaging_service.Text.Chars.{streq_refl}
use messaging_service.Text.Decimal.{print_unsigned}
use messaging_service.Text.Decimal.Ended.{ended_injective, ended_longer}
use messaging_service.Disk.{Disk, Refusals, PendingMsg}
use messaging_service.Database.Prepare.{Prepared, db_prepare_message}
use messaging_service.Database.Mail.{pending_msg, db_store_message}
use messaging_service.Database.Mail.Laws.{mailbox, db_store_message_appends}
use messaging_service.Database.Online.{UserInfo, get_user_info}
use messaging_service.Program.Mail.{AllMail}
use messaging_service.Program.Promises.{KeepsWord, WillStore, if-KeepsWord}
use messaging_service.Handlers.Delivery.{
  drop_user, ack_to, acknowledge, deliver, stored, forward, send_reply, f_send, sendattach_reply,
  f_sendattach,
}

module _ (Q : Bytes → PendingMsg → Type 0) where
  drop_user-KeepsWord : (n : Bytes) → KeepsWord Q (drop_user n)
  unfolding KeepsWord
  drop_user-KeepsWord n = λ r d a. tt

  ack_to-KeepsWord : (n : Bytes) (s : List Bytes) (u : Option UserInfo) → KeepsWord Q (ack_to n s u)
  unfolding ack_to KeepsWord
  ack_to-KeepsWord n s none = tt
  ack_to-KeepsWord n s (some u) =
      if-KeepsWord Q (u.connected == 1) _ _ (λ b. if-KeepsWord Q b _ _ tt (drop_user-KeepsWord n))
        tt

  deliver-KeepsWord :
      (ip : Bytes) (port : ℕ) (b a : Bytes) (i : ℕ) (m : Bytes) (f : Option Bytes)
      → KeepsWord Q (deliver ip port b a i m f)
  unfolding deliver acknowledge KeepsWord
  deliver-KeepsWord ip port b a i m f =
      λ r d w r' d' w'. ack_to-KeepsWord a _ (get_user_info r' a d')

  forward-KeepsWord :
      (a b m : Bytes) (f : Option Bytes) (p : Prepared) → KeepsWord Q (forward a b m f p)
  unfolding forward stored KeepsWord
  forward-KeepsWord a b m f p =
      if-KeepsWord Q (p.recv_connected == 1) _ _
        (λ x.
          if-KeepsWord Q x _ _ (deliver-KeepsWord p.recv_ip p.recv_port b a p.msg_id m f)
            (drop_user-KeepsWord b))
        tt

-- The message that is stored is in the file.
db_store_message-Memᴰ :
    (r : Refusals) (b a : Bytes) (i : ℕ) (m : Bytes) (f : Option Bytes) (d : Disk)
    → AllMail r
    → Memᴰ (pending_msg a i m f) (mailbox (db_store_message r b a i m f d).1 b)
db_store_message-Memᴰ r b a i m f d w =
    subst (Memᴰ (pending_msg a i m f))
      (sym ((db_store_message_appends r b a i m f d b (w b).add).0 ∙ rw (streq_refl b) refl))
      (Memᴰ.append_right (mailbox d b) (Memᴰ.head {xs = []} refl))

-- The message of the request is `m`, to `b`.
module _ (Q : Bytes → PendingMsg → Type 0) (a b text : Bytes) (f : Option Bytes)
    (only : (b' : Bytes) (m : PendingMsg)
      → Q b' m
      → (b' ≡ b) × (m ≡ pending_msg a m.id text f)) where
  owed :
      (r : Refusals) (d : Disk) (i : ℕ) (b' : Bytes) (m : PendingMsg)
      → AllMail r
      → print_unsigned i ++ 0 ∷ [] ≡ print_unsigned m.id ++ 0 ∷ []
      → Q b' m
      → Memᴰ m (mailbox (db_store_message r b a i text f d).1 b')
  owed r d i b' m w e q =
      let same = only b' m q in
      subst (λ n. Memᴰ m (mailbox (db_store_message r b a i text f d).1 n)) (sym same.0)
        (Memᴰ.cast (same.1 ∙ ap (λ k. pending_msg a k text f) (sym (ended_injective i m.id e)))
          (db_store_message-Memᴰ r b a i text f d w))

module _ (Q : Bytes → PendingMsg → Type 0) (unset : Prepared) (a b text : Bytes) where
  pub f_send-KeepsWord :
      ((b' : Bytes) (m : PendingMsg) → Q b' m → (b' ≡ b) × (m ≡ pending_msg a m.id text none))
      → KeepsWord Q (f_send unset a b text)
  unfolding f_send send_reply KeepsWord WillStore
  f_send-KeepsWord only = λ r d w.
      let x = db_prepare_message r a b unset d in
      (
        λ b' m e q. absurd (ended_longer x.0 m.id e),
        if-KeepsWord Q (not (x.0 == 0)) _ _ tt (
          λ b' m e q r' d' w'. owed Q a b text none only r' d' x.1.msg_id b' m w' e q,
          λ r' d' w'. forward-KeepsWord Q a b text none x.1,
        ),
      )

  pub f_sendattach-KeepsWord :
      (f : Bytes)
      → ((b' : Bytes) (m : PendingMsg) → Q b' m → (b' ≡ b) × (m ≡ pending_msg a m.id text (some f)))
      → KeepsWord Q (f_sendattach unset a b text f)
  unfolding f_sendattach sendattach_reply KeepsWord WillStore
  f_sendattach-KeepsWord f only = λ r d w.
      let x = db_prepare_message r a b unset d in
      (
        λ b' m e q. absurd (ended_longer x.0 m.id e),
        if-KeepsWord Q (not (x.0 == 0)) _ _ tt (
          λ b' m e q r' d' w'. owed Q a b text (some f) only r' d' x.1.msg_id b' m w' e q,
          λ r' d' w'. forward-KeepsWord Q a b text (some f) x.1,
        ),
      )
