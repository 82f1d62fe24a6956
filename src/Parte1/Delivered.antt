-- ===== src/Parte1/Delivered.antt =====
-- The delivery of one message and its acknowledgement, in parte1 and in parte2.
use messaging_service.Prelude.{
  ℕ, Bool-cases, inl, inr, ◌≡◌, refl, ap, Bool, true, false, Option, none, some, [], ◌∷◌, Bytes,
  if◌then◌else◌, ◌==◌, codes,
}
use messaging_service.Text.Chars.{streq}
use messaging_service.Text.Decimal.{print_unsigned}
use messaging_service.Database.Mail.{db_delete_message}
use messaging_service.Database.Online.{UserInfo, get_user_info}
use messaging_service.Program.{push, console, ret, emit}
use messaging_service.Handlers.Delivery.{port_of, drop_user, acknowledge, ack_to, message_strings}
use messaging_service.Handlers.Delivery
use messaging_service.Parte1.Handlers.{deliver, ack_strings}
use messaging_service.Parte1.Plain.{
  plain, without_file, atomic-ext, reach-ext, message_strings-plain,
}

ack_strings-plain :
    (i : Bytes) (f : Option Bytes) → without_file (Delivery.ack_strings i f) ≡ ack_strings i
unfolding without_file Delivery.ack_strings streq
ack_strings-plain i none = refl
ack_strings-plain i (some f) = refl

pub drop_user-plain : (n : Bytes) → plain (drop_user n) ≡ drop_user n
unfolding plain
drop_user-plain n = refl

ack_to-plain :
    (s i : Bytes) (f : Option Bytes) (u : Option UserInfo)
    → ack_to s (ack_strings i) u ≡ plain (ack_to s (Delivery.ack_strings i f) u)
unfolding ack_to plain
ack_to-plain s i f none = refl
ack_to-plain s i f (some u) = elim (Bool-cases (u.connected == 1)) [
  | inl e ↦ rw e (reach-ext u.ip (port_of u.port) _ _ (branch u))
  | inr e ↦ rw e refl
]
  where
    branch :
        (u : UserInfo) (b : Bool)
        → (if b then emit (push u.ip (port_of u.port) (ack_strings i)) (ret tt) else drop_user s)
          ≡ plain (
              if b
              then emit (push u.ip (port_of u.port) (Delivery.ack_strings i f)) (ret tt)
              else drop_user s)
    branch u true = rw (ack_strings-plain i f) refl
    branch u false = refl

pub deliver-plain :
    (ip : Bytes) (port : ℕ) (b a : Bytes) (i : ℕ) (m : Bytes) (f : Option Bytes)
    → deliver ip port b a i m ≡ plain (Delivery.deliver ip port b a i m f)
unfolding deliver Delivery.deliver acknowledge Delivery.sent_line plain
deliver-plain ip port b a i m f = rw (message_strings-plain a (print_unsigned i) m f) (
    ap
      (λ p.
        emit (push ip (port_of port) (codes "SEND_MESSAGE" ∷ a ∷ print_unsigned i ∷ m ∷ []))
          (emit (console (Delivery.sent_line (print_unsigned i) a b)) p))
      (atomic-ext (λ r d. (db_delete_message r b i d).1) _ _
        (λ r d.
          atomic-ext (λ r d. d) _ _
            (λ r' d'. ack_to-plain a (print_unsigned i) f (get_user_info r' a d')))))
