-- ===== src/Handlers/Connect/Sent.antt =====
-- The messages among what goes to listeners, and the strings of a pending message.
use messaging_service.Prelude.{
  ℕ, ◌≡◌, refl, ap, Bool, true, false, Option, none, some, inl, inr, List, [], ◌∷◌, ◌++◌, Bytes,
  if◌then◌else◌, ◌||◌, codes, Bool-cases,
}
use messaging_service.Text.Chars.{streq}
use messaging_service.Text.Decimal.{print_unsigned}
use messaging_service.Disk.{PendingMsg}
use messaging_service.Program.{Event, reply, push, rpc, console, replies, pushes}
use messaging_service.Handlers.Delivery.{port_of, message_strings, ack_strings}
use messaging_service.Handlers.Connect.{attachment}

abbrev pub Sent : Type 0
Sent = Bytes × ℕ × List Bytes

-- Whether strings that go to a listener carry a message, and no acknowledgement.
unfoldable pub is_message : Sent → Bool
is_message (ip, port, []) = false
is_message (ip, port, op ∷ strings) =
    streq op (codes "SEND_MESSAGE") || streq op (codes "SEND_MESSAGE_ATTACH")

unfoldable pub messages_of : List Sent → List Sent
unfolding is_message
messages_of [] = []
messages_of (s ∷ sent) = if is_message s then s ∷ messages_of sent else messages_of sent

pub messages_of-append : (s r : List Sent) → messages_of (s ++ r) ≡ messages_of s ++ messages_of r
unfolding messages_of
messages_of-append [] r = refl
messages_of-append (x ∷ s) r = elim (Bool-cases (is_message x)) [
  | inl e ↦ rw e (ap (λ l. x ∷ l) (messages_of-append s r))
  | inr e ↦ rw e (messages_of-append s r)
]

pub pushes-append : (s r : List Event) → pushes (s ++ r) ≡ pushes s ++ pushes r
unfolding pushes
pushes-append [] r = refl
pushes-append (reply x ∷ s) r = pushes-append s r
pushes-append (push ip port strings ∷ s) r = ap (λ l. (ip, port, strings) ∷ l) (pushes-append s r)
pushes-append (rpc user operation file ∷ s) r = pushes-append s r
pushes-append (console line ∷ s) r = pushes-append s r

pub replies-append : (s r : List Event) → replies (s ++ r) ≡ replies s ++ replies r
unfolding replies
replies-append [] r = refl
replies-append (reply x ∷ s) r = ap (λ l. x ∷ l) (replies-append s r)
replies-append (push ip port strings ∷ s) r = replies-append s r
replies-append (rpc user operation file ∷ s) r = replies-append s r
replies-append (console line ∷ s) r = replies-append s r

-- The strings of a pending message, for a listener at an address and a port.
unfoldable pub parcel : Bytes → ℕ → PendingMsg → Sent
parcel ip port m =
    (ip, port_of port, message_strings m.sender (print_unsigned m.id) m.message (attachment m))

pub is_message-message_strings :
    (ip : Bytes) (port : ℕ) (s i m : Bytes) (f : Option Bytes)
    → is_message (ip, port, message_strings s i m f) ≡ true
unfolding is_message message_strings streq
is_message-message_strings ip port s i m none = refl
is_message-message_strings ip port s i m (some f) = refl

pub is_message-ack_strings :
    (ip : Bytes) (port : ℕ) (i : Bytes) (f : Option Bytes)
    → is_message (ip, port, ack_strings i f) ≡ false
unfolding is_message ack_strings streq
is_message-ack_strings ip port i none = refl
is_message-ack_strings ip port i (some f) = refl
