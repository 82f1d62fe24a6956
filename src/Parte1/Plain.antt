-- ===== src/Parte1/Plain.antt =====
-- Programs of parte2 seen without the log and the attachments.
use messaging_service.Prelude.{
  ℕ, ◌≡◌, refl, ap, fun_ext, Bool, true, false, Option, none, some, List, [], ◌∷◌, Bytes,
  if◌then◌else◌, codes, take,
}
use messaging_service.Text.Chars.{streq}
use messaging_service.Disk.{Disk, Refusals}
use messaging_service.Program.{reply, push, rpc, console, Prog, ret, emit, atomic, reach, ◌>>=◌}
use messaging_service.Handlers.Delivery.{message_strings}

-- What parte1 sends to a listener where parte2 sends these strings: no file name, and its own spelling
-- of the acknowledgement.
unfoldable pub without_file : List Bytes → List Bytes
without_file [] = []
without_file (op ∷ fields) =
    if streq op (codes "SEND_MESS_ACK")
    then codes "SEND MESS_ACK" ∷ fields
    else if streq op (codes "SEND_MESS_ATTACH_ACK")
    then codes "SEND MESS_ACK" ∷ take 1 fields
    else if streq op (codes "SEND_MESSAGE_ATTACH")
    then codes "SEND_MESSAGE" ∷ take 3 fields
    else op ∷ fields

-- A program of parte2 without the log and the attachments.
unfoldable pub plain : {A : Type 0} → Prog A → Prog A
unfolding without_file
plain (ret a) = ret a
plain (emit (reply s) p) = emit (reply s) (plain p)
plain (emit (push ip port strings) p) = emit (push ip port (without_file strings)) (plain p)
plain (emit (rpc user operation file) p) = plain p
plain (emit (console line) p) = emit (console line) (plain p)
plain (atomic act k) = atomic act (λ r d. plain (k r d))
plain (reach ip port k) = reach ip port (λ b. plain (k b))

plain-if :
    {A : Type 0} (b : Bool) (p q : Prog A)
    → plain (if b then p else q) ≡ (if b then plain p else plain q)
plain-if true p q = refl
plain-if false p q = refl

-- Two programs that begin with the same step.
pub atomic-ext :
    {A : Type 0} (act : Refusals → Disk → Disk) (k l : Refusals → Disk → Prog A)
    → ((r : Refusals) (d : Disk) → k r d ≡ l r d)
    → atomic act k ≡ atomic act l
atomic-ext act k l h = ap (atomic act) (fun_ext (λ r. fun_ext (λ d. h r d)))

pub reach-ext :
    {A : Type 0} (ip : Bytes) (port : ℕ) (k l : Bool → Prog A)
    → ((b : Bool) → k b ≡ l b)
    → reach ip port k ≡ reach ip port l
reach-ext ip port k l h = ap (reach ip port) (fun_ext h)

pub plain-bind :
    {A B : Type 0} (p : Prog A) (f : A → Prog B) → plain (p >>= f) ≡ (plain p >>= λ a. plain (f a))
unfolding plain
plain-bind (ret a) f = refl
plain-bind (emit (reply s) p) f = ap (emit (reply s)) (plain-bind p f)
plain-bind (emit (push ip port strings) p) f =
    ap (emit (push ip port (without_file strings))) (plain-bind p f)
plain-bind (emit (rpc user operation file) p) f = plain-bind p f
plain-bind (emit (console line) p) f = ap (emit (console line)) (plain-bind p f)
plain-bind (atomic act k) f = atomic-ext act _ _ (λ r d. plain-bind (k r d) f)
plain-bind (reach ip port k) f = reach-ext ip port _ _ (λ b. plain-bind (k b) f)

pub message_strings-plain :
    (s i m : Bytes) (f : Option Bytes)
    → without_file (message_strings s i m f) ≡ codes "SEND_MESSAGE" ∷ s ∷ i ∷ m ∷ []
unfolding without_file message_strings streq
message_strings-plain s i m none = refl
message_strings-plain s i m (some f) = refl
