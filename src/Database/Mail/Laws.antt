-- ===== src/Database/Mail/Laws.antt =====
-- database.c: the message file of a user as a queue of the pending messages.
use messaging_service.Prelude.{
  ℕ, zero, suc, ◌≤◌, ◌≡◌, refl, ap, sym, subst, ◌∙◌, false, Option, none, some, inl, inr, List, [],
  ◌∷◌, ◌++◌, Bytes, if◌then◌else◌, ◌==◌, All, arith, Bool-cases, Option-cases, length, append-nil,
  append_assoc,
}
use messaging_service.Text.Chars.{streq, streq_iff, streq_refl}
use messaging_service.Disk.{
  Disk, PendingMsg, Refusals, mensajes, temp_mensajes, read_only, append, truncate, set_file,
  open_messages, rename_messages, or_empty,
}
use messaging_service.Database.Mail.{
  strncpy, pending_msg, db_store_message, delete_loop, delete_end, db_delete_message,
}

-- No file of the user's messages is refused.
pub record MailAllowed (refuses : Refusals) (n : Bytes) : Type 0 where
  pub read : refuses (mensajes n) read_only ≡ false
  pub add : refuses (mensajes n) append ≡ false
  pub temp : refuses (temp_mensajes n) truncate ≡ false

-- A string that fits the field is kept whole.
pub strncpy_whole : (n : ℕ) (s : Bytes) → length s ≤ n → strncpy n s ≡ s
unfolding strncpy
strncpy_whole zero [] h = refl
strncpy_whole zero (c ∷ s) h = absurd (omega arith)
strncpy_whole (suc n) [] h = refl
strncpy_whole (suc n) (c ∷ s) h = ap (λ r. c ∷ r) (strncpy_whole n s (omega arith))

-- The messages of another id, in their order.
unfoldable pub other_ids : ℕ → List PendingMsg → List PendingMsg
other_ids i [] = []
other_ids i (m ∷ ms) = if m.id == i then other_ids i ms else m ∷ other_ids i ms

pub delete_loop-other_ids :
    (i : ℕ) (ms out : List PendingMsg) → delete_loop i ms out ≡ out ++ other_ids i ms
unfolding delete_loop other_ids
delete_loop-other_ids i [] out = sym (append-nil out)
delete_loop-other_ids i (m ∷ ms) out = elim (Bool-cases (m.id == i)) [
  | inl e ↦ rw e (delete_loop-other_ids i ms out)
  | inr e ↦
      rw e (delete_loop-other_ids i ms (out ++ m ∷ []) ∙ append_assoc out (m ∷ []) (other_ids i ms))
]

pub other_ids-append :
    (i : ℕ) (ms ks : List PendingMsg) → other_ids i (ms ++ ks) ≡ other_ids i ms ++ other_ids i ks
unfolding other_ids
other_ids-append i [] ks = refl
other_ids-append i (m ∷ ms) ks = elim (Bool-cases (m.id == i)) [
  | inl e ↦ rw e (other_ids-append i ms ks)
  | inr e ↦ rw e (ap (λ l. m ∷ l) (other_ids-append i ms ks))
]

-- No message has the id.
abbrev pub Unused : ℕ → List PendingMsg → Type 0
Unused i = All (λ m. m.id == i ≡ false)

pub other_ids-Unused : (i : ℕ) (ms : List PendingMsg) → Unused i ms → other_ids i ms ≡ ms
unfolding other_ids
other_ids-Unused i [] h = refl
other_ids-Unused i (m ∷ ms) h = rw h.0 (ap (λ l. m ∷ l) (other_ids-Unused i ms h.1))

-- What the receiver's client finds in the file of a user.
abbrev pub mailbox : Disk → Bytes → List PendingMsg
mailbox d n = or_empty (d.messages n)

-- A stored message is last in the receiver's file; the files of all others, and the users, are as before.
pub db_store_message_appends :
    (refuses : Refusals) (receiver sender : Bytes) (i : ℕ) (text : Bytes) (file : Option Bytes)
    (d : Disk) (j : Bytes)
    → refuses (mensajes receiver) append ≡ false
    → (mailbox (db_store_message refuses receiver sender i text file d).1 j ≡ (
        if streq receiver j
        then mailbox d j ++ pending_msg sender i text file ∷ []
        else mailbox d j))
      × ((db_store_message refuses receiver sender i text file d).1.users ≡ d.users)
unfolding db_store_message set_file
db_store_message_appends refuses receiver sender i text file d j h =
    (ground (arith, streq_iff receiver j), rw (h, db_store_message) refl)

set_file_self :
    (n : Bytes) (v : Option (List PendingMsg)) (files : Bytes → Option (List PendingMsg))
    → set_file n v files n ≡ v
unfolding set_file
set_file_self n v files = rw streq_refl

pub open_messages-allowed :
    (refuses : Refusals) (n : Bytes) (d : Disk)
    → MailAllowed refuses n
    → open_messages refuses n d ≡ d.messages n
unfolding open_messages
open_messages-allowed refuses n d a = rw a.read

-- The disk after a deletion from a file that is there.
delete_message_disk :
    (refuses : Refusals) (n : Bytes) (i : ℕ) (d : Disk) (ms : List PendingMsg)
    → MailAllowed refuses n
    → d.messages n ≡ some ms
    → (db_delete_message refuses n i d).1 ≡ record d {
      messages = set_file n (some (other_ids i ms)) (set_file n none d.messages);
      temp_messages = set_file n none (set_file n (some (other_ids i ms)) d.temp_messages);
    }
unfolding db_delete_message
delete_message_disk refuses n i d ms a e =
    rw (open_messages-allowed refuses n d a ∙ e, db_delete_message)
      (rw (a.temp, delete_end)
        (rw (delete_loop-other_ids i ms [], delete_end)
          (rw (set_file_self n (some (other_ids i ms)) d.temp_messages, rename_messages))))

delete_message_missing :
    (refuses : Refusals) (n : Bytes) (i : ℕ) (d : Disk)
    → MailAllowed refuses n
    → d.messages n ≡ none
    → (db_delete_message refuses n i d).1 ≡ d
unfolding db_delete_message
delete_message_missing refuses n i d a e =
    rw (open_messages-allowed refuses n d a ∙ e, db_delete_message)

mailbox-none : (d : Disk) (n : Bytes) → d.messages n ≡ none → mailbox d n ≡ []
mailbox-none d n e = rw e

-- Where the user's message files are not refused, db_delete_message takes every message of that id,
-- from whatever sender, out of the user's file and keeps the order of the rest; the message files of
-- all others, and usuarios.txt, are as before.
pub db_delete_message_keeps :
    (refuses : Refusals) (n : Bytes) (i : ℕ) (d : Disk) (j : Bytes)
    → MailAllowed refuses n
    → (mailbox (db_delete_message refuses n i d).1 j
        ≡ (if streq n j then other_ids i (mailbox d j) else mailbox d j))
      × ((db_delete_message refuses n i d).1.users ≡ d.users)
db_delete_message_keeps refuses n i d j a = elim (Option-cases (d.messages n)) [
  | inl e ↦
      rw (delete_message_missing refuses n i d a e)
        (unfold other_ids in ground (arith, streq_iff n j), refl)
  | inr (ms, e) ↦
      rw (delete_message_disk refuses n i d ms a e)
        (unfold set_file in ground (arith, streq_iff n j), refl)
]

other_ids_one :
    (i : ℕ) (sender text : Bytes) (file : Option Bytes)
    → other_ids i (pending_msg sender i text file ∷ []) ≡ []
unfolding other_ids pending_msg
other_ids_one i sender text file = ground arith

other_ids_stored :
    (i : ℕ) (ms : List PendingMsg) (sender text : Bytes) (file : Option Bytes)
    → Unused i ms
    → other_ids i (ms ++ pending_msg sender i text file ∷ []) ≡ ms
other_ids_stored i ms sender text file h =
    other_ids-append i ms (pending_msg sender i text file ∷ [])
    ∙ ap (λ l. other_ids i ms ++ l) (other_ids_one i sender text file)
    ∙ append-nil (other_ids i ms)
    ∙ other_ids-Unused i ms h

-- Where the receiver's message files are not refused and none of the messages in the file has the id,
-- storing a message and deleting its id leaves every user's messages as they were.
pub delete-store :
    (refuses later : Refusals) (receiver sender : Bytes) (i : ℕ) (text : Bytes)
    (file : Option Bytes) (d : Disk) (j : Bytes)
    → MailAllowed refuses receiver
    → MailAllowed later receiver
    → Unused i (mailbox d receiver)
    → mailbox
        (db_delete_message later receiver i
          (db_store_message refuses receiver sender i text file d).1).1
        j
      ≡ mailbox d j
delete-store refuses later receiver sender i text file d j a k h =
    let stored = db_store_message_appends refuses receiver sender i text file d j a.add in
    let deleted =
      db_delete_message_keeps later receiver i
        (db_store_message refuses receiver sender i text file d).1 j k in
    deleted.0 ∙ elim (Bool-cases (streq receiver j)) [
      | inl e ↦ rw e (
          ap (other_ids i) (stored.0 ∙ rw e)
          ∙ other_ids_stored i (mailbox d j) sender text file
              (subst (λ n. Unused i (mailbox d n)) ((streq_iff receiver j).0 e) h))
      | inr e ↦ rw e (stored.0 ∙ rw e)
    ]
