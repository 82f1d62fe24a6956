-- ===== src/Database/Mail/Commands.antt =====
-- What the functions of database.c do to the message files, as commands.
use mathlib.Core.List.{Memᴰ}
use mathlib.Core.List.Memᴰ
use messaging_service.Prelude.{
  ℕ, ◌≡◌, refl, ap, ◌∙◌, ◌⊎◌, inl, inr, List, [], ◌∷◌, ◌++◌, Bytes, if◌then◌else◌, ◌==◌, arith,
  Bool-cases,
}
use messaging_service.Text.Chars.{streq, streq_iff}
use messaging_service.Disk.{Disk, PendingMsg}
use messaging_service.Database.Mail.Laws.{mailbox, other_ids}

pub data MailCommand : Type 0 where
  stores : Bytes → PendingMsg → MailCommand
  deletes : Bytes → ℕ → MailCommand
  removes : Bytes → MailCommand

-- What is in the file of `j` behind a command on the files.
unfoldable pub command : MailCommand → (Bytes → List PendingMsg) → Bytes → List PendingMsg
command (stores n m) box j = if streq n j then box j ++ m ∷ [] else box j
command (deletes n i) box j = if streq n j then other_ids i (box j) else box j
command (removes n) box j = if streq n j then [] else box j

-- Behind an operation the files are as before, or a command of a kind has been done to them.
abbrev pub Changes : (MailCommand → Type 0) → Disk → Disk → Type 0
Changes Q d e =
    ((j : Bytes) → mailbox e j ≡ mailbox d j)
    ⊎ ((c : MailCommand) × Q c × ((j : Bytes) → mailbox e j ≡ command c (mailbox d) j))

pub other_ids-Memᴰ :
    (i : ℕ) (m : PendingMsg) (ms : List PendingMsg)
    → Memᴰ m ms
    → Memᴰ m (other_ids i ms) ⊎ (m.id ≡ i)
unfolding other_ids
other_ids-Memᴰ i m [] h = inl h
other_ids-Memᴰ i m (k ∷ ms) (Memᴰ.head e) = elim (Bool-cases (k.id == i)) [
  | inl h ↦ inr (ap (λ x. x.id) e ∙ (ground arith))
  | inr h ↦ inl (rw h (Memᴰ.head e))
]
other_ids-Memᴰ i m (k ∷ ms) (Memᴰ.tail h) = elim (Bool-cases (k.id == i)) [
  | inl e ↦ rw e (other_ids-Memᴰ i m ms h)
  | inr e ↦ rw e (elim (other_ids-Memᴰ i m ms h) [ inl x ↦ inl (Memᴰ.tail x) | inr x ↦ inr x ])
]

pub Memᴰ-other_ids :
    (i : ℕ) (m : PendingMsg) (ms : List PendingMsg) → Memᴰ m (other_ids i ms) → Memᴰ m ms
unfolding other_ids
Memᴰ-other_ids i m [] h = h
Memᴰ-other_ids i m (k ∷ ms) h = elim (Bool-cases (k.id == i)) [
  | inl e ↦ Memᴰ.tail (Memᴰ-other_ids i m ms (rw e at h))
  | inr e ↦ elim (Memᴰ.cases_cons (rw e at h)) [
    | inl x ↦ Memᴰ.head x
    | inr x ↦ Memᴰ.tail (Memᴰ-other_ids i m ms x)
  ]
]

-- A message stays in its file, or a deletion by its id has been done to the file, or the file removed.
pub command-keeps :
    (c : MailCommand) (box : Bytes → List PendingMsg) (j : Bytes) (m : PendingMsg)
    → Memᴰ m (box j)
    → Memᴰ m (command c box j) ⊎ ((c ≡ deletes j m.id) ⊎ (c ≡ removes j))
unfolding command
command-keeps (stores n k) box j m h = elim (Bool-cases (streq n j)) [
  | inl e ↦ inl (rw e (Memᴰ.append_left (k ∷ []) h))
  | inr e ↦ inl (rw e h)
]
command-keeps (deletes n i) box j m h = elim (Bool-cases (streq n j)) [
  | inl e ↦ elim (other_ids-Memᴰ i m (box j) h) [
    | inl x ↦ inl (rw e x)
    | inr x ↦ inr (inl (rw ((streq_iff n j).0 e) (rw x refl)))
  ]
  | inr e ↦ inl (rw e h)
]
command-keeps (removes n) box j m h = elim (Bool-cases (streq n j)) [
  | inl e ↦ inr (inr (ap removes ((streq_iff n j).0 e)))
  | inr e ↦ inl (rw e h)
]

-- A message in a file has been there before, or a command has stored it.
pub command-origin :
    (c : MailCommand) (box : Bytes → List PendingMsg) (j : Bytes) (m : PendingMsg)
    → Memᴰ m (command c box j)
    → Memᴰ m (box j) ⊎ (c ≡ stores j m)
unfolding command
command-origin (stores n k) box j m h = elim (Bool-cases (streq n j)) [
  | inl e ↦ elim (Memᴰ.append_cases (box j) (rw e at h)) [
    | inl x ↦ inl x
    | inr x ↦ inr (rw ((streq_iff n j).0 e) (rw (Memᴰ.eq_of_singleton x) refl))
  ]
  | inr e ↦ inl (rw e at h)
]
command-origin (deletes n i) box j m h = elim (Bool-cases (streq n j)) [
  | inl e ↦ inl (Memᴰ-other_ids i m (box j) (rw e at h))
  | inr e ↦ inl (rw e at h)
]
command-origin (removes n) box j m h = elim (Bool-cases (streq n j)) [
  | inl e ↦ absurd (Memᴰ.not-nil (rw e at h))
  | inr e ↦ inl (rw e at h)
]
