-- ===== src/Program/Mail.antt =====
-- Programs that change the message files by commands which what they have sent before allows, whatever
-- other threads do between their steps.
use messaging_service.Prelude.{Bool, true, false, if◌then◌else◌, ◌≡◌, inl, ap, List, ◌∷◌, Bytes}
use messaging_service.Disk.{Disk, Refusals, or_empty}
use messaging_service.Database.Mail.Laws.{MailAllowed}
use messaging_service.Database.Mail.Commands.{MailCommand, Changes}
use messaging_service.Program.{Event, Prog, ret, emit, atomic, reach, ◌>>=◌}

-- What a thread has sent, the latest first.
abbrev pub Log : Type 0
Log = List Event

-- No message file is refused.
abbrev pub AllMail : Refusals → Type 0
AllMail r = (n : Bytes) → MailAllowed r n

unfoldable pub KeepsMail : {A : Type 0} → (Log → MailCommand → Type 0) → Log → Prog A → Type 0
KeepsMail P l (ret a) = Unit {0}
KeepsMail P l (emit e p) = KeepsMail P (e ∷ l) p
KeepsMail P l (atomic act k) =
    (r : Refusals) (d : Disk) → AllMail r → Changes (P l) d (act r d) × KeepsMail P l (k r d)
KeepsMail P l (reach ip port k) = (b : Bool) → KeepsMail P l (k b)

module _ (P : Log → MailCommand → Type 0) where
  pub bind-KeepsMail :
      {A B : Type 0} (l : Log) (p : Prog A) (f : A → Prog B)
      → KeepsMail P l p
      → ((l : Log) (a : A) → KeepsMail P l (f a))
      → KeepsMail P l (p >>= f)
  unfolding KeepsMail
  bind-KeepsMail l (ret a) f h g = g l a
  bind-KeepsMail l (emit e p) f h g = bind-KeepsMail (e ∷ l) p f h g
  bind-KeepsMail l (atomic act k) f h g =
      λ r d a. ((h r d a).0, bind-KeepsMail l (k r d) f (h r d a).1 g)
  bind-KeepsMail l (reach ip port k) f h g = λ b. bind-KeepsMail l (k b) f (h b) g

  pub if-KeepsMail :
      {A : Type 0} (l : Log) (b : Bool) (p q : Prog A)
      → KeepsMail P l p
      → KeepsMail P l q
      → KeepsMail P l (if b then p else q)
  if-KeepsMail l true p q h g = h
  if-KeepsMail l false p q h g = g

-- An operation that leaves the message files alone.
pub same_files : {Q : MailCommand → Type 0} (d e : Disk) → e.messages ≡ d.messages → Changes Q d e
same_files d e h = inl (λ j. ap (λ files. or_empty (files j)) h)
