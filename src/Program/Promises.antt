-- ===== src/Program/Promises.antt =====
-- Programs that store a message once they have told their client its id.
use mathlib.Core.List.{Memᴰ}
use messaging_service.Prelude.{Bool, true, false, if◌then◌else◌, ◌≡◌, [], ◌∷◌, ◌++◌, Bytes}
use messaging_service.Text.Decimal.{print_unsigned}
use messaging_service.Disk.{Disk, Refusals, PendingMsg}
use messaging_service.Database.Mail.Laws.{mailbox}
use messaging_service.Program.{reply, push, rpc, console, Prog, ret, emit, atomic, reach, ◌>>=◌}
use messaging_service.Program.Mail.{AllMail}

-- The next step on the disk stores the message in the file of `b`, and nothing goes to the client first.
unfoldable pub WillStore : {A : Type 0} → Bytes → PendingMsg → Prog A → Type 0
WillStore b m (ret a) = ⊥
WillStore b m (emit (reply s) p) = ⊥
WillStore b m (emit (push ip port strings) p) = WillStore b m p
WillStore b m (emit (rpc user operation file) p) = WillStore b m p
WillStore b m (emit (console line) p) = WillStore b m p
WillStore b m (atomic act k) = (r : Refusals) (d : Disk) → AllMail r → Memᴰ m (mailbox (act r d) b)
WillStore b m (reach ip port k) = ⊥

-- Where the program tells its client an id, it stores the message of its request that has the id.
unfoldable pub KeepsWord : {A : Type 0} → (Bytes → PendingMsg → Type 0) → Prog A → Type 0
KeepsWord Q (ret a) = Unit {0}
KeepsWord Q (emit (reply s) p) =
    ((b : Bytes) (m : PendingMsg) → s ≡ print_unsigned m.id ++ 0 ∷ [] → Q b m → WillStore b m p)
    × KeepsWord Q p
KeepsWord Q (emit (push ip port strings) p) = KeepsWord Q p
KeepsWord Q (emit (rpc user operation file) p) = KeepsWord Q p
KeepsWord Q (emit (console line) p) = KeepsWord Q p
KeepsWord Q (atomic act k) = (r : Refusals) (d : Disk) → AllMail r → KeepsWord Q (k r d)
KeepsWord Q (reach ip port k) = (b : Bool) → KeepsWord Q (k b)

bind-WillStore :
    {A B : Type 0} (b : Bytes) (m : PendingMsg) (p : Prog A) (f : A → Prog B)
    → WillStore b m p
    → WillStore b m (p >>= f)
unfolding WillStore
bind-WillStore b m (ret a) f h = absurd h
bind-WillStore b m (emit (reply s) p) f h = absurd h
bind-WillStore b m (emit (push ip port strings) p) f h = bind-WillStore b m p f h
bind-WillStore b m (emit (rpc user operation file) p) f h = bind-WillStore b m p f h
bind-WillStore b m (emit (console line) p) f h = bind-WillStore b m p f h
bind-WillStore b m (atomic act k) f h = h
bind-WillStore b m (reach ip port k) f h = absurd h

module _ (Q : Bytes → PendingMsg → Type 0) where
  pub bind-KeepsWord :
      {A B : Type 0} (p : Prog A) (f : A → Prog B)
      → KeepsWord Q p
      → ((a : A) → KeepsWord Q (f a))
      → KeepsWord Q (p >>= f)
  unfolding KeepsWord
  bind-KeepsWord (ret a) f h g = g a
  bind-KeepsWord (emit (reply s) p) f h g =
      (λ b m e q. bind-WillStore b m p f (h.0 b m e q), bind-KeepsWord p f h.1 g)
  bind-KeepsWord (emit (push ip port strings) p) f h g = bind-KeepsWord p f h g
  bind-KeepsWord (emit (rpc user operation file) p) f h g = bind-KeepsWord p f h g
  bind-KeepsWord (emit (console line) p) f h g = bind-KeepsWord p f h g
  bind-KeepsWord (atomic act k) f h g = λ r d a. bind-KeepsWord (k r d) f (h r d a) g
  bind-KeepsWord (reach ip port k) f h g = λ b. bind-KeepsWord (k b) f (h b) g

  pub if-KeepsWord :
      {A : Type 0} (b : Bool) (p q : Prog A)
      → KeepsWord Q p
      → KeepsWord Q q
      → KeepsWord Q (if b then p else q)
  if-KeepsWord true p q h g = h
  if-KeepsWord false p q h g = g

  -- A program whose request has no message owes none.
  pub nothing_owed :
      {A : Type 0} (p : Prog A) → ((b : Bytes) (m : PendingMsg) → Q b m → ⊥) → KeepsWord Q p
  unfolding KeepsWord
  nothing_owed (ret a) h = tt
  nothing_owed (emit (reply s) p) h = (λ b m e q. absurd (h b m q), nothing_owed p h)
  nothing_owed (emit (push ip port strings) p) h = nothing_owed p h
  nothing_owed (emit (rpc user operation file) p) h = nothing_owed p h
  nothing_owed (emit (console line) p) h = nothing_owed p h
  nothing_owed (atomic act k) h = λ r d a. nothing_owed (k r d) h
  nothing_owed (reach ip port k) h = λ b. nothing_owed (k b) h
