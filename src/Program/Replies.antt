-- ===== src/Program/Replies.antt =====
-- Programs that answer the client of their request, whatever the other threads do.
use messaging_service.Prelude.{ℕ, Bool, true, false, if◌then◌else◌, ◌≡◌, [], ◌∷◌}
use messaging_service.Disk.{Disk, Refusals}
use messaging_service.Program.{reply, push, rpc, console, Prog, ret, emit, atomic, reach, ◌>>=◌}

-- The first string that goes to the client is one byte, and there is one on every path.
unfoldable pub AnswersByte : {A : Type 0} → Prog A → Type 0
AnswersByte (ret a) = ⊥
AnswersByte (emit (reply s) p) = (code : ℕ) × (s ≡ code ∷ [])
AnswersByte (emit (push ip port strings) p) = AnswersByte p
AnswersByte (emit (rpc user operation file) p) = AnswersByte p
AnswersByte (emit (console line) p) = AnswersByte p
AnswersByte (atomic act k) = (r : Refusals) (d : Disk) → AnswersByte (k r d)
AnswersByte (reach ip port k) = (b : Bool) → AnswersByte (k b)

pub bind-AnswersByte :
    {A B : Type 0} (p : Prog A) (f : A → Prog B) → AnswersByte p → AnswersByte (p >>= f)
unfolding AnswersByte
bind-AnswersByte (ret a) f h = absurd h
bind-AnswersByte (emit (reply s) p) f h = h
bind-AnswersByte (emit (push ip port strings) p) f h = bind-AnswersByte p f h
bind-AnswersByte (emit (rpc user operation file) p) f h = bind-AnswersByte p f h
bind-AnswersByte (emit (console line) p) f h = bind-AnswersByte p f h
bind-AnswersByte (atomic act k) f h = λ r d. bind-AnswersByte (k r d) f (h r d)
bind-AnswersByte (reach ip port k) f h = λ b. bind-AnswersByte (k b) f (h b)

pub if-AnswersByte :
    {A : Type 0} (b : Bool) (p q : Prog A)
    → AnswersByte p
    → AnswersByte q
    → AnswersByte (if b then p else q)
if-AnswersByte true p q h g = h
if-AnswersByte false p q h g = g
