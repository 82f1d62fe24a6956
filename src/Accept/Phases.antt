-- ===== src/Accept/Phases.antt =====
-- servidor.c: the phases of the hand-off, by where the main thread stands: what the youngest worker
-- may be doing, and what the older ones have.
use messaging_service.Prelude.{
  ℕ, ◌≡◌, refl, sym, subst, append_assoc, Bool, true, false, List, [], ◌∷◌, ◌++◌, arith,
}
use messaging_service.Accept.{
  Shared, Main, accepting, locking, locked, cleared, published, refused, checking, waiting, woken,
  leaving, Worker, starting, holding, copied, flagged, signalled, serving, MainMove, WorkerMove,
  Turn, Signal, wake, Step, Steps,
}

-- A worker is through with the hand-off, and serves the descriptor that it was created for.
unfoldable pub Serves : Worker → ℕ → Type 0
Serves (serving s) d = s ≡ d
Serves w d = ⊥

-- All workers do.
unfoldable pub Settled : List Worker → List ℕ → Type 0
unfolding Serves
Settled [] [] = Unit
Settled [] (d ∷ ds) = ⊥
Settled (w ∷ ws) [] = ⊥
Settled (w ∷ ws) (d ∷ ds) = Serves w d × Settled ws ds

-- What the youngest worker and the shared variables have in common during its hand-off.
unfoldable pub Holds : Shared → Worker → ℕ → Type 0
Holds m starting d = (m.locked ≡ false) × (m.sd_copiado ≡ 0) × (m.sd_global ≡ d)
Holds m holding d = (m.locked ≡ true) × (m.sd_copiado ≡ 0) × (m.sd_global ≡ d)
Holds m (copied s) d = (m.locked ≡ true) × (m.sd_copiado ≡ 0) × (s ≡ d)
Holds m (flagged s) d = (m.locked ≡ true) × (m.sd_copiado ≡ 1) × (s ≡ d)
Holds m (signalled s) d = (m.locked ≡ true) × (m.sd_copiado ≡ 1) × (s ≡ d)
Holds m (serving s) d = (m.locked ≡ false) × (m.sd_copiado ≡ 1) × (s ≡ d)

-- The youngest worker is in the hand-off, or has just come out of it.
unfoldable pub Handing : Shared → List Worker → List ℕ → Type 0
unfolding Settled Holds
Handing m (w ∷ ws) (d ∷ ds) = Holds m w d × Settled ws ds
Handing m [] ds = ⊥
Handing m (w ∷ ws) [] = ⊥

-- While the main thread has the mutex again, the youngest worker has not begun, or is through.
unfoldable pub Ready : Shared → Worker → ℕ → Type 0
Ready m starting d = (m.sd_copiado ≡ 0) × (m.sd_global ≡ d)
Ready m (serving s) d = (m.sd_copiado ≡ 1) × (s ≡ d)
Ready m w d = ⊥

unfoldable pub Checks : Shared → List Worker → List ℕ → Type 0
unfolding Settled Ready
Checks m (w ∷ ws) (d ∷ ds) = Ready m w d × Settled ws ds
Checks m [] ds = ⊥
Checks m (w ∷ ws) [] = ⊥

-- A worker that has signalled, for which the main thread waits no more.
unfoldable pub unsignalled : List Worker → Bool
unsignalled [] = true
unsignalled (signalled s ∷ ws) = false
unsignalled (serving s ∷ ws) = false
unsignalled (w ∷ ws) = true

unfoldable pub Phase : Shared → Main → List Worker → List ℕ → Type 0
unfolding Settled Handing Checks unsignalled
Phase m accepting ws ds = (m.locked ≡ false) × Settled ws ds
Phase m (locking sd) ws ds = (m.locked ≡ false) × Settled ws ds
Phase m (locked sd) ws ds = (m.locked ≡ true) × Settled ws ds
Phase m (cleared sd) ws ds = (m.locked ≡ true) × (m.sd_copiado ≡ 0) × Settled ws ds
Phase m (published sd) ws ds =
    (m.locked ≡ true) × (m.sd_copiado ≡ 0) × (m.sd_global ≡ sd) × Settled ws ds
Phase m refused ws ds = (m.locked ≡ true) × Settled ws ds
Phase m checking ws ds = (m.locked ≡ true) × Checks m ws ds
Phase m waiting ws ds = Handing m ws ds × (unsignalled ws ≡ true)
Phase m woken ws ds = Handing m ws ds
Phase m leaving ws ds = (m.locked ≡ true) × Settled ws ds

-- No worker of a settled list moves or signals.
Turn-Settled :
    {m m' : Shared} {ws ws' : List Worker} (ds : List ℕ) → Turn m ws m' ws' → Settled ws ds → ⊥
unfolding Settled
Turn-Settled [] (Turn.mine t) h = h
Turn-Settled [] (Turn.older w t) h = h
Turn-Settled (d ∷ ds) (Turn.mine (WorkerMove.locks e)) h = h.0
Turn-Settled (d ∷ ds) (Turn.mine WorkerMove.copies) h = h.0
Turn-Settled (d ∷ ds) (Turn.mine WorkerMove.flags) h = h.0
Turn-Settled (d ∷ ds) (Turn.mine WorkerMove.unlocks) h = h.0
Turn-Settled (d ∷ ds) (Turn.older w t) h = Turn-Settled ds t h.1

Signal-Settled : {ws ws' : List Worker} (ds : List ℕ) → Signal ws ws' → Settled ws ds → ⊥
unfolding Settled
Signal-Settled [] Signal.mine h = h
Signal-Settled [] (Signal.older w t) h = h
Signal-Settled (d ∷ ds) Signal.mine h = h.0
Signal-Settled (d ∷ ds) (Signal.older w t) h = Signal-Settled ds t h.1

-- The main thread keeps the phases.
MainMove-Phase :
    {x : Bool} {m m' : Shared} {p p' : Main} (ws : List Worker) (ds : List ℕ)
    → MainMove x m p m' p'
    → Phase m p ws ds
    → Phase m' p' ws ds
unfolding Phase
MainMove-Phase ws ds (MainMove.accepts sd) h = h
MainMove-Phase ws ds MainMove.accept_fails h = h
MainMove-Phase ws ds (MainMove.locks e) h = (refl, h.1)
MainMove-Phase ws ds MainMove.clears h = (h.0, refl, h.1)
MainMove-Phase ws ds MainMove.publishes h = (h.0, h.1, refl, h.2)
MainMove-Phase ws ds MainMove.create_fails h = (h.0, h.3)
MainMove-Phase ws ds MainMove.gives_up h = (refl, h.1)
MainMove-Phase (starting ∷ ws) (d ∷ ds) (MainMove.waits e) h =
    (((refl, h.1.0.0, h.1.0.1), h.1.1), refl)
MainMove-Phase (serving s ∷ ws) (d ∷ ds) (MainMove.waits e) h = absurd (ground arith)
MainMove-Phase (_ ∷ ws) (d ∷ ds) (MainMove.waits e) h = absurd h.1.0
MainMove-Phase [] ds (MainMove.waits e) h = absurd h.1
MainMove-Phase (_ ∷ ws) [] (MainMove.waits e) h = absurd h.1
MainMove-Phase ws ds (MainMove.wakes e) h = h.0
MainMove-Phase (starting ∷ ws) (d ∷ ds) (MainMove.relocks e) h = (refl, ((h.0.1, h.0.2), h.1))
MainMove-Phase (serving s ∷ ws) (d ∷ ds) (MainMove.relocks e) h = (refl, ((h.0.1, h.0.2), h.1))
MainMove-Phase (_ ∷ ws) (d ∷ ds) (MainMove.relocks e) h = absurd (ground arith)
MainMove-Phase [] ds (MainMove.relocks e) h = absurd h
MainMove-Phase (_ ∷ ws) [] (MainMove.relocks e) h = absurd h
MainMove-Phase (starting ∷ ws) (d ∷ ds) (MainMove.sees e) h = absurd (ground arith)
MainMove-Phase (serving s ∷ ws) (d ∷ ds) (MainMove.sees e) h = (h.0, (h.1.0.1, h.1.1))
MainMove-Phase (_ ∷ ws) (d ∷ ds) (MainMove.sees e) h = absurd h.1.0
MainMove-Phase [] ds (MainMove.sees e) h = absurd h.1
MainMove-Phase (_ ∷ ws) [] (MainMove.sees e) h = absurd h.1
MainMove-Phase ws ds MainMove.leaves h = (refl, h.1)

Turn-Handing :
    {m m' : Shared} {ws ws' : List Worker} (ds : List ℕ)
    → Turn m ws m' ws'
    → Handing m ws ds
    → Handing m' ws' ds × (unsignalled ws ≡ true → unsignalled ws' ≡ true)
unfolding Handing unsignalled
Turn-Handing [] (Turn.mine t) h = absurd h
Turn-Handing [] (Turn.older w t) h = absurd h
Turn-Handing (d ∷ ds) (Turn.mine (WorkerMove.locks e)) h = (((refl, h.0.1, h.0.2), h.1), λ u. refl)
Turn-Handing (d ∷ ds) (Turn.mine WorkerMove.copies) h = (h, λ u. refl)
Turn-Handing (d ∷ ds) (Turn.mine WorkerMove.flags) h = (((h.0.0, refl, h.0.2), h.1), λ u. refl)
Turn-Handing (d ∷ ds) (Turn.mine WorkerMove.unlocks) h =
    (((refl, h.0.1, h.0.2), h.1), λ u. absurd (ground arith))
Turn-Handing (d ∷ ds) (Turn.older w t) h = absurd (Turn-Settled ds t h.1)

Signal-Handing :
    {ws ws' : List Worker} (m : Shared) (ds : List ℕ)
    → Signal ws ws'
    → Handing m ws ds
    → Handing m ws' ds
unfolding Handing
Signal-Handing m [] Signal.mine h = absurd h
Signal-Handing m [] (Signal.older w t) h = absurd h
Signal-Handing m (d ∷ ds) Signal.mine h = h
Signal-Handing m (d ∷ ds) (Signal.older w t) h = absurd (Signal-Settled ds t h.1)

-- While the main thread has the mutex no worker moves.
Turn-Checks :
    {m m' : Shared} {ws ws' : List Worker} (ds : List ℕ)
    → m.locked ≡ true
    → Turn m ws m' ws'
    → Checks m ws ds
    → ⊥
unfolding Checks
Turn-Checks [] e (Turn.mine t) h = h
Turn-Checks [] e (Turn.older w t) h = h
Turn-Checks (d ∷ ds) e (Turn.mine (WorkerMove.locks f)) h = ground arith
Turn-Checks (d ∷ ds) e (Turn.mine WorkerMove.copies) h = h.0
Turn-Checks (d ∷ ds) e (Turn.mine WorkerMove.flags) h = h.0
Turn-Checks (d ∷ ds) e (Turn.mine WorkerMove.unlocks) h = h.0
Turn-Checks (d ∷ ds) e (Turn.older w t) h = Turn-Settled ds t h.1

Signal-Checks :
    {ws ws' : List Worker} (m : Shared) (ds : List ℕ) → Signal ws ws' → Checks m ws ds → ⊥
unfolding Checks
Signal-Checks m [] Signal.mine h = h
Signal-Checks m [] (Signal.older w t) h = h
Signal-Checks m (d ∷ ds) Signal.mine h = h.0
Signal-Checks m (d ∷ ds) (Signal.older w t) h = Signal-Settled ds t h.1

Turn-Phase :
    {m m' : Shared} {ws ws' : List Worker} (p : Main) (ds : List ℕ)
    → Turn m ws m' ws'
    → Phase m p ws ds
    → Phase m' p ws' ds
unfolding Phase
Turn-Phase accepting ds t h = absurd (Turn-Settled ds t h.1)
Turn-Phase (locking sd) ds t h = absurd (Turn-Settled ds t h.1)
Turn-Phase (locked sd) ds t h = absurd (Turn-Settled ds t h.1)
Turn-Phase (cleared sd) ds t h = absurd (Turn-Settled ds t h.2)
Turn-Phase (published sd) ds t h = absurd (Turn-Settled ds t h.3)
Turn-Phase refused ds t h = absurd (Turn-Settled ds t h.1)
Turn-Phase checking ds t h = absurd (Turn-Checks ds h.0 t h.1)
Turn-Phase waiting ds t h = let k = Turn-Handing ds t h.0 in (k.0, k.1 h.1)
Turn-Phase woken ds t h = (Turn-Handing ds t h).0
Turn-Phase leaving ds t h = absurd (Turn-Settled ds t h.1)

Signal-Phase :
    {ws ws' : List Worker} (m : Shared) (p : Main) (ds : List ℕ)
    → Signal ws ws'
    → Phase m p ws ds
    → Phase m (wake p) ws' ds
unfolding Phase
Signal-Phase m accepting ds t h = absurd (Signal-Settled ds t h.1)
Signal-Phase m (locking sd) ds t h = absurd (Signal-Settled ds t h.1)
Signal-Phase m (locked sd) ds t h = absurd (Signal-Settled ds t h.1)
Signal-Phase m (cleared sd) ds t h = absurd (Signal-Settled ds t h.2)
Signal-Phase m (published sd) ds t h = absurd (Signal-Settled ds t h.3)
Signal-Phase m refused ds t h = absurd (Signal-Settled ds t h.1)
Signal-Phase m checking ds t h = absurd (Signal-Checks m ds t h.1)
Signal-Phase m waiting ds t h = Signal-Handing m ds t h.0
Signal-Phase m woken ds t h = Signal-Handing m ds t h
Signal-Phase m leaving ds t h = absurd (Signal-Settled ds t h.1)

Step-Phase :
    {x : Bool} {m m' : Shared} {p p' : Main} {ws ws' : List Worker} (es ds : List ℕ)
    → Step x m p ws es m' p' ws'
    → Phase m p ws ds
    → Phase m' p' ws' (es ++ ds)
unfolding Phase
Step-Phase es ds (Step.main_moves {ws = ws} t) h = MainMove-Phase ws ds t h
Step-Phase es ds Step.creates h = (h.0, ((h.1, h.2), h.3))
Step-Phase es ds (Step.worker_moves {p = p} t) h = Turn-Phase p ds t h
Step-Phase es ds (Step.signals {m = m} {p = p} t) h = Signal-Phase m p ds t h

-- Every step keeps the phases, so any number does.
pub Steps-Phase :
    {x : Bool} {m m' : Shared} {p p' : Main} {ws ws' : List Worker} (es ds : List ℕ)
    → Steps x m p ws es m' p' ws'
    → Phase m p ws ds
    → Phase m' p' ws' (es ++ ds)
Steps-Phase es ds Steps.here h = h
Steps-Phase es ds (Steps.after {ds = bs} {es = cs} s t) h =
    subst (Phase _ _ _) (sym (append_assoc cs bs ds))
      (Step-Phase cs (bs ++ ds) t (Steps-Phase bs ds s h))
