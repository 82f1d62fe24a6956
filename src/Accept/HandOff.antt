-- ===== src/Accept/HandOff.antt =====
-- parte2/server/src/c_files/servidor.c: which descriptor each worker has, when the main thread
-- accepts again.
use messaging_service.Prelude.{ℕ, ◌≡◌, refl, ap, subst, true, false, List, [], ◌∷◌, map, append-nil}
use messaging_service.Accept.{Shared, accepting, Worker, serving, Steps}
use messaging_service.Accept.Phases.{Settled, Phase, Steps-Phase}

pub Settled-serving : (ws : List Worker) (ds : List ℕ) → Settled ws ds → ws ≡ map serving ds
unfolding Settled
Settled-serving [] [] h = refl
Settled-serving [] (d ∷ ds) h = absurd h
Settled-serving (w ∷ ws) [] h = absurd h
Settled-serving (serving s ∷ ws) (d ∷ ds) h =
    rw h.0 (ap (λ l. serving d ∷ l) (Settled-serving ws ds h.1))
Settled-serving (_ ∷ ws) (d ∷ ds) h = absurd h.0

-- From the main thread at `accept` with the mutex free and no worker, after any number of steps of the
-- main thread and its workers in any order, where the main thread is at `accept` again: every worker
-- has taken over the descriptor for which it was created, none has another's, and none is still on the
-- way to it.
pub all_served :
    (m m' : Shared) (ws : List Worker) (ds : List ℕ)
    → m.locked ≡ false
    → Steps true m accepting [] ds m' accepting ws
    → ws ≡ map serving ds
all_served m m' ws ds e s = Settled-serving ws ds (
    subst (Settled ws) (append-nil ds)
      (unfold Phase in (Steps-Phase ds [] s (unfold Phase in (e, tt))).1))
