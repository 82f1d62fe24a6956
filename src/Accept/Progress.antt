-- ===== src/Accept/Progress.antt =====
-- servidor.c: how the hand-off of a descriptor goes on from each of its states.
use messaging_service.Prelude.{
  ℕ, ◌≡◌, refl, subst, true, false, List, [], ◌∷◌, ◌++◌, append-nil, arith,
}
use messaging_service.Accept.{
  Shared, Main, accepting, locking, locked, cleared, published, refused, checking, waiting, woken,
  leaving, Worker, starting, holding, copied, flagged, signalled, serving, MainMove, Step, Steps,
  here, after,
}
use messaging_service.Accept.Phases.{
  unsignalled, Settled, Serves, Handing, Ready, Checks, Phase, Steps-Phase,
}
use messaging_service.Accept.Ways.{
  Completes, from_accepting, from_leaving, from_refused, from_checked, from_woken, from_signalled,
  from_flagged, from_copied, from_holding, from_starting, from_starting_check,
}

-- The descriptor with which the main thread is on its way to a worker.
unfoldable pub due : Main → List ℕ
due (locking sd) = sd ∷ []
due (locked sd) = sd ∷ []
due (cleared sd) = sd ∷ []
due (published sd) = sd ∷ []
due p = []

module _ {m0 : Shared} {p0 : Main} {ws0 : List Worker} {es : List ℕ} where
  from_waiting :
      (m : Shared) (ws : List Worker) (ds : List ℕ)
      → Handing m ws ds
      → unsignalled ws ≡ true
      → Steps false m0 p0 ws0 es m waiting ws
      → Completes m0 p0 ws0 es ds
  unfolding Handing Settled Serves unsignalled
  from_waiting m [] ds h u s = absurd h
  from_waiting m (w ∷ ws) [] h u s = absurd h
  from_waiting m (starting ∷ ws) (d ∷ ds) h u s =
      from_starting waiting refl m ws (d ∷ ds) h.0.0 (h.0.2, h.1) s
  from_waiting m (holding ∷ ws) (d ∷ ds) h u s =
      from_holding waiting refl m ws (d ∷ ds) (h.0.2, h.1) s
  from_waiting m (copied x ∷ ws) (d ∷ ds) h u s =
      from_copied waiting refl m x ws (d ∷ ds) (h.0.2, h.1) s
  from_waiting m (flagged x ∷ ws) (d ∷ ds) h u s =
      from_flagged waiting refl m x ws (d ∷ ds) h.0.1 (h.0.2, h.1) s
  from_waiting m (_ ∷ ws) (d ∷ ds) h u s = absurd (ground arith)

  from_Handing :
      (m : Shared) (ws : List Worker) (ds : List ℕ)
      → Handing m ws ds
      → Steps false m0 p0 ws0 es m woken ws
      → Completes m0 p0 ws0 es ds
  unfolding Handing Settled Serves
  from_Handing m [] ds h s = absurd h
  from_Handing m (w ∷ ws) [] h s = absurd h
  from_Handing m (starting ∷ ws) (d ∷ ds) h s =
      from_starting woken refl m ws (d ∷ ds) h.0.0 (h.0.2, h.1) s
  from_Handing m (holding ∷ ws) (d ∷ ds) h s = from_holding woken refl m ws (d ∷ ds) (h.0.2, h.1) s
  from_Handing m (copied x ∷ ws) (d ∷ ds) h s =
      from_copied woken refl m x ws (d ∷ ds) (h.0.2, h.1) s
  from_Handing m (flagged x ∷ ws) (d ∷ ds) h s =
      from_flagged woken refl m x ws (d ∷ ds) h.0.1 (h.0.2, h.1) s
  from_Handing m (signalled x ∷ ws) (d ∷ ds) h s =
      from_signalled m x ws (d ∷ ds) h.0.1 (h.0.2, h.1) s
  from_Handing m (serving x ∷ ws) (d ∷ ds) h s =
      from_woken m (serving x ∷ ws) (d ∷ ds) h.0.0 h.0.1 (h.0.2, h.1) s

  from_checking :
      (m : Shared) (ws : List Worker) (ds : List ℕ)
      → Checks m ws ds
      → Steps false m0 p0 ws0 es m checking ws
      → Completes m0 p0 ws0 es ds
  unfolding Checks Ready Settled Serves
  from_checking m [] ds h s = absurd h
  from_checking m (w ∷ ws) [] h s = absurd h
  from_checking m (starting ∷ ws) (d ∷ ds) h s =
      from_starting_check m ws (d ∷ ds) h.0.0 (h.0.1, h.1) s
  from_checking m (serving x ∷ ws) (d ∷ ds) h s =
      from_checked m (serving x ∷ ws) (d ∷ ds) h.0.0 (h.0.1, h.1) s
  from_checking m (_ ∷ ws) (d ∷ ds) h s = absurd h.0

module _ {m0 : Shared} {p0 : Main} {ws0 : List Worker} {es : List ℕ} where
  from_published :
      (m : Shared) (sd : ℕ) (ws : List Worker) (ds : List ℕ)
      → m.sd_copiado ≡ 0
      → m.sd_global ≡ sd
      → Settled ws ds
      → Steps false m0 p0 ws0 es m (published sd) ws
      → Completes m0 p0 ws0 (sd ∷ es) (sd ∷ ds)
  unfolding Settled Serves
  from_published m sd ws ds c g h s =
      from_starting_check m ws (sd ∷ ds) c (g, h) (after s Step.creates)

  from_cleared :
      (m : Shared) (sd : ℕ) (ws : List Worker) (ds : List ℕ)
      → m.sd_copiado ≡ 0
      → Settled ws ds
      → Steps false m0 p0 ws0 es m (cleared sd) ws
      → Completes m0 p0 ws0 (sd ∷ es) (sd ∷ ds)
  from_cleared m sd ws ds c h s =
      from_published _ sd ws ds c refl h (after s (Step.main_moves MainMove.publishes))

  from_locked :
      (m : Shared) (sd : ℕ) (ws : List Worker) (ds : List ℕ)
      → Settled ws ds
      → Steps false m0 p0 ws0 es m (locked sd) ws
      → Completes m0 p0 ws0 (sd ∷ es) (sd ∷ ds)
  from_locked m sd ws ds h s =
      from_cleared _ sd ws ds refl h (after s (Step.main_moves MainMove.clears))

  from_locking :
      (m : Shared) (sd : ℕ) (ws : List Worker) (ds : List ℕ)
      → m.locked ≡ false
      → Settled ws ds
      → Steps false m0 p0 ws0 es m (locking sd) ws
      → Completes m0 p0 ws0 (sd ∷ es) (sd ∷ ds)
  from_locking m sd ws ds l h s =
      from_locked _ sd ws ds h (after s (Step.main_moves (MainMove.locks l)))

Phase-Completes :
    (m : Shared) (p : Main) (ws : List Worker) (ds : List ℕ)
    → Phase m p ws ds
    → Completes m p ws (due p) (due p ++ ds)
unfolding due Phase
Phase-Completes m accepting ws ds h = from_accepting m ws ds h.1 here
Phase-Completes m (locking sd) ws ds h = from_locking m sd ws ds h.0 h.1 here
Phase-Completes m (locked sd) ws ds h = from_locked m sd ws ds h.1 here
Phase-Completes m (cleared sd) ws ds h = from_cleared m sd ws ds h.1 h.2 here
Phase-Completes m (published sd) ws ds h = from_published m sd ws ds h.1 h.2 h.3 here
Phase-Completes m refused ws ds h = from_refused m ws ds h.1 here
Phase-Completes m checking ws ds h = from_checking m ws ds h.1 here
Phase-Completes m waiting ws ds h = from_waiting m ws ds h.0 h.1 here
Phase-Completes m woken ws ds h = from_Handing m ws ds h here
Phase-Completes m leaving ws ds h = from_leaving m ws ds h.1 here

-- From the main thread at `accept` with the mutex free and no worker, after any number of steps in any
-- order, there are further steps, none of them a return of pthread_cond_wait without a signal, which
-- bring the main thread back to `accept` with every worker serving the descriptor for which it was
-- created; where the main thread is on its way to create a worker for a connection, that is served as
-- well. So no state of the hand-off is a deadlock.
pub Steps-Completes :
    (m m' : Shared) (p : Main) (ws : List Worker) (ds : List ℕ)
    → m.locked ≡ false
    → Steps true m accepting [] ds m' p ws
    → Completes m' p ws (due p) (due p ++ ds)
Steps-Completes m m' p ws ds e s =
    Phase-Completes m' p ws ds
      (subst (Phase m' p ws) (append-nil ds) (Steps-Phase ds [] s (unfold Phase in (e, tt))))
