-- ===== src/Accept/Ways.antt =====
-- servidor.c: the steps that lead from a state of the hand-off back to `accept`.
use messaging_service.Prelude.{ℕ, ◌≡◌, refl, subst, false, List, ◌∷◌, map, arith}
use messaging_service.Accept.{
  Shared, Main, accepting, refused, checking, waiting, woken, leaving, Worker, starting, holding,
  copied, flagged, signalled, serving, MainMove, WorkerMove, Turn, Signal, wake, Step, Steps, after,
}
use messaging_service.Accept.Phases.{Settled}
use messaging_service.Accept.HandOff.{Settled-serving}

-- Steps from a state in which `pthread_cond_wait` returns for signals alone, the main thread's last being back at `accept` with all workers serving.
pub record Completes (m : Shared) (p : Main) (ws : List Worker) (es ds : List ℕ) : Type 0 where
  pub shared : Shared
  pub workers : List Worker
  pub steps : Steps false m p ws es shared accepting workers
  pub served : workers ≡ map serving ds

module _ {m0 : Shared} {p0 : Main} {ws0 : List Worker} {es : List ℕ} where
  pub from_accepting :
      (m : Shared) (ws : List Worker) (ds : List ℕ)
      → Settled ws ds
      → Steps false m0 p0 ws0 es m accepting ws
      → Completes m0 p0 ws0 es ds
  from_accepting m ws ds h s = record {
    shared = m;
    workers = ws;
    steps = s;
    served = Settled-serving ws ds h;
  }

  pub from_leaving :
      (m : Shared) (ws : List Worker) (ds : List ℕ)
      → Settled ws ds
      → Steps false m0 p0 ws0 es m leaving ws
      → Completes m0 p0 ws0 es ds
  from_leaving m ws ds h s = from_accepting _ ws ds h (after s (Step.main_moves MainMove.leaves))

  pub from_refused :
      (m : Shared) (ws : List Worker) (ds : List ℕ)
      → Settled ws ds
      → Steps false m0 p0 ws0 es m refused ws
      → Completes m0 p0 ws0 es ds
  from_refused m ws ds h s = from_accepting _ ws ds h (after s (Step.main_moves MainMove.gives_up))

  pub from_checked :
      (m : Shared) (ws : List Worker) (ds : List ℕ)
      → m.sd_copiado ≡ 1
      → Settled ws ds
      → Steps false m0 p0 ws0 es m checking ws
      → Completes m0 p0 ws0 es ds
  from_checked m ws ds c h s =
      from_leaving m ws ds h (after s (Step.main_moves (MainMove.sees (ground arith))))

  pub from_woken :
      (m : Shared) (ws : List Worker) (ds : List ℕ)
      → m.locked ≡ false
      → m.sd_copiado ≡ 1
      → Settled ws ds
      → Steps false m0 p0 ws0 es m woken ws
      → Completes m0 p0 ws0 es ds
  from_woken m ws ds l c h s =
      from_checked _ ws ds c h (after s (Step.main_moves (MainMove.relocks l)))

  pub from_signalled :
      (m : Shared) (x : ℕ) (ws : List Worker) (ds : List ℕ)
      → m.sd_copiado ≡ 1
      → Settled (serving x ∷ ws) ds
      → Steps false m0 p0 ws0 es m woken (signalled x ∷ ws)
      → Completes m0 p0 ws0 es ds
  from_signalled m x ws ds c h s =
      from_woken _ (serving x ∷ ws) ds refl c h
        (after s (Step.worker_moves (Turn.mine WorkerMove.unlocks)))

  module _ (p : Main) (asleep : wake p ≡ woken) where
    pub from_flagged :
        (m : Shared) (x : ℕ) (ws : List Worker) (ds : List ℕ)
        → m.sd_copiado ≡ 1
        → Settled (serving x ∷ ws) ds
        → Steps false m0 p0 ws0 es m p (flagged x ∷ ws)
        → Completes m0 p0 ws0 es ds
    from_flagged m x ws ds c h s = from_signalled m x ws ds c h (
        subst (λ q. Steps false m0 p0 ws0 es m q (signalled x ∷ ws)) asleep
          (after s (Step.signals Signal.mine)))

    pub from_copied :
        (m : Shared) (x : ℕ) (ws : List Worker) (ds : List ℕ)
        → Settled (serving x ∷ ws) ds
        → Steps false m0 p0 ws0 es m p (copied x ∷ ws)
        → Completes m0 p0 ws0 es ds
    from_copied m x ws ds h s =
        from_flagged _ x ws ds refl h (after s (Step.worker_moves (Turn.mine WorkerMove.flags)))

    pub from_holding :
        (m : Shared) (ws : List Worker) (ds : List ℕ)
        → Settled (serving m.sd_global ∷ ws) ds
        → Steps false m0 p0 ws0 es m p (holding ∷ ws)
        → Completes m0 p0 ws0 es ds
    from_holding m ws ds h s =
        from_copied m m.sd_global ws ds h
          (after s (Step.worker_moves (Turn.mine WorkerMove.copies)))

    pub from_starting :
        (m : Shared) (ws : List Worker) (ds : List ℕ)
        → m.locked ≡ false
        → Settled (serving m.sd_global ∷ ws) ds
        → Steps false m0 p0 ws0 es m p (starting ∷ ws)
        → Completes m0 p0 ws0 es ds
    from_starting m ws ds l h s =
        from_holding _ ws ds h (after s (Step.worker_moves (Turn.mine (WorkerMove.locks l))))

  pub from_starting_check :
      (m : Shared) (ws : List Worker) (ds : List ℕ)
      → m.sd_copiado ≡ 0
      → Settled (serving m.sd_global ∷ ws) ds
      → Steps false m0 p0 ws0 es m checking (starting ∷ ws)
      → Completes m0 p0 ws0 es ds
  from_starting_check m ws ds c h s =
      from_starting waiting refl _ ws ds refl h
        (after s (Step.main_moves (MainMove.waits (ground arith))))
