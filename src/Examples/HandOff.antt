-- ===== src/Examples/HandOff.antt =====
-- The main thread accepts descriptor 7 and hands it to a worker.
use messaging_service.Prelude.{◌≡◌, refl, true, false, [], ◌∷◌, ◌++◌, map}
use messaging_service.Accept.{
  Shared, accepting, locking, serving, MainMove, WorkerMove, Turn, Signal, Step, Steps, here, after,
}
use messaging_service.Accept.HandOff.{all_served}
use messaging_service.Accept.Ways.{Completes}
use messaging_service.Accept.Progress.{due, Steps-Completes}

abbrev idle : Shared
idle = record { locked = false; sd_global = 0; sd_copiado = 0 }

accepted : Steps true idle accepting [] [] idle (locking 7) []
accepted = after here (Step.main_moves (MainMove.accepts 7))

handed :
    Steps true idle accepting []
      (7 ∷ [])
      (record { locked = false; sd_global = 7; sd_copiado = 1 })
      accepting
      (serving 7 ∷ [])
handed =
    after
      (after
        (after
          (after
            (after
              (after
                (after
                  (after
                    (after
                      (after
                        (after
                          (after (after accepted (Step.main_moves (MainMove.locks refl)))
                            (Step.main_moves MainMove.clears))
                          (Step.main_moves MainMove.publishes))
                        Step.creates)
                      (Step.main_moves (MainMove.waits refl)))
                    (Step.worker_moves (Turn.mine (WorkerMove.locks refl))))
                  (Step.worker_moves (Turn.mine WorkerMove.copies)))
                (Step.worker_moves (Turn.mine WorkerMove.flags)))
              (Step.signals Signal.mine))
            (Step.worker_moves (Turn.mine WorkerMove.unlocks)))
          (Step.main_moves (MainMove.relocks refl)))
        (Step.main_moves (MainMove.sees refl)))
      (Step.main_moves MainMove.leaves)

all_served_example : serving 7 ∷ [] ≡ map serving (7 ∷ [])
all_served_example =
    all_served idle (record { locked = false; sd_global = 7; sd_copiado = 1 }) (serving 7 ∷ [])
      (7 ∷ []) refl handed

Steps-Completes_example : Completes idle (locking 7) [] (due (locking 7)) (due (locking 7) ++ [])
Steps-Completes_example = Steps-Completes idle idle (locking 7) [] [] refl accepted
