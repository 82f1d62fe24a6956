-- ===== src/Accept.antt =====
-- server/src/c_files/servidor.c: how the main thread hands the descriptor of a connection to the worker
-- thread that serves it. The two share `sd_global` and `sd_copiado` under `mutex_sd`, and the main
-- thread waits on `cond_sd`. Each step is one access to what they share; in any order.
pub mod Phases
pub mod HandOff
pub mod Ways
pub mod Progress
use messaging_service.Prelude.{ℕ, ◌≡◌, Bool, true, false, List, [], ◌∷◌, ◌++◌, ◌==◌}

pub record Shared : Type 0 where
  -- whether `mutex_sd` is held
  pub locked : Bool
  pub sd_global : ℕ
  pub sd_copiado : ℕ

-- Where the main thread stands in its loop, with `sd_conec` where that is live.
pub data Main : Type 0 where
  -- before `accept`
  accepting : Main
  -- before `pthread_mutex_lock`
  locking : ℕ → Main
  -- before `sd_copiado = 0`
  locked : ℕ → Main
  -- before `sd_global = sd_conec`
  cleared : ℕ → Main
  -- before `pthread_create`
  published : ℕ → Main
  -- behind `close(sd_conec)`, where no thread could be created
  refused : Main
  -- at the test of the loop around `pthread_cond_wait`
  checking : Main
  -- in `pthread_cond_wait`, the mutex released
  waiting : Main
  -- woken up in `pthread_cond_wait`, before it has the mutex again
  woken : Main
  -- before the last `pthread_mutex_unlock`
  leaving : Main

-- Where a worker stands in tratar_peticion, with `s_local` where that is set.
pub data Worker : Type 0 where
  -- before `pthread_mutex_lock`
  starting : Worker
  -- before `s_local = sd_global`
  holding : Worker
  -- before `sd_copiado = 1`
  copied : ℕ → Worker
  -- before `pthread_cond_signal`
  flagged : ℕ → Worker
  -- before `pthread_mutex_unlock`
  signalled : ℕ → Worker
  -- reading its request
  serving : ℕ → Worker

-- A step of the main thread that creates no worker; `unprompted` says whether `pthread_cond_wait` may
-- return without a signal, as POSIX lets it.
pub data MainMove (unprompted : Bool) (m : Shared) : Main → Shared → Main → Type 0 where
  accepts : (sd : ℕ) → MainMove unprompted m accepting m (locking sd)
  accept_fails : MainMove unprompted m accepting m accepting
  locks :
      {sd : ℕ}
      → m.locked ≡ false
      → MainMove unprompted m (locking sd) (record m { locked = true }) (locked sd)
  clears : {sd : ℕ} → MainMove unprompted m (locked sd) (record m { sd_copiado = 0 }) (cleared sd)
  publishes :
      {sd : ℕ} → MainMove unprompted m (cleared sd) (record m { sd_global = sd }) (published sd)
  create_fails : {sd : ℕ} → MainMove unprompted m (published sd) m refused
  gives_up : MainMove unprompted m refused (record m { locked = false }) accepting
  waits :
      m.sd_copiado == 0 ≡ true
      → MainMove unprompted m checking (record m { locked = false }) waiting
  wakes : unprompted ≡ true → MainMove unprompted m waiting m woken
  relocks : m.locked ≡ false → MainMove unprompted m woken (record m { locked = true }) checking
  sees : m.sd_copiado == 0 ≡ false → MainMove unprompted m checking m leaving
  leaves : MainMove unprompted m leaving (record m { locked = false }) accepting

-- A step of a worker but `pthread_cond_signal`.
pub data WorkerMove (m : Shared) : Worker → Shared → Worker → Type 0 where
  locks : m.locked ≡ false → WorkerMove m starting (record m { locked = true }) holding
  copies : WorkerMove m holding m (copied m.sd_global)
  flags : {s : ℕ} → WorkerMove m (copied s) (record m { sd_copiado = 1 }) (flagged s)
  unlocks : {s : ℕ} → WorkerMove m (signalled s) (record m { locked = false }) (serving s)

-- The workers, the youngest first; one of them moves.
pub data Turn (m : Shared) : List Worker → Shared → List Worker → Type 0 where
  mine :
      {w w' : Worker} {ws : List Worker} {m' : Shared}
      → WorkerMove m w m' w'
      → Turn m (w ∷ ws) m' (w' ∷ ws)
  older :
      (w : Worker) {ws ws' : List Worker} {m' : Shared}
      → Turn m ws m' ws'
      → Turn m (w ∷ ws) m' (w ∷ ws')

-- One of them signals.
pub data Signal : List Worker → List Worker → Type 0 where
  mine : {s : ℕ} {ws : List Worker} → Signal (flagged s ∷ ws) (signalled s ∷ ws)
  older : (w : Worker) {ws ws' : List Worker} → Signal ws ws' → Signal (w ∷ ws) (w ∷ ws')

-- What a signal does to the main thread.
abbrev pub wake : Main → Main
wake waiting = woken
wake p = p

-- A step of the server, and the descriptors for which it creates a worker.
pub data Step (unprompted : Bool)
    : Shared → Main → List Worker → List ℕ → Shared → Main → List Worker → Type 0 where
  main_moves :
      {m m' : Shared} {p p' : Main} {ws : List Worker}
      → MainMove unprompted m p m' p'
      → Step unprompted m p ws [] m' p' ws
  creates :
      {m : Shared} {sd : ℕ} {ws : List Worker}
      → Step unprompted m (published sd) ws (sd ∷ []) m checking (starting ∷ ws)
  worker_moves :
      {m m' : Shared} {p : Main} {ws ws' : List Worker}
      → Turn m ws m' ws'
      → Step unprompted m p ws [] m' p ws'
  signals :
      {m : Shared} {p : Main} {ws ws' : List Worker}
      → Signal ws ws'
      → Step unprompted m p ws [] m (wake p) ws'

-- Any number of steps, and the descriptors of the workers that they create, the youngest first.
pub data Steps (unprompted : Bool)
    : Shared → Main → List Worker → List ℕ → Shared → Main → List Worker → Type 0 where
  here : {m : Shared} {p : Main} {ws : List Worker} → Steps unprompted m p ws [] m p ws
  after :
      {m m' m'' : Shared} {p p' p'' : Main} {ws ws' ws'' : List Worker} {ds es : List ℕ}
      → Steps unprompted m p ws ds m' p' ws'
      → Step unprompted m' p' ws' es m'' p'' ws''
      → Steps unprompted m p ws (es ++ ds) m'' p'' ws''
