-- ===== src/Server/Mail/Promises.antt =====
-- What the client of a SEND has been told, and what becomes of its message while threads serve any
-- requests.
use mathlib.Core.List.{Memᴰ}
use messaging_service.Prelude.{Bool, ◌⊎◌, inl, inr, List, [], ◌∷◌, map, Option, Bytes, All}
use messaging_service.Disk.{Disk, Refusals, PendingMsg}
use messaging_service.Database.Prepare.{Prepared}
use messaging_service.Database.Mail.Laws.{mailbox}
use messaging_service.Program.{Event, reply, push, rpc, console, Prog, ret, emit, ◌>>=◌}
use messaging_service.Program.Mail.{Log, AllMail}
use messaging_service.Program.Promises.{WillStore, KeepsWord, bind-KeepsWord, nothing_owed}
use messaging_service.Handlers.Delivery.{f_send, f_sendattach}
use messaging_service.Handlers.Delivery.Mail.{Told}
use messaging_service.Handlers.Delivery.Promises.{f_send-KeepsWord, f_sendattach-KeepsWord}
use messaging_service.Requests.Reading.{
  Request, register, unregister, connect, disconnect, users, message, attach, handler,
  tratar_peticion-encode,
}
use messaging_service.Server.{Threads, Step, acts, sends, tries, passes, Steps, start, after}
use messaging_service.Server.Arrivals.{Arrival, thread}
use messaging_service.Server.Mail.{sent, logs, SentBy, Serving, Step-Serving}
use messaging_service.Server.Mail.Requests.{IsReadable, silent, threads-Serving}
use messaging_service.Server.Mail.Kept.{Gone, Gone-grows, Changes-keeps, Steps-Serving}

-- The thread of the request `x` is at `p` and has sent `l`.
pub data At (x : Arrival) (l : Log) (p : Prog Bool)
    : Threads → List Arrival → List Log → Type 0 where
  here : {ts : Threads} {xs : List Arrival} {ls : List Log} → At x l p (p ∷ ts) (x ∷ xs) (l ∷ ls)
  there :
      {q : Prog Bool} {y : Arrival} {k : Log} {ts : Threads} {xs : List Arrival} {ls : List Log}
      → At x l p ts xs ls
      → At x l p (q ∷ ts) (y ∷ xs) (k ∷ ls)

then_ret :
    (Q : Bytes → PendingMsg → Type 0) (p : Prog (Unit {0})) (c : Bool)
    → KeepsWord Q p
    → KeepsWord Q (p >>= λ _. ret c)
then_ret Q p c h = bind-KeepsWord Q p _ h (λ u. unfold KeepsWord in tt)

handler-KeepsWord :
    (peer : Option Bytes) (unset : Prepared) (q : Request)
    → KeepsWord (SentBy (record { peer = peer; unset = unset; request = q })) (handler peer unset q)
unfolding handler SentBy
handler-KeepsWord peer unset (register n) =
    nothing_owed _ _ (λ b m h. elim h [ inl x ↦ cc x.2 | inr x ↦ cc x.3 ])
handler-KeepsWord peer unset (unregister n) =
    nothing_owed _ _ (λ b m h. elim h [ inl x ↦ cc x.2 | inr x ↦ cc x.3 ])
handler-KeepsWord peer unset (connect n port) =
    nothing_owed _ _ (λ b m h. elim h [ inl x ↦ cc x.2 | inr x ↦ cc x.3 ])
handler-KeepsWord peer unset (disconnect n) =
    nothing_owed _ _ (λ b m h. elim h [ inl x ↦ cc x.2 | inr x ↦ cc x.3 ])
handler-KeepsWord peer unset (users n) =
    nothing_owed _ _ (λ b m h. elim h [ inl x ↦ cc x.2 | inr x ↦ cc x.3 ])
handler-KeepsWord peer unset (message a b m) =
    then_ret (SentBy (record { peer = peer; unset = unset; request = message a b m }))
      (f_send unset a b m) _
      (f_send-KeepsWord (SentBy (record { peer = peer; unset = unset; request = message a b m }))
        unset a b m (λ b' k h. elim h [ inl (a', text, e, s) ↦ (cc, cc) | inr x ↦ cc x.3 ]))
handler-KeepsWord peer unset (attach a b m f) =
    then_ret (SentBy (record { peer = peer; unset = unset; request = attach a b m f }))
      (f_sendattach unset a b m f) _
      (f_sendattach-KeepsWord
        (SentBy (record { peer = peer; unset = unset; request = attach a b m f })) unset a b m f
        (λ b' k h. elim h [ inl x ↦ cc x.2 | inr (a', text, g, e, s) ↦ (cc, cc) ]))

-- What the client of each thread has been told is still to be stored, or holds in the sense of `W`.
unfoldable Paying : Threads → List Arrival → List Log → (Bytes → PendingMsg → Type 0) → Type 0
Paying [] xs ls W = Unit
Paying (p ∷ ts) [] ls W = ⊥
Paying (p ∷ ts) (x ∷ xs) [] W = ⊥
Paying (p ∷ ts) (x ∷ xs) (l ∷ ls) W =
    KeepsWord (SentBy x) p
    × ((b : Bytes) (m : PendingMsg) → SentBy x b m → Told l m.id → WillStore b m p ⊎ W b m)
    × Paying ts xs ls W

threads-Paying :
    (W : Bytes → PendingMsg → Type 0) (xs : List Arrival)
    → All IsReadable xs
    → Paying (map thread xs) xs (silent xs) W
unfolding thread Paying
threads-Paying W [] h = tt
threads-Paying W (x ∷ xs) h = (
  rw (tratar_peticion-encode x.peer x.unset x.request h.0)
      (handler-KeepsWord x.peer x.unset x.request),
  λ b m s t. elim t [ ],
  threads-Paying W xs h.1,
)

named_now :
    (x : Arrival) (l : Log) (e : Event) (p : Prog Bool) (W : Bytes → PendingMsg → Type 0)
    → KeepsWord (SentBy x) (emit e p)
    → ((b : Bytes) (m : PendingMsg) → SentBy x b m → Told l m.id → WillStore b m (emit e p) ⊎ W b m)
    → (b : Bytes) (m : PendingMsg) → SentBy x b m
    → Told (e ∷ l) m.id
    → WillStore b m p ⊎ W b m
unfolding KeepsWord WillStore
named_now x l (reply s) p W k old b m q (Memᴰ.head e) = inl (k.0 b m (cc e) q)
named_now x l (reply s) p W k old b m q (Memᴰ.tail t) = elim (old b m q t) [
  | inl y ↦ absurd y
  | inr y ↦ inr y
]
named_now x l (push ip port strings) p W k old b m q (Memᴰ.head e) = cc e
named_now x l (push ip port strings) p W k old b m q (Memᴰ.tail t) = old b m q t
named_now x l (rpc user operation file) p W k old b m q (Memᴰ.head e) = cc e
named_now x l (rpc user operation file) p W k old b m q (Memᴰ.tail t) = old b m q t
named_now x l (console line) p W k old b m q (Memᴰ.head e) = cc e
named_now x l (console line) p W k old b m q (Memᴰ.tail t) = old b m q t

keeps_on :
    (e : Event) (p : Prog Bool) (Q : Bytes → PendingMsg → Type 0)
    → KeepsWord Q (emit e p)
    → KeepsWord Q p
unfolding KeepsWord
keeps_on (reply s) p Q h = h.1
keeps_on (push ip port strings) p Q h = h
keeps_on (rpc user operation file) p Q h = h
keeps_on (console line) p Q h = h

module _ (W V : Bytes → PendingMsg → Type 0)
    (stay : (b : Bytes) (m : PendingMsg) → W b m → V b m) where
  kept :
      (x : Arrival) (l : Log) (p : Prog Bool)
      → ((b : Bytes) (m : PendingMsg) → SentBy x b m → Told l m.id → WillStore b m p ⊎ W b m)
      → (b : Bytes) (m : PendingMsg) → SentBy x b m
      → Told l m.id
      → WillStore b m p ⊎ V b m
  kept x l p old b m q t = elim (old b m q t) [ inl y ↦ inl y | inr y ↦ inr (stay b m y) ]

  all_kept :
      (ts : Threads) (xs : List Arrival) (ls : List Log) → Paying ts xs ls W → Paying ts xs ls V
  unfolding Paying
  all_kept [] xs ls h = tt
  all_kept (p ∷ ts) [] ls h = h
  all_kept (p ∷ ts) (x ∷ xs) [] h = h
  all_kept (p ∷ ts) (x ∷ xs) (l ∷ ls) h = (h.0, kept x l p h.1, all_kept ts xs ls h.2)

  Step-Paying :
      {r : Refusals} {ts ts' : Threads} {d d' : Disk} (s : Step r ts d ts' d') (xs : List Arrival)
      (ls : List Log)
      → AllMail r
      → ((b : Bytes) (m : PendingMsg) → Memᴰ m (mailbox d' b) → V b m)
      → Paying ts xs ls W
      → Paying ts' xs (sent s ls) V
  unfolding Paying sent KeepsWord WillStore
  Step-Paying acts [] ls a new h = absurd h
  Step-Paying acts (x ∷ xs) [] a new h = absurd h
  Step-Paying {r} {d = d} (acts {ts = ts}) (x ∷ xs) (l ∷ ls) a new h = (
    h.0 r d a,
    λ b m q t. elim (h.1 b m q t) [ inl y ↦ inr (new b m (y r d a)) | inr y ↦ inr (stay b m y) ],
    all_kept ts xs ls h.2,
  )
  Step-Paying sends [] ls a new h = absurd h
  Step-Paying sends (x ∷ xs) [] a new h = absurd h
  Step-Paying (sends {e = e} {p = p} {ts = ts}) (x ∷ xs) (l ∷ ls) a new h = (
    keeps_on e p (SentBy x) h.0,
    kept x (e ∷ l) p (named_now x l e p W h.0 h.1),
    all_kept ts xs ls h.2,
  )
  Step-Paying (tries b) [] ls a new h = absurd h
  Step-Paying (tries b) (x ∷ xs) [] a new h = absurd h
  Step-Paying (tries {ts = ts} b) (x ∷ xs) (l ∷ ls) a new h = (
    h.0 b,
    λ n m q t. elim (h.1 n m q t) [ inl y ↦ absurd y | inr y ↦ inr (stay n m y) ],
    all_kept ts xs ls h.2,
  )
  Step-Paying (passes s) [] ls a new h = absurd h
  Step-Paying (passes s) (x ∷ xs) [] a new h = absurd h
  Step-Paying (passes {p = p} s) (x ∷ xs) (l ∷ ls) a new h =
      (h.0, kept x l p h.1, Step-Paying s xs ls a new h.2)

-- The message is in the file, or gone from it as it may be.
abbrev Accounted : Disk → List Arrival → List Log → Bytes → PendingMsg → Type 0
Accounted d xs ls b m = Memᴰ m (mailbox d b) ⊎ Gone xs ls b m.id

Steps-Paying :
    {ts ts' : Threads} {d d' : Disk} (s : Steps AllMail ts d ts' d') (xs : List Arrival)
    (ls : List Log)
    → Serving ts xs ls
    → Paying ts xs ls (Accounted d xs ls)
    → Paying ts' xs (logs s ls) (Accounted d' xs (logs s ls))
unfolding logs
Steps-Paying start xs ls h k = k
Steps-Paying (after {d' = e} {d'' = f} r a s x) xs ls h k =
    let serving = Steps-Serving s xs ls h in
    Step-Paying (Accounted e xs (logs s ls)) (Accounted f xs (sent x (logs s ls)))
      (λ b m w. elim w [
        | inl y ↦
            elim (Changes-keeps xs (logs s ls) e f b m (Step-Serving x xs (logs s ls) a serving).1
              y) [ inl z ↦ inl z | inr z ↦ inr (Gone-grows x xs (logs s ls) b m.id z) ]
        | inr y ↦ inr (Gone-grows x xs (logs s ls) b m.id y)
      ])
      x xs (logs s ls) a (λ b m y. inl y) (Steps-Paying s xs ls h k)

returned :
    (W : Bytes → PendingMsg → Type 0) (x : Arrival) (l : Log) (c : Bool) (b : Bytes)
    (m : PendingMsg) {ts : Threads} {xs : List Arrival} {ls : List Log}
    → At x l (ret c) ts xs ls
    → Paying ts xs ls W
    → SentBy x b m
    → Told l m.id
    → W b m
unfolding Paying WillStore
returned W x l c b m here h q t = elim (h.1 b m q t) [ inl y ↦ absurd y | inr y ↦ y ]
returned W x l c b m (there a) h q t = returned W x l c b m a h.2 q t

-- Any number of threads serve requests, each with strings of at most 254 bytes without a zero byte;
-- their steps are interleaved in any order, and no message file is ever refused. Where the thread of a
-- SEND or a SENDATTACH has returned and a reply to its client is the decimal id of a message to b that
-- the request makes: that message, with its strings cut to 255 bytes, is in the file of b, or a thread
-- that delivers to b, for a CONNECT of b or a SEND or SENDATTACH to b, has sent a message with that id
-- to a listener, or an UNREGISTER of b is among the requests.
pub promise_kept :
    (xs : List Arrival) {ts : Threads} {d e : Disk} (s : Steps AllMail (map thread xs) d ts e)
    (x : Arrival) (l : Log) (c : Bool) (b : Bytes) (m : PendingMsg)
    → All IsReadable xs
    → At x l (ret c) ts xs (logs s (silent xs))
    → SentBy x b m
    → Told l m.id
    → Memᴰ m (mailbox e b) ⊎ Gone xs (logs s (silent xs)) b m.id
promise_kept xs {d = d} {e = e} s x l c b m h a q t =
    returned (Accounted e xs (logs s (silent xs))) x l c b m a
      (Steps-Paying s xs (silent xs) (threads-Serving xs h)
        (threads-Paying (Accounted d xs (silent xs)) xs h))
      q t
