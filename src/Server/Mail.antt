-- ===== src/Server/Mail.antt =====
-- The threads of the server and the message files: what each thread has sent, and which changes of the
-- files its request and what it has sent allow.
pub mod Requests
pub mod Kept
pub mod Promises
pub mod Overtaken
pub mod Orphans
pub mod Late
use messaging_service.Prelude.{
  ℕ, ◌≡◌, ◌⊎◌, refl, inl, inr, Option, none, some, List, [], ◌∷◌, Bytes, map,
}
use messaging_service.Disk.{Disk, Refusals, PendingMsg}
use messaging_service.Database.Mail.{pending_msg}
use messaging_service.Database.Mail.Laws.{mailbox}
use messaging_service.Database.Mail.Commands.{MailCommand, stores, deletes, removes, Changes}
use messaging_service.Program.{Event}
use messaging_service.Program.Mail.{Log, AllMail, KeepsMail, same_files}
use messaging_service.Handlers.Delivery.Mail.{Handed, Told}
use messaging_service.Requests.Reading.{unregister, connect, message, attach}
use messaging_service.Server.{Threads, Step, acts, sends, tries, passes, Steps, start, after}
use messaging_service.Server.Arrivals.{Arrival}

-- What each thread has sent behind a step, and behind any number of steps.
unfoldable pub sent :
    {r : Refusals} {ts ts' : Threads} {d d' : Disk} → Step r ts d ts' d' → List Log → List Log
sent acts ls = ls
sent (sends {e = e}) [] = []
sent (sends {e = e}) (l ∷ ls) = (e ∷ l) ∷ ls
sent (tries b) ls = ls
sent (passes s) [] = []
sent (passes s) (l ∷ ls) = l ∷ sent s ls

unfoldable pub logs :
    {A : Refusals → Type 0} {ts ts' : Threads} {d d' : Disk}
    → Steps A ts d ts' d'
    → List Log
    → List Log
unfolding sent
logs start ls = ls
logs (after r a s x) ls = sent x (logs s ls)

-- The thread hands the messages of `b` over: CONNECT of `b`, or a message to `b`.
unfoldable pub DeliversTo : Arrival → Bytes → Type 0
DeliversTo x b =
    ((port : Bytes) × (x.request ≡ connect b port))
    ⊎ ((a : Bytes) × (text : Bytes) × (x.request ≡ message a b text))
    ⊎ ((a : Bytes) × (text : Bytes) × (f : Bytes) × (x.request ≡ attach a b text f))

-- The struct is made from the request of the thread, which sends it to `b`.
unfoldable pub SentBy : Arrival → Bytes → PendingMsg → Type 0
SentBy x b m =
    ((a : Bytes) × (text : Bytes) × (x.request ≡ message a b text)
      × (m ≡ pending_msg a m.id text none))
    ⊎ ((a : Bytes) × (text : Bytes) × (f : Bytes) × (x.request ≡ attach a b text f)
        × (m ≡ pending_msg a m.id text (some f)))

-- A thread stores the message of its request with an id that it has told its client, deletes by an id
-- that it has sent to a listener, and removes the file of a user for UNREGISTER alone.
unfoldable pub Permits : Arrival → Log → MailCommand → Type 0
Permits x l (stores b m) = Told l m.id × SentBy x b m
Permits x l (deletes b i) = DeliversTo x b × Handed l i
Permits x l (removes b) = x.request ≡ unregister b

-- A request and the log of its thread are so.
unfoldable pub OneOf : (Arrival → Log → Type 0) → List Arrival → List Log → Type 0
OneOf Q [] ls = ⊥
OneOf Q (x ∷ xs) [] = ⊥
OneOf Q (x ∷ xs) (l ∷ ls) = Q x l ⊎ OneOf Q xs ls

-- The threads go on with these requests, having sent this.
unfoldable pub Serving : Threads → List Arrival → List Log → Type 0
Serving [] xs ls = Unit
Serving (p ∷ ts) [] ls = ⊥
Serving (p ∷ ts) (x ∷ xs) [] = ⊥
Serving (p ∷ ts) (x ∷ xs) (l ∷ ls) = KeepsMail (Permits x) l p × Serving ts xs ls

abbrev pub ByOne : List Arrival → List Log → MailCommand → Type 0
ByOne xs ls c = OneOf (λ x l. Permits x l c) xs ls

later :
    (xs : List Arrival) (x : Arrival) (ls : List Log) (l : Log) (d e : Disk)
    → Changes (ByOne xs ls) d e
    → Changes (ByOne (x ∷ xs) (l ∷ ls)) d e
unfolding OneOf
later xs x ls l d e (inl h) = inl h
later xs x ls l d e (inr (c, q, h)) = inr (c, inr q, h)

pub Step-Serving :
    {r : Refusals} {ts ts' : Threads} {d d' : Disk} (s : Step r ts d ts' d') (xs : List Arrival)
    (ls : List Log)
    → AllMail r
    → Serving ts xs ls
    → Serving ts' xs (sent s ls) × Changes (ByOne xs ls) d d'
unfolding Serving OneOf sent KeepsMail
Step-Serving acts [] ls a h = absurd h
Step-Serving acts (x ∷ xs) [] a h = absurd h
Step-Serving {r} {d = d} acts (x ∷ xs) (l ∷ ls) a h =
    (((h.0 r d a).1, h.1), elim (h.0 r d a).0 [ inl e ↦ inl e | inr (c, q, e) ↦ inr (c, inl q, e) ])
Step-Serving sends [] ls a h = absurd h
Step-Serving sends (x ∷ xs) [] a h = absurd h
Step-Serving {d = d} sends (x ∷ xs) (l ∷ ls) a h = (h, same_files d d refl)
Step-Serving (tries b) [] ls a h = absurd h
Step-Serving (tries b) (x ∷ xs) [] a h = absurd h
Step-Serving {d = d} (tries b) (x ∷ xs) (l ∷ ls) a h = ((h.0 b, h.1), same_files d d refl)
Step-Serving (passes s) [] ls a h = absurd h
Step-Serving (passes s) (x ∷ xs) [] a h = absurd h
Step-Serving {d = d} {d' = d'} (passes s) (x ∷ xs) (l ∷ ls) a h =
    let rest = Step-Serving s xs ls a h.1 in ((h.0, rest.0), later xs x ls l d d' rest.1)

-- What holds of a request and a log goes on to hold when the log grows.
module _ (Q : Arrival → Log → Type 0)
    (grows : (x : Arrival) (l : Log) (e : Event) → Q x l → Q x (e ∷ l)) where
  sent-OneOf :
      {r : Refusals} {ts ts' : Threads} {d d' : Disk} (s : Step r ts d ts' d') (xs : List Arrival)
      (ls : List Log)
      → OneOf Q xs ls
      → OneOf Q xs (sent s ls)
  unfolding OneOf sent
  sent-OneOf s [] ls h = absurd h
  sent-OneOf s (x ∷ xs) [] h = absurd h
  sent-OneOf acts (x ∷ xs) (l ∷ ls) h = h
  sent-OneOf (sends {e = e}) (x ∷ xs) (l ∷ ls) (inl h) = inl (grows x l e h)
  sent-OneOf sends (x ∷ xs) (l ∷ ls) (inr h) = inr h
  sent-OneOf (tries b) (x ∷ xs) (l ∷ ls) h = h
  sent-OneOf (passes s) (x ∷ xs) (l ∷ ls) (inl h) = inl h
  sent-OneOf (passes s) (x ∷ xs) (l ∷ ls) (inr h) = inr (sent-OneOf s xs ls h)
