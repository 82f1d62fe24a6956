-- ===== src/Server/Mail/Kept.antt =====
-- What becomes of a message in a file while threads serve any requests, and where it comes from.
use mathlib.Core.List.{Memᴰ}
use messaging_service.Prelude.{ℕ, ◌≡◌, sym, subst, ◌⊎◌, inl, inr, List, ◌∷◌, map, Bytes, All}
use messaging_service.Disk.{Disk, Refusals, PendingMsg}
use messaging_service.Database.Mail.Laws.{mailbox}
use messaging_service.Database.Mail.Commands.{
  MailCommand, stores, deletes, removes, Changes, command-keeps, command-origin,
}
use messaging_service.Program.{Event}
use messaging_service.Program.Mail.{Log, AllMail}
use messaging_service.Handlers.Delivery.Mail.{Handed, Told}
use messaging_service.Requests.Reading.{unregister}
use messaging_service.Server.{Threads, Step, Steps, start, after}
use messaging_service.Server.Arrivals.{Arrival, thread}
use messaging_service.Server.Mail.{
  sent, logs, DeliversTo, SentBy, Permits, OneOf, Serving, ByOne, Step-Serving, sent-OneOf,
}
use messaging_service.Server.Mail.Requests.{IsReadable, silent, threads-Serving}

-- A thread that delivers to `b` has sent a message with this id, or there is an UNREGISTER of `b`.
unfoldable pub Gone : List Arrival → List Log → Bytes → ℕ → Type 0
Gone xs ls b i =
    OneOf (λ x l. DeliversTo x b × Handed l i) xs ls ⊎ OneOf (λ x l. x.request ≡ unregister b) xs ls

Permits-grows :
    (c : MailCommand) (x : Arrival) (l : Log) (e : Event) → Permits x l c → Permits x (e ∷ l) c
unfolding Permits
Permits-grows (stores b m) x l e h = (Memᴰ.tail h.0, h.1)
Permits-grows (deletes b i) x l e h = (h.0, (h.1.0, h.1.1, h.1.2, h.1.3, h.1.4, Memᴰ.tail h.1.5))
Permits-grows (removes b) x l e h = h

module _ {r : Refusals} {ts ts' : Threads} {d d' : Disk} (s : Step r ts d ts' d')
    (xs : List Arrival) (ls : List Log) where
  ByOne-grows : (c : MailCommand) → ByOne xs ls c → ByOne xs (sent s ls) c
  ByOne-grows c h = sent-OneOf (λ x l. Permits x l c) (Permits-grows c) s xs ls h

  pub Gone-grows : (b : Bytes) (i : ℕ) → Gone xs ls b i → Gone xs (sent s ls) b i
  unfolding Gone Permits
  Gone-grows b i (inl h) = inl (ByOne-grows (deletes b i) h)
  Gone-grows b i (inr h) = inr (ByOne-grows (removes b) h)

pub Changes-keeps :
    (xs : List Arrival) (ls : List Log) (d e : Disk) (b : Bytes) (m : PendingMsg)
    → Changes (ByOne xs ls) d e
    → Memᴰ m (mailbox d b)
    → Memᴰ m (mailbox e b) ⊎ Gone xs ls b m.id
unfolding Gone Permits
Changes-keeps xs ls d e b m (inl h) k = inl (subst (Memᴰ m) (sym (h b)) k)
Changes-keeps xs ls d e b m (inr (c, q, h)) k = elim (command-keeps c (mailbox d) b m k) [
  | inl x ↦ inl (subst (Memᴰ m) (sym (h b)) x)
  | inr (inl x) ↦ inr (inl (subst (ByOne xs ls) x q))
  | inr (inr x) ↦ inr (inr (subst (ByOne xs ls) x q))
]

Changes-origin :
    (xs : List Arrival) (ls : List Log) (d e : Disk) (b : Bytes) (m : PendingMsg)
    → Changes (ByOne xs ls) d e
    → Memᴰ m (mailbox e b)
    → Memᴰ m (mailbox d b) ⊎ ByOne xs ls (stores b m)
Changes-origin xs ls d e b m (inl h) k = inl (subst (Memᴰ m) (h b) k)
Changes-origin xs ls d e b m (inr (c, q, h)) k =
    elim (command-origin c (mailbox d) b m (subst (Memᴰ m) (h b) k)) [
      | inl x ↦ inl x
      | inr x ↦ inr (subst (ByOne xs ls) x q)
    ]

pub Steps-Serving :
    {ts ts' : Threads} {d d' : Disk} (s : Steps AllMail ts d ts' d') (xs : List Arrival)
    (ls : List Log)
    → Serving ts xs ls
    → Serving ts' xs (logs s ls)
unfolding logs
Steps-Serving start xs ls h = h
Steps-Serving (after r a s x) xs ls h =
    (Step-Serving x xs (logs s ls) a (Steps-Serving s xs ls h)).0

stays :
    {ts ts' : Threads} {d d' : Disk} (s : Steps AllMail ts d ts' d') (xs : List Arrival)
    (ls : List Log) (b : Bytes) (m : PendingMsg)
    → Serving ts xs ls
    → Memᴰ m (mailbox d b)
    → Memᴰ m (mailbox d' b) ⊎ Gone xs (logs s ls) b m.id
unfolding logs
stays start xs ls b m h k = inl k
stays (after {d' = e} {d'' = f} r a s x) xs ls b m h k = elim (stays s xs ls b m h k) [
  | inl there ↦
      elim (Changes-keeps xs (logs s ls) e f b m
        (Step-Serving x xs (logs s ls) a (Steps-Serving s xs ls h)).1 there) [
          | inl y ↦ inl y
          | inr y ↦ inr (Gone-grows x xs (logs s ls) b m.id y)
        ]
  | inr gone ↦ inr (Gone-grows x xs (logs s ls) b m.id gone)
]

origin :
    {ts ts' : Threads} {d d' : Disk} (s : Steps AllMail ts d ts' d') (xs : List Arrival)
    (ls : List Log) (b : Bytes) (m : PendingMsg)
    → Serving ts xs ls
    → Memᴰ m (mailbox d' b)
    → Memᴰ m (mailbox d b) ⊎ ByOne xs (logs s ls) (stores b m)
unfolding logs
origin start xs ls b m h k = inl k
origin (after {d' = e} {d'' = f} r a s x) xs ls b m h k =
    elim (Changes-origin xs (logs s ls) e f b m
      (Step-Serving x xs (logs s ls) a (Steps-Serving s xs ls h)).1 k) [
        | inl y ↦ elim (origin s xs ls b m h y) [
          | inl z ↦ inl z
          | inr z ↦ inr (ByOne-grows x xs (logs s ls) (stores b m) z)
        ]
        | inr y ↦ inr (ByOne-grows x xs (logs s ls) (stores b m) y)
      ]

-- Any number of threads serve requests, each with strings of at most 254 bytes without a zero byte;
-- their steps are interleaved in any order, and no message file is ever refused. A message that is in
-- the file of b at some moment is in it at every later moment, or a thread that delivers to b, for a
-- CONNECT of b or a SEND or SENDATTACH to b, has sent a message with that id to a listener, or an
-- UNREGISTER of b is among the requests.
pub message_stays :
    (xs : List Arrival) {ts us : Threads} {d e f : Disk} (s : Steps AllMail (map thread xs) d ts e)
    (s' : Steps AllMail ts e us f) (b : Bytes) (m : PendingMsg)
    → All IsReadable xs
    → Memᴰ m (mailbox e b)
    → Memᴰ m (mailbox f b) ⊎ Gone xs (logs s' (logs s (silent xs))) b m.id
message_stays xs s s' b m h k =
    stays s' xs (logs s (silent xs)) b m (Steps-Serving s xs (silent xs) (threads-Serving xs h)) k

-- Any number of threads serve requests, each with strings of at most 254 bytes without a zero byte;
-- their steps are interleaved in any order, and no message file is ever refused. A message that is in
-- the file of b after any number of steps was in it at the start, or a SEND or SENDATTACH to b among
-- the requests makes it, with its strings cut to 255 bytes, and a reply to the client of that request
-- is the message's id in decimal.
pub message_comes_from :
    (xs : List Arrival) {ts : Threads} {d e : Disk} (s : Steps AllMail (map thread xs) d ts e)
    (b : Bytes) (m : PendingMsg)
    → All IsReadable xs
    → Memᴰ m (mailbox e b)
    → Memᴰ m (mailbox d b) ⊎ OneOf (λ x l. Told l m.id × SentBy x b m) xs (logs s (silent xs))
unfolding Permits
message_comes_from xs s b m h k = origin s xs (silent xs) b m (threads-Serving xs h) k
