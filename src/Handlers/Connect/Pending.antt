-- ===== src/Handlers/Connect/Pending.antt =====
-- The loop of f_connect over the pending messages: what goes to the user's listener and what is left
-- in the user's file.
use messaging_service.Prelude.{
  ℕ, suc, ◌≡◌, refl, ap, ◌∙◌, true, false, Option, none, some, inl, inr, List, [], ◌∷◌, map, Bytes,
  if◌then◌else◌, ◌==◌, arith, Bool-cases,
}
use messaging_service.Text.Chars.{streq}
use messaging_service.Text.Decimal.{print_unsigned}
use messaging_service.Disk.{Disk, PendingMsg, or_empty}
use messaging_service.Database.Mail.{db_delete_message}
use messaging_service.Database.Mail.Laws.{other_ids, mailbox, db_delete_message_keeps}
use messaging_service.Database.Online.{UserInfo, get_user_info}
use messaging_service.Program.{
  Prog, Outside, run, run-reach, run-bind, with_events, replies, pushes,
}
use messaging_service.Handlers.Delivery.{port_of, ack_strings, ack_to, acknowledge, deliver}
use messaging_service.Handlers.Delivery.Sending.{
  AlwaysMail, acknowledge-messages, acknowledge-replies,
}
use messaging_service.Handlers.Connect.{attachment, deliver_round, deliver_loop}
use messaging_service.Handlers.Connect.Sent.{
  messages_of, messages_of-append, pushes-append, replies-append, parcel,
  is_message-message_strings, is_message-ack_strings,
}

-- An acknowledgement sends no message.
ack_to-messages_of :
    (sender i : Bytes) (f : Option Bytes) (u : Option UserInfo) (o : ℕ → Outside) (k : ℕ) (d : Disk)
    → messages_of (pushes (run (ack_to sender (ack_strings i f) u) o k d).events) ≡ []
unfolding ack_to
ack_to-messages_of sender i f none o k d = unfold run pushes messages_of in refl
ack_to-messages_of sender i f (some u) o k d = elim (Bool-cases (u.connected == 1)) [
  | inl e ↦ rw e (elim (Bool-cases ((o k).reaches u.ip (port_of u.port))) [
    | inl r ↦ rw (run-reach _ _ _ o k d true r) (
        unfold run pushes messages_of in rw (is_message-ack_strings u.ip (port_of u.port) i f) refl)
    | inr r ↦ rw (run-reach _ _ _ o k d false r) (unfold run pushes messages_of in refl)
  ])
  | inr e ↦ rw e (unfold run pushes messages_of in refl)
]

module _ (o : ℕ → Outside) (n ip : Bytes) (port : ℕ) where
  abbrev pub delivery : PendingMsg → Prog (Unit {0})
  delivery m = deliver ip port n m.sender m.id m.message (attachment m)

  -- The disk behind the deletion.
  abbrev behind : PendingMsg → ℕ → Disk → Disk
  behind m i d = (db_delete_message (o i).refuses n m.id d).1

  pub delivery-parcel :
      (m : PendingMsg) (i : ℕ) (d : Disk)
      → messages_of (pushes (run (delivery m) o i d).events) ≡ parcel ip port m ∷ []
  unfolding deliver acknowledge run pushes messages_of parcel
  delivery-parcel m i d =
      rw
        (is_message-message_strings ip (port_of port) m.sender (print_unsigned m.id) m.message
          (attachment m))
        (ap (λ l. parcel ip port m ∷ l)
          (ack_to-messages_of m.sender (print_unsigned m.id) (attachment m)
            (get_user_info (o (suc i)).refuses m.sender (behind m i d)) o (suc (suc i))
            (behind m i d)))

  pub delivery-replies :
      (m : PendingMsg) (i : ℕ) (d : Disk) → replies (run (delivery m) o i d).events ≡ []
  unfolding deliver run replies
  delivery-replies m i d =
      acknowledge-replies m.sender (ack_strings (print_unsigned m.id) (attachment m)) o (suc i)
        (behind m i d)

  pub delivery-mailbox :
      (m : PendingMsg) (i : ℕ) (d : Disk) (j : Bytes)
      → AlwaysMail o n
      → mailbox (run (delivery m) o i d).disk j
        ≡ (if streq n j then other_ids m.id (mailbox d j) else mailbox d j)
  unfolding deliver run
  delivery-mailbox m i d j a =
      ap (λ files. or_empty (files j))
        (acknowledge-messages m.sender (ack_strings (print_unsigned m.id) (attachment m)) o (suc i)
          (behind m i d))
      ∙ (db_delete_message_keeps (o i).refuses n m.id d j (a.at_step i)).0

-- What is left of a file behind the deletion of all the ids of a list.
unfoldable pub without_ids : List PendingMsg → List PendingMsg → List PendingMsg
without_ids [] q = q
without_ids (m ∷ ms) q = without_ids ms (other_ids m.id q)

other_ids-other_ids :
    (i k : ℕ) (q : List PendingMsg) → other_ids i (other_ids k q) ≡ other_ids k (other_ids i q)
unfolding other_ids
other_ids-other_ids i k [] = refl
other_ids-other_ids i k (m ∷ q) = elim (Bool-cases (m.id == i)) [
  | inl a ↦ elim (Bool-cases (m.id == k)) [
    | inl b ↦ rw (a, b) (other_ids-other_ids i k q)
    | inr b ↦ rw (a, b) (rw a (other_ids-other_ids i k q))
  ]
  | inr a ↦ elim (Bool-cases (m.id == k)) [
    | inl b ↦ rw (a, b) (other_ids-other_ids i k q)
    | inr b ↦ rw (a, b) (rw a (ap (λ l. m ∷ l) (other_ids-other_ids i k q)))
  ]
]

without_ids-other_ids :
    (ms : List PendingMsg) (i : ℕ) (q : List PendingMsg)
    → without_ids ms (other_ids i q) ≡ other_ids i (without_ids ms q)
unfolding without_ids
without_ids-other_ids [] i q = refl
without_ids-other_ids (m ∷ ms) i q =
    ap (without_ids ms) (other_ids-other_ids m.id i q)
    ∙ without_ids-other_ids ms i (other_ids m.id q)

eq_self : (k : ℕ) → k == k ≡ true
eq_self k = ground arith

-- Nothing is left of the list itself.
pub without_ids_self : (ms : List PendingMsg) → without_ids ms ms ≡ []
unfolding without_ids other_ids
without_ids_self [] = refl
without_ids_self (m ∷ ms) =
    rw (eq_self m.id, other_ids)
      (without_ids-other_ids ms m.id ms ∙ ap (other_ids m.id) (without_ids_self ms))

-- The listener is reached at every step.
pub record AlwaysReached (o : ℕ → Outside) (ip : Bytes) (port : ℕ) : Type 0 where
  pub at_step : (i : ℕ) → (o i).reaches ip (port_of port) ≡ true

module _ (o : ℕ → Outside) (n ip : Bytes) (port : ℕ) (reached : AlwaysReached o ip port) where
  -- One round of the loop, and those that follow.
  deliver_loop-step :
      (m : PendingMsg) (ms : List PendingMsg) (i : ℕ) (d : Disk)
      → run (deliver_loop n ip port (m ∷ ms)) o i d ≡ (
          let x = run (delivery o n ip port m) o (suc i) d in
          with_events x.events (run (deliver_loop n ip port ms) o x.step x.disk))
  unfolding deliver_loop deliver_round
  deliver_loop-step m ms i d =
      run-reach _ _ _ o i d true (reached.at_step i)
      ∙ run-bind (delivery o n ip port m) (λ u. deliver_loop n ip port ms) o (suc i) d

  pub deliver_loop-replies :
      (ms : List PendingMsg) (i : ℕ) (d : Disk)
      → replies (run (deliver_loop n ip port ms) o i d).events ≡ []
  deliver_loop-replies [] i d = unfold deliver_loop run replies in refl
  deliver_loop-replies (m ∷ ms) i d = rw (deliver_loop-step m ms i d) (
      rw (replies-append (run (delivery o n ip port m) o (suc i) d).events _)
        (rw (delivery-replies o n ip port m (suc i) d) (deliver_loop-replies ms _ _)))

  pub deliver_loop-parcels :
      (ms : List PendingMsg) (i : ℕ) (d : Disk)
      → messages_of (pushes (run (deliver_loop n ip port ms) o i d).events)
        ≡ map (parcel ip port) ms
  deliver_loop-parcels [] i d = unfold deliver_loop run pushes messages_of in refl
  deliver_loop-parcels (m ∷ ms) i d = rw (deliver_loop-step m ms i d) (
      rw (pushes-append (run (delivery o n ip port m) o (suc i) d).events _) (
        rw (messages_of-append (pushes (run (delivery o n ip port m) o (suc i) d).events) _) (
          rw (delivery-parcel o n ip port m (suc i) d)
            (ap (λ l. parcel ip port m ∷ l) (deliver_loop-parcels ms _ _)))))

  pub deliver_loop-mailbox :
      (ms : List PendingMsg) (i : ℕ) (d : Disk) (j : Bytes)
      → AlwaysMail o n
      → mailbox (run (deliver_loop n ip port ms) o i d).disk j
        ≡ (if streq n j then without_ids ms (mailbox d j) else mailbox d j)
  deliver_loop-mailbox [] i d j a = unfold deliver_loop run without_ids in ground arith
  deliver_loop-mailbox (m ∷ ms) i d j a = elim (Bool-cases (streq n j)) [
    | inl e ↦ rw (deliver_loop-step m ms i d) (
        deliver_loop-mailbox ms _ _ j a
        ∙ rw (delivery-mailbox o n ip port m (suc i) d j a) (rw e (unfold without_ids in refl)))
    | inr e ↦ rw (deliver_loop-step m ms i d) (
        deliver_loop-mailbox ms _ _ j a
        ∙ rw (delivery-mailbox o n ip port m (suc i) d j a) (rw e refl))
  ]
