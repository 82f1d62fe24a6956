-- ===== src/Examples/Told.antt =====
-- ana sends luis, who is offline, a message: the whole run of her thread, up to its return.
use mathlib.Core.List.{Memᴰ}
use messaging_service.Prelude.{
  ℕ, Bool, false, ◌≡◌, ◌⊎◌, refl, ap, sym, subst, inl, none, List, [], ◌∷◌, ◌++◌, map, codes,
  if◌then◌else◌, ◌==◌, not,
}
use messaging_service.Text.Chars.{streq}
use messaging_service.Text.Decimal.{print_unsigned}
use messaging_service.Users.Table.{lookup}
use messaging_service.Disk.{Disk, Refusals}
use messaging_service.Database.Prepare.{Prepared, db_prepare_message}
use messaging_service.Database.Prepare.Refinement.{Answers, db_prepare_message-Answers}
use messaging_service.Database.Mail.{pending_msg, db_store_message}
use messaging_service.Database.Mail.Laws.{mailbox}
use messaging_service.Program.{
  Event, Prog, ret, emit, atomic, reply, rpc, console, ◌>>=◌, ◌>>◌, send, call, reach,
}
use messaging_service.Program.Mail.{Log, AllMail}
use messaging_service.Handlers.Delivery.{
  port_of, drop_user, deliver, f_send, send_reply, forward, stored, stored_line,
}
use messaging_service.Requests.Reading.{handler, tratar_peticion-encode}
use messaging_service.Server.{acts, sends, Steps, start, after}
use messaging_service.Server.Arrivals.{thread}
use messaging_service.Server.Mail.{sent, logs, SentBy}
use messaging_service.Server.Mail.Requests.{silent}
use messaging_service.Server.Mail.Kept.{Gone}
use messaging_service.Server.Mail.Promises.{At, here, promise_kept}
use messaging_service.Examples.World
use messaging_service.Examples.World.{ana, luis, people, calm, calm-UsersAllowed, start-Represents}
use messaging_service.Examples.Mail.{sender, sender-IsReadable, calm-AllMail}

-- One thread has come from `p` to `q` and has sent `l`.
Reached : Prog Bool → Prog Bool → Disk → Log → Type 0
Reached p q e l = (s : Steps AllMail (p ∷ []) World.start (q ∷ []) e) × (logs s ([] ∷ []) ≡ l ∷ [])

module _ (p : Prog Bool) where
  unmoved : Reached p p World.start []
  unfolding Reached logs
  unmoved = (start, refl)

  by_equation :
      (q q' : Prog Bool) (e : Disk) (l : Log) → q ≡ q' → Reached p q e l → Reached p q' e l
  by_equation q q' e l h r = subst (λ x. Reached p x e l) h r

  by_act :
      (act : Refusals → Disk → Disk) (k : Refusals → Disk → Prog Bool) (e : Disk) (l : Log)
      → Reached p (atomic act k) e l
      → Reached p (k calm e) (act calm e) l
  unfolding Reached logs sent
  by_act act k e l r = (after calm calm-AllMail r.0 acts, r.1)

  by_send :
      (v : Event) (q : Prog Bool) (e : Disk) (l : Log)
      → Reached p (emit v q) e l
      → Reached p q e (v ∷ l)
  unfolding Reached logs sent
  by_send v q e l r = (
    after calm calm-AllMail r.0 sends,
    ap (sent {r = calm} {d = e} (sends {e = v} {p = q} {ts = []})) r.1,
  )

abbrev prepared : ℕ × Prepared × Disk
prepared = db_prepare_message calm (codes "ana") (codes "luis") sender.unset World.start

answers : Answers prepared ana luis
unfolding lookup streq
answers =
    db_prepare_message-Answers calm (codes "ana") (codes "luis") sender.unset World.start people ana
      luis calm-UsersAllowed start-Represents refl refl

abbrev id : ℕ
id = prepared.1.msg_id

abbrev refused : Prog (Unit {0})
refused = send (console (codes "s> SEND FAIL\n")) >> send (rpc (codes "ana") (codes "SEND") [])

abbrev taken : Prog (Unit {0})
taken = do
  send (reply (print_unsigned id ++ 0 ∷ []))
  send (rpc (codes "ana") (codes "SEND") [])
  code ← call (λ r d. db_store_message r (codes "luis") (codes "ana") id (codes "hi") none d)
  forward (codes "ana") (codes "luis") (codes "hi") none prepared.1

-- The rest of the thread behind the first reply, by the result of db_prepare_message.
abbrev behind_reply : ℕ → Prog Bool
behind_reply res = (if not (res == 0) then refused else taken) >>= λ u. ret false

-- What follows the storing, by whether the receiver is connected.
abbrev forward_by : ℕ → Prog (Unit {0})
forward_by c =
    if c == 1
    then reach prepared.1.recv_ip (port_of prepared.1.recv_port) (λ reached.
      if reached
      then deliver prepared.1.recv_ip prepared.1.recv_port (codes "luis") (codes "ana") id
          (codes "hi") none
      else (drop_user (codes "luis") >> stored (codes "luis") (codes "ana") id))
    else stored (codes "luis") (codes "ana") id

abbrev final_disk : Disk
final_disk = (db_store_message calm (codes "luis") (codes "ana") id (codes "hi") none prepared.2).1

replied :
    Reached (thread sender) (behind_reply prepared.0) prepared.2 (reply (prepared.0 ∷ []) ∷ [])
unfolding handler f_send send_reply thread
replied = by_send (thread sender) (reply (prepared.0 ∷ [])) _ _ _ (
    by_act (thread sender) _ _ _ _ (
      by_equation (thread sender) _ (handler sender.peer sender.unset sender.request) World.start []
        (tratar_peticion-encode sender.peer sender.unset sender.request sender-IsReadable.0)
        (unmoved (thread sender))))

abbrev word : List Event
word =
    console (stored_line (print_unsigned id) (codes "ana") (codes "luis"))
    ∷ rpc (codes "ana") (codes "SEND") []
    ∷ reply (print_unsigned id ++ 0 ∷ [])
    ∷ reply (prepared.0 ∷ [])
    ∷ []

stored_by_now : Reached (thread sender) (ret false) final_disk word
unfolding forward stored
stored_by_now = by_send (thread sender) _ _ _ _ (
    by_equation (thread sender) _ _ _ _
      (ap (λ c. forward_by c >>= λ u. ret false) answers.connected)
      (by_act (thread sender) _ _ _ _ (
        by_send (thread sender) _ _ _ _ (
          by_send (thread sender) _ _ _ _
            (by_equation (thread sender) _ _ _ _ (ap behind_reply answers.code) replied)))))

whole_run : Steps AllMail (map thread (sender ∷ [])) World.start (ret false ∷ []) final_disk
unfolding Reached
whole_run = stored_by_now.0

whole_run-said : logs whole_run (silent (sender ∷ [])) ≡ word ∷ []
unfolding Reached whole_run
whole_run-said = stored_by_now.1

promise_kept_example :
    Memᴰ (pending_msg (codes "ana") id (codes "hi") none) (mailbox final_disk (codes "luis"))
    ⊎ Gone (sender ∷ []) (logs whole_run (silent (sender ∷ []))) (codes "luis") id
unfolding SentBy pending_msg
promise_kept_example =
    promise_kept (sender ∷ []) whole_run sender word false (codes "luis")
      (pending_msg (codes "ana") id (codes "hi") none) sender-IsReadable
      (subst (At sender word (ret false) (ret false ∷ []) (sender ∷ [])) (sym whole_run-said) here)
      (inl (codes "ana", codes "hi", refl, refl)) (Memᴰ.tail (Memᴰ.tail (Memᴰ.head refl)))
