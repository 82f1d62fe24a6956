-- ===== src/Sockets/Transfer.antt =====
-- When the transfer loops end, and what they have written then.
use mathlib.Core.List.{Memᴰ}
use messaging_service.Prelude.{
  ℕ, zero, suc, ◌+◌, ◌-◌, ◌<◌, ◌≡◌, ◌⊎◌, inl, inr, refl, ap, sym, subst, ◌∙◌, true, List, [], ◌∷◌,
  ◌++◌, Bytes, arith, length, length-append, ltb, take, drop, take-drop, length-drop, length-take,
  take_whole, append_assoc, Bool-cases,
}
use messaging_service.Sockets.{
  Transferred, bytes, failure, Received, chunk, Ending, done, failed, waiting, send_loop,
  send_message, recv_loop, recv_message,
}

-- How many bytes the calls of a list write, up to a failure.
unfoldable pub total : List Transferred → ℕ
total [] = 0
total (failure ∷ calls) = 0
total (bytes r ∷ calls) = r + total calls

-- With the result 0 all of the message has been written. With -1 a call has failed, behind a first part
-- of the message. Otherwise the calls have written a first part and no more, and not the whole unless
-- there was no call.
unfoldable pub Sent : Bytes → List Transferred → Ending × Bytes → Type 0
Sent s calls (done, w) = w ≡ s
Sent s calls (failed, w) = ((unsent : Bytes) × (s ≡ w ++ unsent)) × Memᴰ failure calls
Sent s calls (waiting, w) =
    (unsent : Bytes) × (s ≡ w ++ unsent)
    × (length w ≡ total calls)
    × ((0 < length unsent) ⊎ (calls ≡ []))

further :
    (s : Bytes) (r : ℕ) (calls : List Transferred) (t : Ending × Bytes)
    → r < length s
    → Sent (drop r s) calls t
    → Sent s (bytes r ∷ calls) (t.0, take r s ++ t.1)
unfolding Sent total
further s r calls (done, w) h k = ap (λ x. take r s ++ x) k ∙ sym (take-drop r s)
further s r calls (failed, w) h ((u, e), f) = (
  (u, take-drop r s ∙ ap (λ x. take r s ++ x) e ∙ sym (append_assoc (take r s) w u)),
  Memᴰ.tail f,
)
further s r calls (waiting, w) h (u, e, n, more) = (
  u,
  take-drop r s ∙ ap (λ x. take r s ++ x) e ∙ sym (append_assoc (take r s) w u),
  omega (arith, n, length-append (take r s) w, length-take r s (omega arith)),
  inl (elim more [
    | inl p ↦ p
    | inr p ↦ omega (arith, n, ap total p, ap length e, length-append w u, length-drop r s)
  ]),
)

send_loop-Sent :
    (s : Bytes) (calls : List Transferred) → Sent s calls (send_loop (length s) s calls)
unfolding send_loop Sent total
send_loop-Sent s [] = (s, refl, refl, inr refl)
send_loop-Sent s (failure ∷ calls) = ((s, refl), Memᴰ.head refl)
send_loop-Sent s (bytes r ∷ calls) = elim (Bool-cases (ltb 0 (length s - r))) [
  | inl e ↦ rw e (
      further s r calls (send_loop (length s - r) (drop r s) calls) (ground arith) (
        subst (λ l. Sent (drop r s) calls (send_loop l (drop r s) calls)) (length-drop r s)
          (send_loop-Sent (drop r s) calls)))
  | inr e ↦ rw e (take_whole r s (ground arith))
]

-- sendMessage of a message with its length, whatever its calls of `write` return: where it returns 0,
-- what the calls have written is the message; where it returns -1, a call has failed, and what has
-- been written is a first part of the message; where it has not returned after the calls, they have
-- written a first part of the message, as many bytes as they returned, and bytes are left to write or
-- there was no call.
pub send_message-Sent :
    (s : Bytes) (calls : List Transferred) → Sent s calls (send_message s (length s) calls)
unfolding send_message
send_message-Sent s calls = send_loop-Sent s calls

-- `k` calls of `read` that return 0, the end of the stream.
at_end : ℕ → List Received
at_end zero = []
at_end (suc k) = chunk [] ∷ at_end k

positive : (len : ℕ) → 0 < len → ltb 0 len ≡ true
positive len h = ground arith

recv_loop_spins :
    (len k : ℕ) (offset : ℕ) (buffer : Bytes)
    → 0 < len
    → (recv_loop len offset buffer (at_end k)).0 ≡ waiting
unfolding recv_loop at_end
recv_loop_spins len zero offset buffer h = refl
recv_loop_spins len (suc k) offset buffer h =
    rw (positive (len - 0) (omega (arith, h)), recv_loop)
      (recv_loop_spins (len - 0) k (offset + 0) _ (omega (arith, h)))

-- Where each call of `read` returns 0 because the peer has closed the connection, recvMessage for a
-- message of at least one byte has not returned after any number of calls.
recv_message_spins :
    (len k : ℕ) (buffer : Bytes) → 0 < len → (recv_message buffer len (at_end k)).0 ≡ waiting
unfolding recv_message
recv_message_spins len k buffer h = recv_loop_spins len k 0 buffer h
