-- ===== src/Sockets.antt =====
-- server/src/c_files/comunicaciones.c. What a socket still delivers is a list of bytes; behind its end
-- `read` returns 0 or -1.
pub mod Fields
pub mod Transfer
use messaging_service.Prelude.{
  ℕ, zero, suc, ◌+◌, ◌-◌, Bool, true, false, Option, none, some, List, [], ◌∷◌, ◌++◌, Bytes,
  if◌then◌else◌, ◌==◌, length, leb, ltb, take, drop,
}

-- What stands in a buffer before its first terminating zero.
unfoldable pub c_string : Bytes → Bytes
c_string [] = []
c_string (c ∷ s) = if c == 0 then [] else c ∷ c_string s

cons_read : ℕ → Option (Bytes × Bytes) → Option (Bytes × Bytes)
cons_read c none = none
cons_read c (some (buffer, rest)) = some (c ∷ buffer, rest)

-- The loop of leer_cadena with room for `room` bytes: the bytes read, and what is left in the socket.
leer_rounds : ℕ → Bytes → Option (Bytes × Bytes)
unfolding cons_read
leer_rounds zero s = some ([], s)
leer_rounds (suc room) [] = none
leer_rounds (suc room) (c ∷ s) =
    let more = cons_read c (leer_rounds room s) in if c == 0 then some (c ∷ [], s) else more

-- A string that leer_cadena has read: the text in the buffer, the result `leidos`, what is left.
pub record Leida : Type 0 where
  pub text : Bytes
  pub leidos : ℕ
  pub rest : Bytes

leida : Option (Bytes × Bytes) → Option Leida
unfolding c_string
leida none = none
leida (some (buffer, rest)) =
    some (record { text = c_string buffer; leidos = length buffer; rest = rest })

-- `none` is the result -1.
unfoldable pub leer_cadena : Bytes → ℕ → Option Leida
unfolding leida leer_rounds
leer_cadena s max_len = leida (leer_rounds (max_len - 1) s)

-- What one call of `write` returns: how many bytes it has taken, at most as many as it was given, or -1.
pub data Transferred : Type 0 where
  bytes : ℕ → Transferred
  failure : Transferred

-- How a transfer loop ends: with 0, with -1, or not within the calls that are listed.
pub data Ending : Type 0 where
  done : Ending
  failed : Ending
  waiting : Ending

-- `do { r = write(socket, buffer, l); l = l - r; buffer = buffer + r; } while ((l > 0) && (r >= 0))`
-- over the results of the calls, and the bytes that they have written.
unfoldable pub send_loop : ℕ → Bytes → List Transferred → Ending × Bytes
send_loop l buffer [] = (waiting, [])
send_loop l buffer (failure ∷ calls) = (failed, [])
send_loop l buffer (bytes r ∷ calls) =
    let rest = send_loop (l - r) (drop r buffer) calls in
    if ltb 0 (l - r) then (rest.0, take r buffer ++ rest.1) else (done, take r buffer)

unfoldable pub send_message : Bytes → ℕ → List Transferred → Ending × Bytes
unfolding send_loop
send_message buffer len calls = send_loop len buffer calls

-- What one call of `read` returns: bytes, none of them at the end of the stream, or -1.
pub data Received : Type 0 where
  chunk : Bytes → Received
  broken : Received

-- The bytes are stored in the buffer from this place on.
overwrite : ℕ → Bytes → Bytes → Bytes
overwrite offset s buffer = take offset buffer ++ s ++ drop (offset + length s) buffer

-- The same loop with `read`: `buffer` has moved on by `offset`. The result, and the whole buffer.
unfoldable pub recv_loop : ℕ → ℕ → Bytes → List Received → Ending × Bytes
unfolding overwrite
recv_loop l offset buffer [] = (waiting, buffer)
recv_loop l offset buffer (broken ∷ calls) = (failed, buffer)
recv_loop l offset buffer (chunk s ∷ calls) =
    let rest = recv_loop (l - length s) (offset + length s) (overwrite offset s buffer) calls in
    if ltb 0 (l - length s) then rest else (done, overwrite offset s buffer)

unfoldable pub recv_message : Bytes → ℕ → List Received → Ending × Bytes
unfolding recv_loop
recv_message buffer len calls = recv_loop len 0 buffer calls
