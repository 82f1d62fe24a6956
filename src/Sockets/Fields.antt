-- ===== src/Sockets/Fields.antt =====
-- leer_cadena on a string that a client has sent with its terminating zero.
use messaging_service.Prelude.{
  ℕ, zero, suc, ◌+◌, ◌-◌, ◌≤◌, ◌<◌, ◌≡◌, refl, ap, false, some, [], ◌∷◌, ◌++◌, Bytes, ◌==◌, All,
  arith, length, length-append,
}
use messaging_service.Sockets.{c_string, leer_rounds, leer_cadena, leida}

-- No terminating zero inside the string.
abbrev pub IsText : Bytes → Type 0
IsText = All (λ c. c == 0 ≡ false)

leer_rounds_fits :
    (room : ℕ) (s rest : Bytes)
    → IsText s
    → length s < room
    → leer_rounds room (s ++ 0 ∷ rest) ≡ some (s ++ 0 ∷ [], rest)
unfolding leer_rounds
leer_rounds_fits zero s rest t h = absurd (omega arith)
leer_rounds_fits (suc room) [] rest t h = refl
leer_rounds_fits (suc room) (c ∷ s) rest t h =
    rw t.0 (rw (leer_rounds_fits room s rest t.1 (omega arith)))

leer_rounds_full : (s rest : Bytes) → IsText s → leer_rounds (length s) (s ++ rest) ≡ some (s, rest)
unfolding leer_rounds
leer_rounds_full [] rest t = refl
leer_rounds_full (c ∷ s) rest t = rw t.0 (rw (leer_rounds_full s rest t.1))

c_string-zero : (s : Bytes) → IsText s → c_string (s ++ 0 ∷ []) ≡ s
unfolding c_string
c_string-zero [] t = refl
c_string-zero (c ∷ s) t = rw t.0 (ap (λ r. c ∷ r) (c_string-zero s t.1))

c_string-IsText : (s : Bytes) → IsText s → c_string s ≡ s
unfolding c_string
c_string-IsText [] t = refl
c_string-IsText (c ∷ s) t = rw t.0 (ap (λ r. c ∷ r) (c_string-IsText s t.1))

-- A string without a zero byte, at least 2 bytes shorter than the buffer, is read by leer_cadena with
-- its terminating zero, and what follows is left.
pub leer_cadena_whole :
    (s rest : Bytes) (max_len : ℕ)
    → IsText s
    → length s + 2 ≤ max_len
    → leer_cadena (s ++ 0 ∷ rest) max_len
      ≡ some (record { text = s; leidos = length s + 1; rest = rest })
unfolding leer_cadena leida
leer_cadena_whole s rest max_len t h =
    rw (leer_rounds_fits (max_len - 1) s rest t (omega arith))
      (rw (c_string-zero s t) (ground (arith, length-append s (0 ∷ []))))

zero_first :
    (room : ℕ) (rest : Bytes) → 0 < room → leer_rounds room (0 ∷ rest) ≡ some (0 ∷ [], rest)
unfolding leer_rounds
zero_first zero rest h = absurd (omega arith)
zero_first (suc room) rest h = refl

-- A string without a zero byte, not empty and one byte shorter than the buffer, is read by leer_cadena
-- without its terminating zero, which stays in the socket: the next call reads the empty string.
pub leer_cadena_full :
    (s rest : Bytes) (max_len : ℕ)
    → IsText s
    → length s + 1 ≡ max_len
    → 0 < length s
    → (leer_cadena (s ++ 0 ∷ rest) max_len
        ≡ some (record { text = s; leidos = length s; rest = 0 ∷ rest }))
      × (leer_cadena (0 ∷ rest) max_len ≡ some (record { text = []; leidos = 1; rest = rest }))
unfolding leer_cadena leida
leer_cadena_full s rest max_len t e h =
    let n : max_len - 1 ≡ length s = omega arith in
    (
      rw n (rw (leer_rounds_full s (0 ∷ rest) t) (rw (c_string-IsText s t))),
      rw n (rw (zero_first (length s) rest h) (unfold c_string in refl)),
    )
