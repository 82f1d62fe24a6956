-- ===== src/Users.antt =====
-- The lines of usuarios.txt (server/src/c_files/database.c): one per user, written by `snprintf` and
-- read back by `read_line_sys` and `sscanf`, or by `fscanf` alone in `get_user_info` (funciones.c).
pub mod Lines
pub mod Laws
pub mod Table
pub mod Scanned
use messaging_service.Prelude.{
  ℕ, zero, suc, ◌-◌, Bool, true, false, Option, none, some, List, [], ◌∷◌, ◌++◌, Bytes, ◌==◌,
  if◌then◌else◌, length, ◌≡◌, refl, codes,
}
use messaging_service.Text.Decimal.{print_unsigned}
use messaging_service.Text.Scan.{scan_word, scan_int, scan_unsigned, print_int}

-- The five variables that a line is scanned into; `connected` and `port` are bit patterns of an `int`.
pub record User : Type 0 where
  pub name : Bytes
  pub connected : ℕ
  pub ip : Bytes
  pub port : ℕ
  pub last_id : ℕ

abbrev pub blank : ℕ
blank = 32

abbrev pub newline : ℕ
newline = 10

-- `snprintf(line_buf, sizeof(line_buf), "%s %d %s %d %u\n", name, connected, ip, port, last_id)`
unfoldable pub format_user : User → Bytes
format_user u =
    u.name
    ++ (blank
        ∷ (print_int u.connected
            ++ (blank
                ∷ (u.ip
                    ++ (blank
                        ∷ (print_int u.port
                            ++ (blank ∷ (print_unsigned u.last_id ++ (newline ∷ [])))))))))

infixl 5 ◌>>=◌
abbrev pub ◌>>=◌ {ℓ κ} : {A : Type ℓ} {B : Type κ} → Option A → (A → Option B) → Option B
none >>= f = none
some a >>= f = f a

-- `sscanf(line_buf, "%255s %d %19s %d %u", …) == 5`, with what follows the fifth field.
unfoldable pub scan_user : Bytes → Option (User × Bytes)
scan_user s = do
  (name, s) ← scan_word 255 s
  (connected, s) ← scan_int s
  (ip, s) ← scan_word 19 s
  (port, s) ← scan_int s
  (last_id, s) ← scan_unsigned s
  some (record { name = name; connected = connected; ip = ip; port = port; last_id = last_id }, s)

first : Option (User × Bytes) → Option User
first none = none
first (some (u, rest)) = some u

unfoldable pub sscanf_user : Bytes → Option User
unfolding first
sscanf_user line = first (scan_user line)

-- What the calls `read(fd, &c, 1)` return one after the other: a byte, 0 at the end, or -1.
pub data Input : Type 0 where
  end : Input
  failed : Input
  byte : ℕ → Input → Input

abbrev pub input_of : Bytes → Input
input_of [] = end
input_of (c ∷ s) = byte c (input_of s)

with_byte : ℕ → Option Bytes × Input → Option Bytes × Input
with_byte c (none, rest) = (none, rest)
with_byte c (some line, rest) = (some (c ∷ line), rest)

-- The loop of `read_line_sys`, with `room` bytes left in the buffer; `none` is the result -1.
read_rounds : ℕ → Input → Option Bytes × Input
unfolding with_byte
read_rounds zero s = (some [], s)
read_rounds (suc room) end = (some [], end)
read_rounds (suc room) failed = (none, failed)
read_rounds (suc room) (byte c s) =
    let more = with_byte c (read_rounds room s) in if c == newline then (some (c ∷ []), s) else more

unfoldable pub read_line_sys : ℕ → Input → Option Bytes × Input
unfolding read_rounds
read_line_sys max_len s = read_rounds (max_len - 1) s

-- `sizeof(line_buf)`
abbrev pub line_buf_size : ℕ
line_buf_size = 512

-- `while (read_line_sys(fd, line_buf, sizeof(line_buf)) > 0)`: the lines that the body sees.
lines_after : Option Bytes × Input → (Input → List Bytes) → List Bytes
lines_after (none, rest) loop = []
lines_after (some [], rest) loop = []
lines_after (some (c ∷ line), rest) loop = (c ∷ line) ∷ loop rest

read_lines : ℕ → Input → List Bytes
unfolding lines_after
read_lines zero s = []
read_lines (suc fuel) s = lines_after (read_line_sys line_buf_size s) (read_lines fuel)

-- Each line takes a byte at least, so one round more than the file has bytes is enough.
unfoldable pub lines_of : Bytes → List Bytes
unfolding read_lines
lines_of s = read_lines (suc (length s)) (input_of s)

abbrev ana : User
ana = record { name = codes "ana"; connected = 1; ip = codes "10.0.0.7"; port = 5050; last_id = 3 }

format_ana : format_user ana ≡ codes "ana 1 10.0.0.7 5050 3\n"
unfolding format_user print_int print_unsigned
format_ana = refl
