-- ===== src/Users/Laws.antt =====
-- The line of a user: what is read back of it, and its length beside that of `line_buf`.
use messaging_service.Prelude.{
  ℕ, suc, ◌+◌, ◌-◌, ◌^◌, ◌≤◌, ◌<◌, ◌≡◌, refl, ap, false, some, inl, inr, [], ◌∷◌, ◌++◌, Bytes, ◌==◌,
  ltb, Bool-cases, length, length-append, All, All-append, All-imp, arith, append_assoc,
}
use messaging_service.Text.Chars.{is_space, digit-not-space}
use messaging_service.Text.Decimal.{print_unsigned, digits-IsDigit, IsDigit}
use messaging_service.Text.Scan.{word_mod, print_int}
use messaging_service.Text.Scan.Laws.{
  IsWord, IsGraphic, scan_word-field, scan_int-field, scan_unsigned-field, scan_int-blank,
  scan_unsigned-blank, scan_word-blank, scan_word-newline, length-print_int, length-print_unsigned,
}
use messaging_service.Users.{
  User, newline, blank, format_user, scan_user, sscanf_user, first, line_buf_size,
}
use messaging_service.Users.Lines.{IsLine}

-- A user whose name and address are words that the buffers hold, with 32-bit numbers.
pub record IsUser (u : User) : Type 0 where
  pub name : IsWord 255 u.name
  pub connected : u.connected < word_mod
  pub ip : IsWord 19 u.ip
  pub port : u.port < word_mod
  pub last_id : u.last_id < word_mod

-- The line without its line feed, and with what follows it.
body : User → Bytes
body u =
    u.name
    ++ (blank
        ∷ (print_int u.connected
            ++ (blank
                ∷ (u.ip ++ (blank ∷ (print_int u.port ++ (blank ∷ print_unsigned u.last_id)))))))

format_then : User → Bytes → Bytes
format_then u rest =
    u.name
    ++ (blank
        ∷ (print_int u.connected
            ++ (blank
                ∷ (u.ip
                    ++ (blank
                        ∷ (print_int u.port
                            ++ (blank ∷ (print_unsigned u.last_id ++ (newline ∷ rest)))))))))

format_user-body : (u : User) → format_user u ≡ body u ++ newline ∷ []
unfolding format_user body
format_user-body u = simp append_assoc

format_user-append : (u : User) (rest : Bytes) → format_user u ++ rest ≡ format_then u rest
unfolding format_user format_then
format_user-append u rest = simp append_assoc

scan_user-format_then :
    (u : User) (rest : Bytes) → IsUser u → scan_user (format_then u rest) ≡ some (u, newline ∷ rest)
unfolding scan_user format_then
scan_user-format_then u rest v =
    rw (scan_word-field, v.name)
      (rw scan_int-blank (
        rw (scan_int-field, v.connected)
          (rw scan_word-blank (
            rw (scan_word-field, v.ip)
              (rw scan_int-blank (
                rw (scan_int-field, v.port)
                  (rw scan_unsigned-blank (rw (scan_unsigned-field, v.last_id)))))))))

-- A line that `snprintf` wrote for a valid user is scanned back as that user, whatever follows it; the
-- scan stops at the end of the line.
pub scan_user-format_user :
    (u : User) (rest : Bytes)
    → IsUser u
    → scan_user (format_user u ++ rest) ≡ some (u, newline ∷ rest)
scan_user-format_user u rest v = rw (format_user-append u rest) (scan_user-format_then u rest v)

pub sscanf_user-format_user : (u : User) → IsUser u → sscanf_user (format_user u) ≡ some u
unfolding sscanf_user format_user format_then
sscanf_user-format_user u v = ap first (scan_user-format_then u [] v)

pub scan_user-newline : (s : Bytes) → scan_user (newline ∷ s) ≡ scan_user s
unfolding scan_user
scan_user-newline s = rw (scan_word-newline 255 s)

IsPlain : ℕ → Type 0
IsPlain c = c == newline ≡ false

graphic-IsPlain : (c : ℕ) → IsGraphic c → c == newline ≡ false
unfolding is_space
graphic-IsPlain c h = ground arith

digit-IsPlain : (c : ℕ) → IsDigit c → c == newline ≡ false
digit-IsPlain c h = graphic-IsPlain c (digit-not-space c h)

print_unsigned-plain : (n : ℕ) → All (λ c. c == newline ≡ false) (print_unsigned n)
unfolding print_unsigned
print_unsigned-plain n = All-imp digit-IsPlain _ (digits-IsDigit (suc n) n [] tt)

print_int-plain : (w : ℕ) → All (λ c. c == newline ≡ false) (print_int w)
unfolding print_int
print_int-plain w = elim (Bool-cases (ltb w (2 ^ 31))) [
  | inl e ↦ rw e (print_unsigned-plain w)
  | inr e ↦ rw e (refl, print_unsigned-plain (word_mod - w))
]

plain-append :
    (xs ys : Bytes)
    → All (λ c. c == newline ≡ false) xs
    → All (λ c. c == newline ≡ false) ys
    → All (λ c. c == newline ≡ false) (xs ++ (blank ∷ ys))
plain-append xs ys h k = All-append (λ c. c == newline ≡ false) xs (blank ∷ ys) h (refl, k)

body-plain : (u : User) → IsUser u → All (λ c. c == newline ≡ false) (body u)
unfolding body
body-plain u v = plain-append u.name _ (All-imp graphic-IsPlain u.name v.name.graphic) (
    plain-append (print_int u.connected) _ (print_int-plain u.connected) (
      plain-append u.ip _ (All-imp graphic-IsPlain u.ip v.ip.graphic) (
        plain-append (print_int u.port) _ (print_int-plain u.port)
          (print_unsigned-plain u.last_id))))

length-field : (xs ys : Bytes) → length (xs ++ (blank ∷ ys)) ≡ length xs + 1 + length ys
length-field xs ys = omega (arith, length-append xs (blank ∷ ys))

length-body : (u : User) → IsUser u → length (body u) ≤ 310
unfolding body
length-body u v = omega (
  arith,
  length-field u.name (
      print_int u.connected
      ++ (blank ∷ (u.ip ++ (blank ∷ (print_int u.port ++ (blank ∷ print_unsigned u.last_id)))))),
  length-field (print_int u.connected)
      (u.ip ++ (blank ∷ (print_int u.port ++ (blank ∷ print_unsigned u.last_id)))),
  length-field u.ip (print_int u.port ++ (blank ∷ print_unsigned u.last_id)),
  length-field (print_int u.port) (print_unsigned u.last_id),
  v.name.short,
  v.ip.short,
  length-print_int u.connected v.connected,
  length-print_int u.port v.port,
  length-print_unsigned u.last_id v.last_id,
)

-- The line of a valid user and its terminating zero fit `line_buf`: `snprintf` cuts nothing off, so
-- the `len` bytes that `write` is given are all in the buffer.
pub length-format_user : (u : User) → IsUser u → length (format_user u) + 1 ≤ line_buf_size
length-format_user u v =
    omega (
      arith,
      ap length (format_user-body u),
      length-append (body u) (newline ∷ []),
      length-body u v,
    )

pub format_user-IsLine : (u : User) → IsUser u → IsLine (format_user u)
format_user-IsLine u v = record {
  body = body u;
  shape = format_user-body u;
  plain = body-plain u v;
  fits = omega (arith, length-body u v);
}
