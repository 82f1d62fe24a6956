-- ===== src/Text/Scan/Results.antt =====
-- What a conversion of `scanf` can return, whatever the text: words that fit the buffer, 32-bit
-- numbers, and a shorter rest.
use messaging_service.Prelude.{
  ℕ, zero, suc, ◌-◌, ◌+◌, ◌*◌, ◌≤◌, ◌<◌, ◌≡◌, Bool, Option, none, some, inl, inr, Option-cases, [],
  ◌∷◌, Bytes, arith, Bool-cases, length, All,
}
use messaging_service.Text.Chars.{is_space}
use messaging_service.Text.Decimal.{read_digits}
use messaging_service.Text.Scan.{
  strtol, or_zero, word_mod, skip_space, take_word, scan_word, some_word, read_sign, read_number,
  int_of_long, unsigned_of_ulong, convert, scan_number, scan_int, scan_unsigned,
}
use messaging_service.Text.Scan.Laws.{IsWord, IsGraphic, int_of_long-lt, unsigned_of_ulong-lt}

length-skip_space : (s : Bytes) → length (skip_space s) ≤ length s
unfolding skip_space
length-skip_space [] = omega arith
length-skip_space (c ∷ s) = ground (arith, length-skip_space s)

record TakesWord (n : ℕ) (s : Bytes) (r : Bytes × Bytes) : Type 0 where
  short : length r.0 ≤ n
  graphic : All IsGraphic r.0
  total : length r.0 + length r.1 ≤ length s

take_word-TakesWord : (n : ℕ) (s : Bytes) → TakesWord n s (take_word n s)
unfolding take_word
take_word-TakesWord zero s = record { short = omega arith; graphic = tt; total = omega arith }
take_word-TakesWord (suc n) [] = record { short = omega arith; graphic = tt; total = omega arith }
take_word-TakesWord (suc n) (c ∷ s) =
    let ih = take_word-TakesWord n s in
    elim (Bool-cases (is_space c)) [
      | inl e ↦ rw e (record { short = omega arith; graphic = tt; total = omega arith })
      | inr e ↦ rw e (record {
        short = omega (arith, ih.short);
        graphic = (e, ih.graphic);
        total = omega (arith, ih.total);
      })
    ]

some_word-result :
    (n : ℕ) (s : Bytes) (r : Bytes × Bytes) (w rest : Bytes)
    → TakesWord n s r
    → some_word r ≡ some (w, rest)
    → IsWord n w × (length rest < length s)
unfolding some_word
some_word-result n s ([], rest') w rest k h = ground arith
some_word-result n s (c ∷ word, rest') w rest k h =
    let p : c ∷ word ≡ w = cc in
    let q : rest' ≡ rest = cc in
    rw (← p) (
      rw (← q) (
        record { nonempty = omega arith; short = k.short; graphic = k.graphic },
        omega (arith, k.total),
      ))

pub scan_word-result :
    (n : ℕ) (s w rest : Bytes)
    → scan_word n s ≡ some (w, rest)
    → IsWord n w × (length rest < length s)
unfolding scan_word
scan_word-result n s w rest h =
    let r =
      some_word-result n (skip_space s) (take_word n (skip_space s)) w rest
        (take_word-TakesWord n (skip_space s)) h in
    (r.0, omega (arith, r.1, length-skip_space s))

length-read_sign : (s : Bytes) → length (read_sign s).1 ≤ length s
unfolding read_sign
length-read_sign [] = omega arith
length-read_sign (c ∷ s) = ground arith

length-read_digits : (s : Bytes) (n : ℕ) → length (read_digits s n).1 ≤ length s
unfolding read_digits
length-read_digits [] n = omega arith
length-read_digits (c ∷ s) n = ground (arith, length-read_digits s (n * 10 + (c - b'0')))

length-read_number :
    (s : Bytes) (m : ℕ) (rest : Bytes) → read_number s ≡ some (m, rest) → length rest < length s
unfolding read_number read_digits
length-read_number [] m rest h = ground arith
length-read_number (c ∷ s) m rest h = ground (arith, length-read_digits s (0 * 10 + (c - b'0')))

convert-result :
    (f : Bool → ℕ → ℕ) (b : Bool) (o : Option (ℕ × Bytes)) (w : ℕ) (rest : Bytes)
    → ((b : Bool) (m : ℕ) → f b m < word_mod)
    → convert f b o ≡ some (w, rest)
    → (w < word_mod) × ((m : ℕ) × (o ≡ some (m, rest)))
unfolding convert
convert-result f b none w rest k h = ground arith
convert-result f b (some (m, r)) w rest k h =
    let p : f b m ≡ w = cc in let q : r ≡ rest = cc in (rw (← p) (k b m), (m, rw q))

scan_number-result :
    (f : Bool → ℕ → ℕ) (s : Bytes) (w : ℕ) (rest : Bytes)
    → ((b : Bool) (m : ℕ) → f b m < word_mod)
    → scan_number f s ≡ some (w, rest)
    → (w < word_mod) × (length rest < length s)
unfolding scan_number
scan_number-result f s w rest k h =
    let sign = read_sign (skip_space s) in
    let (small, (m, e)) = convert-result f sign.0 (read_number sign.1) w rest k h in
    (
      small,
      omega (
        arith,
        length-skip_space s,
        length-read_sign (skip_space s),
        length-read_number sign.1 m rest e,
      ),
    )

pub scan_int-result :
    (s : Bytes) (w : ℕ) (rest : Bytes)
    → scan_int s ≡ some (w, rest)
    → (w < word_mod) × (length rest < length s)
unfolding scan_int
scan_int-result s w rest h = scan_number-result int_of_long s w rest int_of_long-lt h

pub scan_unsigned-result :
    (s : Bytes) (w : ℕ) (rest : Bytes)
    → scan_unsigned s ≡ some (w, rest)
    → (w < word_mod) × (length rest < length s)
unfolding scan_unsigned
scan_unsigned-result s w rest h =
    scan_number-result unsigned_of_ulong s w rest unsigned_of_ulong-lt h

pub strtol-lt : (s : Bytes) → strtol s < word_mod
unfolding strtol or_zero
strtol-lt s = elim (Option-cases (scan_int s)) [
  | inl e ↦ rw (e, or_zero) (omega arith)
  | inr ((n, rest), e) ↦ rw (e, or_zero) (scan_int-result s n rest e).0
]
