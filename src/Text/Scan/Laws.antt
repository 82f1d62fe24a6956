-- ===== src/Text/Scan/Laws.antt =====
-- What `scanf` makes of the texts that `printf` writes.
use messaging_service.Prelude.{
  ℕ, zero, suc, ◌-◌, ◌^◌, ◌≤◌, ◌<◌, ◌≡◌, refl, Bool, true, false, some, inl, inr, [], ◌∷◌, ◌++◌,
  Bytes, arith, ltb, ◌==◌, Bool-cases, length, All,
}
use messaging_service.Text.Chars.{is_space, is_digit, digit-not-space}
use messaging_service.Text.Decimal.{
  print_unsigned, read_digits, read_digits-digits, digits-append, digits-StartsWithDigit,
  length-digits,
}
use messaging_service.Text.Scan.{
  word_mod, skip_space, take_word, scan_word, read_sign, read_number, int_of_long,
  unsigned_of_ulong, scan_int, scan_unsigned, print_int,
}

abbrev pub IsGraphic : ℕ → Type 0
IsGraphic c = is_space c ≡ false

-- A text that `%Ns` reads whole: not empty, at most N bytes, no white space.
pub record IsWord (n : ℕ) (s : Bytes) : Type 0 where
  pub nonempty : 0 < length s
  pub short : length s ≤ n
  pub graphic : All IsGraphic s

-- What follows a field: a blank or a line feed.
pub data EndsField : Bytes → Type 0 where
  ends : (c : ℕ) (s : Bytes) → is_space c ≡ true → is_digit c ≡ false → EndsField (c ∷ s)

pub take_word-append :
    (n : ℕ) (w : Bytes) {rest : Bytes}
    → length w ≤ n
    → All IsGraphic w
    → EndsField rest
    → take_word n (w ++ rest) ≡ (w, rest)
unfolding take_word
take_word-append zero [] h g e = refl
take_word-append zero (c ∷ w) h g e = absurd (omega arith)
take_word-append (suc n) [] h g (ends c s sp dg) = rw sp
take_word-append (suc n) (c ∷ w) h g e = rw (take_word-append n w (omega arith) g.1 e) (rw g.0)

pub skip_space-graphic : (c : ℕ) (s : Bytes) → IsGraphic c → skip_space (c ∷ s) ≡ c ∷ s
unfolding skip_space
skip_space-graphic c s h = rw h

pub skip_space-blank : (s : Bytes) → skip_space (32 ∷ s) ≡ skip_space s
unfolding skip_space is_space
skip_space-blank s = refl

pub scan_word-append :
    (n : ℕ) (w : Bytes) {rest : Bytes}
    → IsWord n w
    → EndsField rest
    → scan_word n (w ++ rest) ≡ some (w, rest)
unfolding scan_word
scan_word-append n [] h e = absurd (omega arith)
scan_word-append n (c ∷ w) {rest} h e =
    rw (skip_space-graphic c (w ++ rest) h.graphic.0)
      (rw (take_word-append n (c ∷ w) h.short h.graphic e))

read_digits-end : {rest : Bytes} (n : ℕ) → EndsField rest → read_digits rest n ≡ (n, rest)
unfolding read_digits
read_digits-end n (ends c s sp dg) = rw dg

digit-no_sign : (c : ℕ) → is_digit c ≡ true → (c == b'-' ≡ false) × (c == b'+' ≡ false)
unfolding is_digit
digit-no_sign c h = ground arith

read_number-digit :
    (c : ℕ) (s : Bytes) → is_digit c ≡ true → read_number (c ∷ s) ≡ some (read_digits (c ∷ s) 0)
unfolding read_number
read_number-digit c s h = rw h

-- A printed number is read back with what follows it.
pub read_number-print :
    (n : ℕ) {rest : Bytes}
    → EndsField rest
    → read_number (print_unsigned n ++ rest) ≡ some (n, rest)
unfolding print_unsigned
read_number-print n {rest} e =
    let p = digits-StartsWithDigit n n rest in
    rw (digits-append (suc n) n [] rest) (
      rw p.shape (
        rw (read_number-digit p.first p.rest p.digit) (
          rw (← p.shape)
            (rw (read_digits-digits (suc n) n rest (omega arith)) (rw (read_digits-end n e))))))

-- A printed number starts with a digit, so no white space and no sign is skipped.
pub read_sign-print :
    (n : ℕ) (rest : Bytes)
    → read_sign (skip_space (print_unsigned n ++ rest)) ≡ (false, print_unsigned n ++ rest)
unfolding print_unsigned read_sign
read_sign-print n rest =
    let p = digits-StartsWithDigit n n rest in
    let q = digit-no_sign p.first p.digit in
    rw (digits-append (suc n) n [] rest) (
      rw p.shape (
        rw (skip_space-graphic p.first p.rest (digit-not-space p.first p.digit)) (rw q.0 (rw q.1))))

pub scan_unsigned-print :
    (n : ℕ) {rest : Bytes}
    → n < word_mod
    → EndsField rest
    → scan_unsigned (print_unsigned n ++ rest) ≡ some (n, rest)
unfolding scan_unsigned
scan_unsigned-print n {rest} h e =
    rw (read_sign-print n rest) (rw (read_number-print n e) (ground arith))

read_sign-minus : (s : Bytes) → read_sign (skip_space (b'-' ∷ s)) ≡ (true, s)
unfolding read_sign skip_space is_space
read_sign-minus s = refl

pub scan_int-print :
    (w : ℕ) {rest : Bytes}
    → w < word_mod
    → EndsField rest
    → scan_int (print_int w ++ rest) ≡ some (w, rest)
unfolding scan_int print_int
scan_int-print w {rest} h e = elim (Bool-cases (ltb w (2 ^ 31))) [
  | inl small ↦ rw small (rw (read_sign-print w rest) (rw (read_number-print w e) (ground arith)))
  | inr large ↦ rw large (
      rw (read_sign-minus (print_unsigned (word_mod - w) ++ rest))
        (rw (read_number-print (word_mod - w) e) (ground arith)))
]

-- Lengths: a 32-bit number takes at most ten digits, and a sign.
pub length-print_unsigned : (n : ℕ) → n < word_mod → length (print_unsigned n) ≤ 10
unfolding print_unsigned
length-print_unsigned n h = omega (arith, length-digits (suc n) n 9 [] (omega arith))

pub length-print_int : (w : ℕ) → w < word_mod → length (print_int w) ≤ 11
unfolding print_int
length-print_int w h = elim (Bool-cases (ltb w (2 ^ 31))) [
  | inl small ↦ rw small (omega (arith, length-print_unsigned w h))
  | inr large ↦ rw large (omega (arith, length-print_unsigned (word_mod - w) (ground arith)))
]

-- The converted values are 32-bit patterns, whatever the text says.
pub int_of_long-lt : (b : Bool) (m : ℕ) → int_of_long b m < word_mod
unfolding int_of_long
int_of_long-lt true m = omega arith
int_of_long-lt false m = omega arith

pub unsigned_of_ulong-lt : (b : Bool) (m : ℕ) → unsigned_of_ulong b m < word_mod
unfolding unsigned_of_ulong
unsigned_of_ulong-lt true m = ground arith
unsigned_of_ulong-lt false m = omega arith

pub scan_int-blank : (s : Bytes) → scan_int (32 ∷ s) ≡ scan_int s
unfolding scan_int skip_space is_space
scan_int-blank s = refl

pub scan_unsigned-blank : (s : Bytes) → scan_unsigned (32 ∷ s) ≡ scan_unsigned s
unfolding scan_unsigned skip_space is_space
scan_unsigned-blank s = refl

pub scan_word-blank : (n : ℕ) (s : Bytes) → scan_word n (32 ∷ s) ≡ scan_word n s
unfolding scan_word skip_space is_space
scan_word-blank n s = refl

pub scan_word-newline : (n : ℕ) (s : Bytes) → scan_word n (10 ∷ s) ≡ scan_word n s
unfolding scan_word skip_space is_space
scan_word-newline n s = refl

pub blank-EndsField : (s : Bytes) → EndsField (32 ∷ s)
unfolding is_space is_digit
blank-EndsField s = ends 32 s refl refl

pub newline-EndsField : (s : Bytes) → EndsField (10 ∷ s)
unfolding is_space is_digit
newline-EndsField s = ends 10 s refl refl

-- The fields of a line, each with the blank or the line feed behind it.
pub scan_word-field :
    (n : ℕ) (w s : Bytes) → IsWord n w → scan_word n (w ++ (32 ∷ s)) ≡ some (w, 32 ∷ s)
scan_word-field n w s h = scan_word-append n w h (blank-EndsField s)

pub scan_int-field :
    (w : ℕ) (s : Bytes) → w < word_mod → scan_int (print_int w ++ (32 ∷ s)) ≡ some (w, 32 ∷ s)
scan_int-field w s h = scan_int-print w h (blank-EndsField s)

pub scan_unsigned-field :
    (n : ℕ) (s : Bytes)
    → n < word_mod
    → scan_unsigned (print_unsigned n ++ (10 ∷ s)) ≡ some (n, 10 ∷ s)
scan_unsigned-field n s h = scan_unsigned-print n h (newline-EndsField s)
