-- ===== src/Text/Scan.antt =====
-- The conversions `%Ns`, `%d` and `%u` of `scanf`, `%d` of `printf`, and `strtol`, as glibc does them.
-- An `int` is its bit pattern, a number below 2 ^ 32; a conversion that fails is `none`.
pub mod Laws
pub mod Results
use messaging_service.Prelude.{
  ℕ, zero, suc, ◌+◌, ◌-◌, ◌*◌, ◌%◌, ◌^◌, ◌<◌, min, ◌≡◌, refl, Bool, true, false, Option, none, some,
  [], ◌∷◌, ◌++◌, Bytes, ltb, ◌==◌, if◌then◌else◌, codes,
}
use messaging_service.Text.Chars.{is_space, is_digit}
use messaging_service.Text.Decimal.{print_unsigned, read_digits}

abbrev pub word_mod : ℕ
word_mod = 2 ^ 32

-- The largest `long`, at which `strtol` stops growing, and the largest `unsigned long`.
abbrev pub long_max : ℕ
long_max = 2 ^ 63 - 1

abbrev pub ulong_max : ℕ
ulong_max = 2 ^ 64 - 1

unfoldable pub skip_space : Bytes → Bytes
skip_space [] = []
skip_space (c ∷ s) = if is_space c then skip_space s else c ∷ s

-- Up to `n` bytes that are no white space, and what follows them.
unfoldable pub take_word : ℕ → Bytes → Bytes × Bytes
take_word zero s = ([], s)
take_word (suc n) [] = ([], [])
take_word (suc n) (c ∷ s) =
    let (word, rest) = take_word n s in if is_space c then ([], c ∷ s) else (c ∷ word, rest)

some_word : Bytes × Bytes → Option (Bytes × Bytes)
some_word ([], rest) = none
some_word (c ∷ word, rest) = some (c ∷ word, rest)

-- `%Ns` with N = n
unfoldable pub scan_word : ℕ → Bytes → Option (Bytes × Bytes)
unfolding some_word
scan_word n s = some_word (take_word n (skip_space s))

-- An optional sign: whether it is a minus, and what follows it.
unfoldable pub read_sign : Bytes → Bool × Bytes
read_sign [] = (false, [])
read_sign (c ∷ s) =
    if c == b'-' then (true, s) else if c == b'+' then (false, s) else (false, c ∷ s)

-- Digits, of which there must be one.
unfoldable pub read_number : Bytes → Option (ℕ × Bytes)
read_number [] = none
read_number (c ∷ s) = if is_digit c then some (read_digits (c ∷ s) 0) else none

-- A `long` converted to `int` keeps its low 32 bits.
unfoldable pub int_of_long : Bool → ℕ → ℕ
int_of_long true m = (word_mod - min m (suc long_max) % word_mod) % word_mod
int_of_long false m = min m long_max % word_mod

-- An `unsigned long` converted to `unsigned int`; a negative numeral wraps around, unless it is
-- out of range.
unfoldable pub unsigned_of_ulong : Bool → ℕ → ℕ
unsigned_of_ulong true m =
    if ltb ulong_max m then ulong_max % word_mod else (word_mod - m % word_mod) % word_mod
unsigned_of_ulong false m = min m ulong_max % word_mod

convert : (Bool → ℕ → ℕ) → Bool → Option (ℕ × Bytes) → Option (ℕ × Bytes)
convert f negative none = none
convert f negative (some (m, rest)) = some (f negative m, rest)

scan_number : (Bool → ℕ → ℕ) → Bytes → Option (ℕ × Bytes)
unfolding convert
scan_number f s =
    let (negative, rest) = read_sign (skip_space s) in convert f negative (read_number rest)

-- `%d`
unfoldable pub scan_int : Bytes → Option (ℕ × Bytes)
unfolding scan_number int_of_long
scan_int = scan_number int_of_long

-- `%u`
unfoldable pub scan_unsigned : Bytes → Option (ℕ × Bytes)
unfolding scan_number unsigned_of_ulong
scan_unsigned = scan_number unsigned_of_ulong

or_zero : Option (ℕ × Bytes) → ℕ
or_zero none = 0
or_zero (some (n, rest)) = n

-- `(int) strtol(s, NULL, 10)`, and `atoi`: 0 where there is no numeral.
unfoldable pub strtol : Bytes → ℕ
unfolding or_zero
strtol s = or_zero (scan_int s)

-- `printf("%d")`
unfoldable pub print_int : ℕ → Bytes
print_int w = if ltb w (2 ^ 31) then print_unsigned w else b'-' ∷ print_unsigned (word_mod - w)

strtol_port : strtol (codes " 8080x") ≡ 8080
unfolding strtol scan_int read_sign skip_space read_number read_digits is_space is_digit
strtol_port = refl

strtol_minus : strtol (codes "-1") ≡ 4294967295
unfolding strtol scan_int read_sign skip_space read_number read_digits is_space is_digit
strtol_minus = refl
