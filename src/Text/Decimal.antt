-- ===== src/Text/Decimal.antt =====
-- Decimal numerals: the digits that `%u` and `%d` print, and the digits that `scanf` and `strtol` read.
pub mod Ended
use messaging_service.Prelude.{
  ℕ, zero, suc, ◌+◌, ◌-◌, ◌*◌, ◌/◌, ◌%◌, ◌≤◌, ◌<◌, ◌^◌, ◌≡◌, refl, true, inl, inr, [], ◌∷◌, ◌++◌,
  Bytes, arith, ltb, if◌then◌else◌, Bool-cases, length, codes, All,
}
use messaging_service.Text.Chars.{is_digit}

-- The digits of `n` in front of `out`, on fuel: each round divides `n` by ten.
unfoldable pub digits : ℕ → ℕ → Bytes → Bytes
digits zero n out = out
digits (suc f) n out =
    let more = digits f (n / 10) ((b'0' + n % 10) ∷ out) in
    if ltb n 10 then (b'0' + n) ∷ out else more

-- `%u`; `n + 1` rounds are more than the number of digits.
unfoldable pub print_unsigned : ℕ → Bytes
unfolding digits
print_unsigned n = digits (suc n) n []

-- The longest run of digits, as a number behind `n`, and what follows it.
unfoldable pub read_digits : Bytes → ℕ → ℕ × Bytes
read_digits [] n = (n, [])
read_digits (c ∷ s) n = if is_digit c then read_digits s (n * 10 + (c - b'0')) else (n, c ∷ s)

-- The digits of `n` are read back as `n`, with enough fuel.
pub read_digits-digits :
    (f n : ℕ) (out : Bytes) → n < f → read_digits (digits f n out) 0 ≡ read_digits out n
unfolding digits read_digits is_digit
read_digits-digits zero n out h = elim h [ ]
read_digits-digits (suc f) n out h =
    ground (arith, read_digits-digits f (n / 10) ((b'0' + n % 10) ∷ out))

pub digits-append : (f n : ℕ) (out rest : Bytes) → digits f n out ++ rest ≡ digits f n (out ++ rest)
unfolding digits
digits-append zero n out rest = refl
digits-append (suc f) n out rest =
    ground (arith, digits-append f (n / 10) ((b'0' + n % 10) ∷ out) rest)

abbrev pub IsDigit : ℕ → Type 0
IsDigit c = is_digit c ≡ true

-- What is printed starts with a digit.
pub record StartsWithDigit (s : Bytes) : Type 0 where
  pub first : ℕ
  pub rest : Bytes
  pub shape : s ≡ first ∷ rest
  pub digit : is_digit first ≡ true

below_ten-IsDigit : (n : ℕ) → n < 10 → IsDigit (b'0' + n)
unfolding is_digit
below_ten-IsDigit n h = ground arith

digits-StartsWithDigit_of :
    (f n c : ℕ) (out : Bytes) → IsDigit c → StartsWithDigit (digits f n (c ∷ out))
unfolding digits
digits-StartsWithDigit_of zero n c out h = record { first = c; rest = out; shape = refl; digit = h }
digits-StartsWithDigit_of (suc f) n c out h = elim (Bool-cases (ltb n 10)) [
  | inl e ↦ rw e (record {
    first = b'0' + n;
    rest = c ∷ out;
    shape = refl;
    digit = below_ten-IsDigit n (ground arith);
  })
  | inr e ↦ rw e (
      digits-StartsWithDigit_of f (n / 10) (b'0' + n % 10) (c ∷ out)
        (below_ten-IsDigit (n % 10) (omega arith)))
]

pub digits-StartsWithDigit : (f n : ℕ) (out : Bytes) → StartsWithDigit (digits (suc f) n out)
unfolding digits
digits-StartsWithDigit f n out = elim (Bool-cases (ltb n 10)) [
  | inl e ↦ rw e (record {
    first = b'0' + n;
    rest = out;
    shape = refl;
    digit = below_ten-IsDigit n (ground arith);
  })
  | inr e ↦ rw e (
      digits-StartsWithDigit_of f (n / 10) (b'0' + n % 10) out
        (below_ten-IsDigit (n % 10) (omega arith)))
]

-- Every byte that is printed is a digit.
pub digits-IsDigit : (f n : ℕ) (out : Bytes) → All IsDigit out → All IsDigit (digits f n out)
unfolding digits
digits-IsDigit zero n out h = h
digits-IsDigit (suc f) n out h = elim (Bool-cases (ltb n 10)) [
  | inl e ↦ rw e (below_ten-IsDigit n (ground arith), h)
  | inr e ↦ rw e (
      digits-IsDigit f (n / 10) ((b'0' + n % 10) ∷ out)
        (below_ten-IsDigit (n % 10) (omega arith), h))
]

-- A number below 10 ^ suc k takes at most suc k digits.
pub length-digits :
    (f n k : ℕ) (out : Bytes) → n < 10 ^ suc k → length (digits f n out) ≤ suc k + length out
unfolding digits
length-digits zero n k out h = omega arith
length-digits (suc f) n zero out h = ground arith
length-digits (suc f) n (suc k) out h = elim (Bool-cases (ltb n 10)) [
  | inl e ↦ rw e (omega arith)
  | inr e ↦ rw e (omega (arith, length-digits f (n / 10) k ((b'0' + n % 10) ∷ out) (omega arith)))
]

print_max_example : print_unsigned 4294967295 ≡ codes "4294967295"
unfolding print_unsigned
print_max_example = refl
