-- ===== src/Text/Decimal/Ended.antt =====
-- A numeral with a zero byte behind it, as the server sends it to a client.
use messaging_service.Prelude.{
  ℕ, suc, ◌≡◌, ap, sym, ◌∙◌, [], ◌∷◌, ◌++◌, Bytes, arith, length, length-append,
}
use messaging_service.Text.Chars.{is_digit}
use messaging_service.Text.Decimal.{
  print_unsigned, read_digits, read_digits-digits, digits-append, digits-StartsWithDigit,
}

read_digits-ended :
    (n : ℕ) (rest : Bytes) → read_digits (print_unsigned n ++ 0 ∷ rest) 0 ≡ (n, 0 ∷ rest)
unfolding print_unsigned read_digits is_digit
read_digits-ended n rest =
    ap (λ s. read_digits s 0) (digits-append (suc n) n [] (0 ∷ rest))
    ∙ read_digits-digits (suc n) n (0 ∷ rest) (omega arith)

-- The numeral tells the number.
pub ended_injective : (i k : ℕ) → print_unsigned i ++ 0 ∷ [] ≡ print_unsigned k ++ 0 ∷ [] → i ≡ k
ended_injective i k e =
    ap (λ r. r.0)
      (sym (read_digits-ended i []) ∙ ap (λ s. read_digits s 0) e ∙ read_digits-ended k [])

-- It is no single byte.
pub ended_longer : (c i : ℕ) → c ∷ [] ≡ print_unsigned i ++ 0 ∷ [] → ⊥
unfolding print_unsigned
ended_longer c i e =
    let s = digits-StartsWithDigit i i [] in
    absurd
      (omega (arith, ap length (e ∙ ap (λ t. t ++ 0 ∷ []) s.shape), length-append s.rest (0 ∷ [])))
