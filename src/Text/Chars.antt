-- ===== src/Text/Chars.antt =====
-- Characters and string comparison: `isspace`, `isdigit`, `strcmp(a, b) == 0`.
use messaging_service.Prelude.{
  ℕ, ◌≡◌, refl, ◌↔◌, Bool, true, false, ◌&&◌, ◌||◌, [], ◌∷◌, Bytes, arith, leb, ◌==◌,
}

-- isspace in the C locale: tab, line feed, vertical tab, form feed, carriage return and blank.
unfoldable pub is_space : ℕ → Bool
is_space c = c == 32 || leb 9 c && leb c 13

unfoldable pub is_digit : ℕ → Bool
is_digit c = leb b'0' c && leb c b'9'

-- strcmp(a, b) == 0
unfoldable pub streq : Bytes → Bytes → Bool
streq [] [] = true
streq [] (y ∷ b) = false
streq (x ∷ a) [] = false
streq (x ∷ a) (y ∷ b) = x == y && streq a b

pub streq→eq : (a b : Bytes) → streq a b ≡ true → a ≡ b
unfolding streq
streq→eq [] [] h = refl
streq→eq [] (y ∷ b) h = ground arith
streq→eq (x ∷ a) [] h = ground arith
streq→eq (x ∷ a) (y ∷ b) h = ground (arith, streq→eq a b)

pub streq_refl : (a : Bytes) → streq a a ≡ true
unfolding streq
streq_refl [] = refl
streq_refl (x ∷ a) = ground (arith, streq_refl a)

pub streq_iff : (a b : Bytes) → (streq a b ≡ true) ↔ (a ≡ b)
streq_iff a b = (streq→eq a b, λ e. rw e (streq_refl b))

pub digit-not-space : (c : ℕ) → is_digit c ≡ true → is_space c ≡ false
unfolding is_digit is_space
digit-not-space c h = ground arith
