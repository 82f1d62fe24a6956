-- ===== src/Users/Scanned.antt =====
-- What `sscanf` can leave in the five variables, whatever the line says.
use messaging_service.Prelude.{
  ◌<◌, ◌≡◌, refl, Option, none, some, inl, inr, Bytes, arith, Option-cases, length,
}
use messaging_service.Text.Scan.{scan_word, scan_int, scan_unsigned}
use messaging_service.Text.Scan.Results.{scan_word-result, scan_int-result, scan_unsigned-result}
use messaging_service.Users.{User, scan_user, sscanf_user, first, ◌>>=◌}
use messaging_service.Users.Laws.{IsUser}

-- What a successful chain says of its first step and of the rest.
module _ {A B C : Type 0} {b : B} where
  bind-elim :
      (m : Option A) (f : A → Option B)
      → (m >>= f) ≡ some b
      → ((a : A) → m ≡ some a → f a ≡ some b → C)
      → C
  bind-elim none f h k = absurd (cc)
  bind-elim (some a) f h k = k a refl h

-- Whatever text five conversions succeed on, the variables hold a valid user, and the rest is shorter.
pub scan_user-result :
    (s : Bytes) (u : User) (rest : Bytes)
    → scan_user s ≡ some (u, rest)
    → IsUser u × (length rest < length s)
unfolding scan_user
scan_user-result s u rest h = bind-elim (scan_word 255 s) _ h λ r₁ e₁ h₁.
    bind-elim (scan_int r₁.1) _ h₁ λ r₂ e₂ h₂. bind-elim (scan_word 19 r₂.1) _ h₂ λ r₃ e₃ h₃.
      bind-elim (scan_int r₃.1) _ h₃ λ r₄ e₄ h₄. bind-elim (scan_unsigned r₄.1) _ h₄ λ r₅ e₅ h₅.
        let k₁ = scan_word-result 255 s r₁.0 r₁.1 e₁ in
        let k₂ = scan_int-result r₁.1 r₂.0 r₂.1 e₂ in
        let k₃ = scan_word-result 19 r₂.1 r₃.0 r₃.1 e₃ in
        let k₄ = scan_int-result r₃.1 r₄.0 r₄.1 e₄ in
        let k₅ = scan_unsigned-result r₄.1 r₅.0 r₅.1 e₅ in
        let p : record { name = r₁.0; connected = r₂.0; ip = r₃.0; port = r₄.0; last_id = r₅.0 }
            ≡ u =
          cc in
        let q : r₅.1 ≡ rest = cc in
        rw (← p) (
          rw (← q) (
            record { name = k₁.0; connected = k₂.0; ip = k₃.0; port = k₄.0; last_id = k₅.0 },
            omega (arith, k₁.1, k₂.1, k₃.1, k₄.1, k₅.1),
          ))

pub sscanf_user-IsUser : (line : Bytes) (u : User) → sscanf_user line ≡ some u → IsUser u
unfolding sscanf_user first
sscanf_user-IsUser line u h = elim (Option-cases (scan_user line)) [
  | inl e ↦ absurd (cc)
  | inr ((v, rest), e) ↦ let p : v ≡ u = cc in rw (← p) ((scan_user-result line v rest e).0)
]
