-- ===== src/Database/Accounts/Names.antt =====
-- database.c: db_register, for a name with white space in it.
use messaging_service.Prelude.{
  ℕ, ◌≡◌, refl, subst, true, false, Option, none, some, inl, inr, List, [], ◌∷◌, ◌++◌, Bytes, All,
  arith, Bool-cases, Option-cases,
}
use messaging_service.Text.Chars.{streq, streq_iff, is_space}
use messaging_service.Text.Scan.Laws.{IsGraphic}
use messaging_service.Users.{format_user, sscanf_user, lines_of}
use messaging_service.Users.Scanned.{sscanf_user-IsUser}
use messaging_service.Disk.{Disk, Refusals, usuarios, append, open_users, or_empty}
use messaging_service.Database.Accounts.{name_taken, taken, new_user, db_register}

graphic_split : (a b : Bytes) (c : ℕ) → is_space c ≡ true → All IsGraphic (a ++ c ∷ b) → ⊥
graphic_split [] b c e h = ground (arith, h.0)
graphic_split (x ∷ a) b c e h = graphic_split a b c e h.1

name_taken-blank :
    (a b : Bytes) (c : ℕ) (lines : List Bytes)
    → is_space c ≡ true
    → name_taken (a ++ c ∷ b) lines ≡ false
unfolding name_taken
name_taken-blank a b c [] e = refl
name_taken-blank a b c (line ∷ lines) e = elim (Option-cases (sscanf_user line)) [
  | inl s ↦ rw (s, name_taken) (name_taken-blank a b c lines e)
  | inr (u, s) ↦
      rw (s, name_taken)
        (elim (Bool-cases (streq u.name (a ++ c ∷ b))) [
          | inl f ↦ absurd (
              graphic_split a b c e (
                subst (All IsGraphic) ((streq_iff u.name (a ++ c ∷ b)).0 f)
                  (sscanf_user-IsUser line u s).name.graphic))
          | inr f ↦ rw f (name_taken-blank a b c lines e)
        ])
]

taken-blank :
    (a b : Bytes) (c : ℕ) (file : Option Bytes)
    → is_space c ≡ true
    → taken (a ++ c ∷ b) file ≡ false
unfolding taken
taken-blank a b c none e = refl
taken-blank a b c (some content) e = name_taken-blank a b c (lines_of content) e

-- Where usuarios.txt may be opened for appending, db_register of a name with white space in it returns
-- 0 and appends a line, whatever the file holds: also when the name has been registered before.
pub db_register_again :
    (refuses : Refusals) (a b : Bytes) (c : ℕ) (d : Disk)
    → is_space c ≡ true
    → refuses usuarios append ≡ false
    → ((db_register refuses (a ++ c ∷ b) d).0 ≡ 0)
      × ((db_register refuses (a ++ c ∷ b) d).1.users
          ≡ some (or_empty d.users ++ format_user (new_user (a ++ c ∷ b))))
unfolding db_register
db_register_again refuses a b c d e f =
    rw (taken-blank a b c (open_users refuses d) e) (rw f (refl, refl))
