-- ===== src/Users/Table.antt =====
-- The content of usuarios.txt as a table of users, and how look-ups see a change of it.
use mathlib.Core.List.{flatten}
use mathlib.Core.Option
use messaging_service.Prelude.{
  ◌≡◌, refl, false, Option, none, some, inl, inr, List, [], ◌∷◌, ◌++◌, map, Bytes, if◌then◌else◌,
  All, All-append, arith, Bool-cases, append_assoc,
}
use messaging_service.Text.Chars.{streq, streq_iff}
use messaging_service.Users.{User, format_user, lines_of}
use messaging_service.Users.Lines.{IsLine, lines_of-flatten}
use messaging_service.Users.Laws.{IsUser, format_user-IsLine}

abbrev pub Table : Type 0
Table = List User

-- The file: one line for each user.
unfoldable pub print_table : Table → Bytes
unfolding flatten
print_table t = flatten (map format_user t)

-- The first user of that name.
unfoldable pub lookup : Bytes → Table → Option User
lookup n [] = none
lookup n (u ∷ t) = if streq u.name n then some u else lookup n t

-- No user of the table has the name.
abbrev pub Fresh : Bytes → Table → Type 0
Fresh n t = All (λ u. streq u.name n ≡ false) t

abbrev pub Distinct : Table → Type 0
Distinct [] = Unit
Distinct (u ∷ t) = Fresh u.name t × Distinct t

-- `f` on the users of that name.
unfoldable pub modify : Bytes → (User → User) → Table → Table
modify n f [] = []
modify n f (u ∷ t) = (if streq u.name n then f u else u) ∷ modify n f t

unfoldable pub without : Bytes → Table → Table
without n [] = []
without n (u ∷ t) = if streq u.name n then without n t else u ∷ without n t

pub print_table-cons : (u : User) (t : Table) → print_table (u ∷ t) ≡ format_user u ++ print_table t
unfolding print_table
print_table-cons u t = refl

pub print_table-append : (t s : Table) → print_table (t ++ s) ≡ print_table t ++ print_table s
unfolding print_table
print_table-append [] s = refl
print_table-append (u ∷ t) s = rw (print_table-append t s) (rw append_assoc)

map-IsLine : (t : Table) → All IsUser t → All IsLine (map format_user t)
map-IsLine [] v = tt
map-IsLine (u ∷ t) v = (format_user-IsLine u v.0, map-IsLine t v.1)

-- The loop over the lines of a printed table sees one line for each user.
pub lines_of-print_table : (t : Table) → All IsUser t → lines_of (print_table t) ≡ map format_user t
unfolding print_table
lines_of-print_table t v = lines_of-flatten (map format_user t) (map-IsLine t v)

pub lookup-Fresh : (n : Bytes) (t : Table) → lookup n t ≡ none → Fresh n t
unfolding lookup
lookup-Fresh n [] h = tt
lookup-Fresh n (u ∷ t) h = elim (Bool-cases (streq u.name n)) [
  | inl e ↦ ground arith
  | inr e ↦ (e, lookup-Fresh n t (rw e at h))
]

pub Fresh-lookup : (n : Bytes) (t : Table) → Fresh n t → lookup n t ≡ none
unfolding lookup
Fresh-lookup n [] h = refl
Fresh-lookup n (u ∷ t) h = rw h.0 (Fresh-lookup n t h.1)

pub lookup-name : (n : Bytes) (t : Table) {u : User} → lookup n t ≡ some u → u.name ≡ n
unfolding lookup
lookup-name n [] h = ground arith
lookup-name n (v ∷ t) {u} h = elim (Bool-cases (streq v.name n)) [
  | inl e ↦ ground (arith, (streq_iff v.name n).0 e)
  | inr e ↦ lookup-name n t (rw e at h)
]

pub lookup-IsUser :
    (n : Bytes) (t : Table) {u : User} → All IsUser t → lookup n t ≡ some u → IsUser u
unfolding lookup
lookup-IsUser n [] v h = ground arith
lookup-IsUser n (w ∷ t) {u} v h = elim (Bool-cases (streq w.name n)) [
  | inl e ↦ let p : some w ≡ some u = rw e at h in let q : w ≡ u = cc in rw q at (v.0)
  | inr e ↦ lookup-IsUser n t v.1 (rw e at h)
]

pub lookup-append :
    (j : Bytes) (t : Table) (u : User)
    → Fresh u.name t
    → lookup j (t ++ u ∷ []) ≡ (if streq u.name j then some u else lookup j t)
unfolding lookup
lookup-append j [] u h = refl
lookup-append j (w ∷ t) u h = ground (
  arith,
  lookup-append j t u h.1,
  streq_iff u.name j,
  streq_iff w.name j,
  streq_iff w.name u.name,
)

pub lookup-modify :
    (n j : Bytes) (f : User → User) (t : Table)
    → ((u : User) → (f u).name ≡ u.name)
    → lookup j (modify n f t) ≡ (if streq n j then Option.map f (lookup j t) else lookup j t)
unfolding lookup modify
lookup-modify n j f [] h = ground arith
lookup-modify n j f (w ∷ t) h =
    ground
      (arith, lookup-modify n j f t h, h w, streq_iff w.name n, streq_iff w.name j, streq_iff n j)

pub lookup-without :
    (n j : Bytes) (t : Table) → lookup j (without n t) ≡ (if streq n j then none else lookup j t)
unfolding lookup without
lookup-without n j [] = ground arith
lookup-without n j (w ∷ t) =
    ground (arith, lookup-without n j t, streq_iff w.name n, streq_iff w.name j, streq_iff n j)

Fresh_symm : (a b : Bytes) → streq a b ≡ false → streq b a ≡ false
Fresh_symm a b h = ground (arith, streq_iff a b, streq_iff b a)

-- The changes keep a table valid and its names distinct.
pub modify-All :
    (P : User → Type 0) (n : Bytes) (f : User → User) (t : Table)
    → ((u : User) → P u → P (f u))
    → All P t
    → All P (modify n f t)
unfolding modify
modify-All P n f [] h v = tt
modify-All P n f (u ∷ t) h v = elim (Bool-cases (streq u.name n)) [
  | inl e ↦ rw e (h u v.0, modify-All P n f t h v.1)
  | inr e ↦ rw e (v.0, modify-All P n f t h v.1)
]

pub without-All : (P : User → Type 0) (n : Bytes) (t : Table) → All P t → All P (without n t)
unfolding without
without-All P n [] v = tt
without-All P n (u ∷ t) v = elim (Bool-cases (streq u.name n)) [
  | inl e ↦ rw e (without-All P n t v.1)
  | inr e ↦ rw e (v.0, without-All P n t v.1)
]

pub without-Distinct : (n : Bytes) (t : Table) → Distinct t → Distinct (without n t)
unfolding without
without-Distinct n [] d = tt
without-Distinct n (u ∷ t) d = elim (Bool-cases (streq u.name n)) [
  | inl e ↦ rw e (without-Distinct n t d.1)
  | inr e ↦ rw e (without-All (λ v. streq v.name u.name ≡ false) n t d.0, without-Distinct n t d.1)
]

pub modify-Distinct :
    (n : Bytes) (f : User → User) (t : Table)
    → ((u : User) → (f u).name ≡ u.name)
    → Distinct t
    → Distinct (modify n f t)
unfolding modify
modify-Distinct n f [] h d = tt
modify-Distinct n f (u ∷ t) h d =
    let keeps : (m : Bytes) (v : User) → streq v.name m ≡ false → streq ((f v).name) m ≡ false =
      λ m v e. rw (h v) e in
    elim (Bool-cases (streq u.name n)) [
      | inl e ↦ rw e (
        rw (h u) (modify-All (λ v. streq v.name u.name ≡ false) n f t (keeps u.name) d.0),
        modify-Distinct n f t h d.1,
      )
      | inr e ↦ rw e (
        modify-All (λ v. streq v.name u.name ≡ false) n f t (keeps u.name) d.0,
        modify-Distinct n f t h d.1,
      )
    ]

pub append-Distinct : (t : Table) (u : User) → Fresh u.name t → Distinct t → Distinct (t ++ u ∷ [])
append-Distinct [] u h d = (tt, tt)
append-Distinct (w ∷ t) u h d =
    (All-append _ t (u ∷ []) d.0 (Fresh_symm w.name u.name h.0, tt), append-Distinct t u h.1 d.1)
