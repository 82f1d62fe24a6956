-- ===== src/Database/Online/Info.antt =====
-- funciones.c: get_user_info, which reads usuarios.txt as one stream, beside the line readers of
-- database.c.
use messaging_service.Prelude.{
  ℕ, zero, suc, ◌≤◌, ◌<◌, ◌≡◌, refl, ap, ◌∙◌, false, Option, none, some, inl, inr, [], ◌∷◌, ◌++◌,
  Bytes, if◌then◌else◌, All, arith, Bool-cases, Option-cases, length, length-append, append-nil,
  append_assoc,
}
use messaging_service.Text.Chars.{streq}
use messaging_service.Users.{User, format_user, scan_user, newline, blank}
use messaging_service.Text.Scan.{scan_word, skip_space, take_word}
use messaging_service.Users.Laws.{IsUser, scan_user-format_user, scan_user-newline}
use messaging_service.Users.Table.{Table, print_table, print_table-cons, lookup}
use messaging_service.Users.Scanned.{scan_user-result}
use messaging_service.Disk.{Disk, Refusals, open_users, usuarios, read_only}
use messaging_service.Directory.{Represents, UsersAllowed}
use messaging_service.Database.Accounts.Refinement.{open_users-some}
use messaging_service.Database.Online.{UserInfo, ended, fscanf_loop, get_user_info}

-- What get_user_info tells of a user.
unfoldable pub info : Option User → Option UserInfo
info none = none
info (some u) = some (record { connected = u.connected; ip = u.ip; port = u.port })

fscanf_loop-newline :
    (fuel : ℕ) (n s : Bytes) → fscanf_loop fuel n (newline ∷ s) ≡ fscanf_loop fuel n s
unfolding fscanf_loop
fscanf_loop-newline zero n s = refl
fscanf_loop-newline (suc fuel) n s = rw (scan_user-newline s, fscanf_loop)

fscanf_loop-step :
    (fuel : ℕ) (n : Bytes) (u : User) (s : Bytes)
    → IsUser u
    → fscanf_loop (suc fuel) n (format_user u ++ s)
      ≡ (if streq u.name n then some (info (some u)) else fscanf_loop fuel n s)
unfolding fscanf_loop info
fscanf_loop-step fuel n u s v =
    rw (scan_user-format_user u s v, fscanf_loop)
      (elim (Bool-cases (streq u.name n)) [
        | inl e ↦ rw e
        | inr e ↦ rw e (fscanf_loop-newline fuel n s)
      ])

fscanf_loop-none :
    (fuel : ℕ) (n s : Bytes) → scan_user s ≡ none → fscanf_loop (suc fuel) n s ≡ some none
unfolding fscanf_loop
fscanf_loop-none fuel n s h = rw (h, fscanf_loop)

fscanf_loop-table :
    (fuel : ℕ) (n : Bytes) (t : Table) (s : Bytes)
    → All IsUser t
    → length t < fuel
    → scan_user s ≡ none
    → fscanf_loop fuel n (print_table t ++ s) ≡ some (info (lookup n t))
fscanf_loop-table zero n t s v h z = absurd (omega arith)
fscanf_loop-table (suc fuel) n [] s v h z =
    unfold print_table lookup info in fscanf_loop-none fuel n s z
fscanf_loop-table (suc fuel) n (u ∷ t) s v h z = rw print_table-cons (
    rw append_assoc (
      rw (fscanf_loop-step fuel n u (print_table t ++ s) v.0)
        (rw (fscanf_loop-table fuel n t s v.1 (omega arith) z) (unfold lookup in ground arith))))

format_user-nonempty : (u : User) → IsUser u → 0 < length (format_user u)
unfolding format_user
format_user-nonempty u v = omega (arith, v.name.nonempty, length-append u.name (blank ∷ _))

length-print_table : (t : Table) → All IsUser t → length t ≤ length (print_table t)
length-print_table [] v = omega arith
length-print_table (u ∷ t) v = rw print_table-cons (
    omega (
      arith,
      length-append (format_user u) (print_table t),
      length-print_table t v.1,
      format_user-nonempty u v.0,
    ))

scan_user-nil : scan_user [] ≡ none
unfolding scan_user scan_word skip_space take_word
scan_user-nil = refl

-- On a disk that holds a table, where no file of the user table is refused, get_user_info returns the
-- connection state, address and port that the table has for that name, and -1 where it has none.
pub get_user_info-lookup :
    (refuses : Refusals) (n : Bytes) (d : Disk) (t : Table)
    → UsersAllowed refuses
    → Represents d t
    → get_user_info refuses n d ≡ info (lookup n t)
unfolding get_user_info
get_user_info-lookup refuses n d t a r =
    rw (open_users-some refuses d t a r, get_user_info)
      (rw (← append-nil (print_table t)) (
        ap ended (
          fscanf_loop-table (suc (length (print_table t ++ []))) n t [] r.valid
            (omega (arith, length-print_table t r.valid, length-append (print_table t) []))
            scan_user-nil)))

-- Where usuarios.txt can be read and holds valid lines followed by a text that does not scan as a
-- user, get_user_info finds no user who is not in those lines, whatever that text and the lines behind
-- it are.
pub get_user_info_blocked :
    (refuses : Refusals) (n : Bytes) (d : Disk) (t : Table) (s : Bytes)
    → refuses usuarios read_only ≡ false
    → d.users ≡ some (print_table t ++ s)
    → All IsUser t
    → lookup n t ≡ none
    → scan_user s ≡ none
    → get_user_info refuses n d ≡ none
unfolding get_user_info open_users
get_user_info_blocked refuses n d t s a e v f z =
    rw (a, get_user_info)
      (rw (e, get_user_info)
        (ap ended (
            fscanf_loop-table (suc (length (print_table t ++ s))) n t s v
              (omega (arith, length-print_table t v, length-append (print_table t) s)) z)
          ∙ (rw f (unfold info in refl))))

loops_agree :
    (f g : ℕ) (n s : Bytes)
    → length s < f
    → length s < g
    → fscanf_loop f n s ≡ some (ended (fscanf_loop g n s))
unfolding fscanf_loop
loops_agree zero g n s h k = absurd (omega arith)
loops_agree (suc f) zero n s h k = absurd (omega arith)
loops_agree (suc f) (suc g) n s h k = elim (Option-cases (scan_user s)) [
  | inl e ↦ rw (e, fscanf_loop) refl
  | inr ((u, rest), e) ↦
      let shorter = (scan_user-result s u rest e).1 in
      rw (e, fscanf_loop)
        (elim (Bool-cases (streq u.name n)) [
          | inl b ↦ rw b refl
          | inr b ↦ rw b (loops_agree f g n rest (omega (arith, shorter)) (omega (arith, shorter)))
        ])
]

-- With any fuel above the number of bytes of the stream the loop of get_user_info comes to its end,
-- whatever the stream is, and with the result that get_user_info takes from it.
pub fscanf_loop_ends :
    (fuel : ℕ) (n s : Bytes)
    → length s < fuel
    → fscanf_loop fuel n s ≡ some (ended (fscanf_loop (suc (length s)) n s))
fscanf_loop_ends fuel n s h = loops_agree fuel (suc (length s)) n s h (omega arith)
