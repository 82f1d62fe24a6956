-- ===== src/Database/Accounts/Loops.antt =====
-- The loops of the account functions, on the lines of a printed table.
use messaging_service.Prelude.{
  ℕ, ◌≡◌, refl, Bool, true, false, Option, none, some, inl, inr, [], ◌∷◌, ◌++◌, map, Bytes,
  if◌then◌else◌, ◌==◌, All, arith, Bool-cases, append-nil, append_assoc, codes,
}
use messaging_service.Text.Chars.{streq, streq_iff}
use messaging_service.Users.{User, format_user}
use messaging_service.Users.Laws.{IsUser, sscanf_user-format_user}
use messaging_service.Users.Table.{
  Table, print_table, print_table-cons, lookup, Fresh, Distinct, modify, without,
}
use messaging_service.Database.Accounts.{name_taken, unregister_loop, connect_loop, disconnect_loop}

abbrev pub is_some {ℓ} : {A : Type ℓ} → Option A → Bool
is_some none = false
is_some (some a) = true

pub name_taken-lookup :
    (n : Bytes) (t : Table) → All IsUser t → name_taken n (map format_user t) ≡ is_some (lookup n t)
unfolding name_taken lookup
name_taken-lookup n [] v = refl
name_taken-lookup n (u ∷ t) v =
    rw (sscanf_user-format_user u v.0, name_taken) (ground (arith, name_taken-lookup n t v.1))

print-cons :
    (out : Bytes) (u : User) (t : Table)
    → (out ++ format_user u) ++ print_table t ≡ out ++ print_table (u ∷ t)
print-cons out u t = rw print_table-cons (rw append_assoc)

pub unregister_loop-without :
    (n : Bytes) (t : Table) (found : Bool) (out : Bytes)
    → All IsUser t
    → unregister_loop n (map format_user t) found out
      ≡ ((if found then true else is_some (lookup n t)), out ++ print_table (without n t))
unfolding unregister_loop lookup without
unregister_loop-without n [] found out v = unfold print_table in rw append-nil (ground arith)
unregister_loop-without n (u ∷ t) found out v =
    rw (sscanf_user-format_user u v.0, unregister_loop)
      (elim (Bool-cases (streq u.name n)) [
        | inl e ↦ rw e (rw (unregister_loop-without n t true out v.1) (ground arith))
        | inr e ↦
            rw e (rw (unregister_loop-without n t found (out ++ format_user u) v.1) (rw print-cons))
      ])

unfoldable pub go_online : Bytes → ℕ → User → User
go_online ip port u =
    if u.connected == 1 then u else record u { connected = 1; ip = ip; port = port }

unfoldable pub go_offline : User → User
go_offline u =
    if u.connected == 0 then u else record u { connected = 0; ip = codes "0.0.0.0"; port = 0 }

-- The status that the loop ends with: that of the last line of the name.
unfoldable pub status_of : ℕ → Bytes → Table → ℕ → ℕ
status_of refused n [] status = status
status_of refused n (u ∷ t) status =
    status_of refused n t
      (if streq u.name n then (if u.connected == refused then 2 else 0) else status)

status_of-Fresh :
    (refused : ℕ) (n : Bytes) (t : Table) (status : ℕ)
    → Fresh n t
    → status_of refused n t status ≡ status
unfolding status_of
status_of-Fresh refused n [] status h = refl
status_of-Fresh refused n (u ∷ t) status h = rw h.0 (status_of-Fresh refused n t status h.1)

-- With distinct names it is the status of the one line of the name.
pub status_of-lookup :
    (refused : ℕ) (n : Bytes) (t : Table) (status : ℕ)
    → Distinct t
    → status_of refused n t status
      ≡ elim (lookup n t) [ none ↦ status | some u ↦ if u.connected == refused then 2 else 0 ]
unfolding status_of lookup
status_of-lookup refused n [] status d = refl
status_of-lookup refused n (u ∷ t) status d = elim (Bool-cases (streq u.name n)) [
  | inl e ↦ rw e (status_of-Fresh refused n t _ (rw ((streq_iff u.name n).0 e) at (d.0)))
  | inr e ↦ rw e (status_of-lookup refused n t status d.1)
]

pub connect_loop-modify :
    (n ip : Bytes) (port : ℕ) (t : Table) (status : ℕ) (out : Bytes)
    → All IsUser t
    → connect_loop n ip port (map format_user t) status out
      ≡ (status_of 1 n t status, out ++ print_table (modify n (go_online ip port) t))
unfolding connect_loop status_of modify go_online
connect_loop-modify n ip port [] status out v = unfold print_table in rw append-nil refl
connect_loop-modify n ip port (u ∷ t) status out v =
    rw (sscanf_user-format_user u v.0, connect_loop)
      (elim (Bool-cases (streq u.name n)) [
        | inl e ↦ elim (Bool-cases (u.connected == 1)) [
          | inl c ↦
              rw (e, c)
                (rw (connect_loop-modify n ip port t 2 (out ++ format_user u) v.1) (rw print-cons))
          | inr c ↦ rw (e, c) (rw (connect_loop-modify n ip port t 0 _ v.1) (rw print-cons))
        ]
        | inr e ↦
            rw e (
              rw (connect_loop-modify n ip port t status (out ++ format_user u) v.1)
                (rw print-cons))
      ])

pub disconnect_loop-modify :
    (n : Bytes) (t : Table) (status : ℕ) (out : Bytes)
    → All IsUser t
    → disconnect_loop n (map format_user t) status out
      ≡ (status_of 0 n t status, out ++ print_table (modify n go_offline t))
unfolding disconnect_loop status_of modify go_offline
disconnect_loop-modify n [] status out v = unfold print_table in rw append-nil refl
disconnect_loop-modify n (u ∷ t) status out v =
    rw (sscanf_user-format_user u v.0, disconnect_loop)
      (elim (Bool-cases (streq u.name n)) [
        | inl e ↦ elim (Bool-cases (u.connected == 0)) [
          | inl c ↦
              rw (e, c)
                (rw (disconnect_loop-modify n t 2 (out ++ format_user u) v.1) (rw print-cons))
          | inr c ↦ rw (e, c) (rw (disconnect_loop-modify n t 0 _ v.1) (rw print-cons))
        ]
        | inr e ↦
            rw e (rw (disconnect_loop-modify n t status (out ++ format_user u) v.1) (rw print-cons))
      ])
