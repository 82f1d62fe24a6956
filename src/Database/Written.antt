-- ===== src/Database/Written.antt =====
-- database.c: the lines that db_register and the copy loops of db_unregister, db_connect, db_disconnect and
-- db_prepare_message print into `line_buf`.
use messaging_service.Prelude.{
  ℕ, ◌+◌, ◌≤◌, ◌<◌, Bool, true, false, inl, inr, List, [], ◌∷◌, ◌++◌, Bytes, arith, length,
  length-append, Bool-cases, Option-cases, ◌==◌, codes,
}
use messaging_service.Text.Chars.{streq}
use messaging_service.Text.Decimal.{print_unsigned}
use messaging_service.Text.Scan.{word_mod, print_int}
use messaging_service.Text.Scan.Laws.{IsWord}
use messaging_service.Users.{User, format_user, sscanf_user, line_buf_size}
use messaging_service.Users.Laws.{IsUser, length-format_user}
use messaging_service.Users.Scanned.{sscanf_user-IsUser}
use messaging_service.Database.Accounts.{new_user, unregister_loop, connect_loop, disconnect_loop}
use messaging_service.Database.Accounts.Refinement.{unassigned-IsWord}
use messaging_service.Database.Prepare.{Prepared, count_message, prepare_loop}
use messaging_service.Database.Prepare.Refinement.{count_message-IsUser}

-- The line of a user and its terminating zero fit `line_buf`.
abbrev pub Fits : User → Type 0
Fits u = length (format_user u) + 1 ≤ line_buf_size

-- What has been written to the temporary file: lines that fit.
pub data Written : Bytes → Type 0 where
  nothing : Written []
  line : {out : Bytes} (u : User) → Fits u → Written out → Written (out ++ format_user u)

another : {out : Bytes} (u : User) → IsUser u → Written out → Written (out ++ format_user u)
another u v w = Written.line u (length-format_user u v) w

unregister_loop-Written :
    (n : Bytes) (lines : List Bytes) (found : Bool) (out : Bytes)
    → Written out
    → Written (unregister_loop n lines found out).1
unfolding unregister_loop
unregister_loop-Written n [] found out w = w
unregister_loop-Written n (l ∷ lines) found out w = elim (Option-cases (sscanf_user l)) [
  | inl e ↦ rw (e, unregister_loop) (unregister_loop-Written n lines found out w)
  | inr (u, e) ↦ elim (Bool-cases (streq u.name n)) [
    | inl s ↦ rw (e, unregister_loop) (rw s (unregister_loop-Written n lines true out w))
    | inr s ↦
        rw (e, unregister_loop)
          (rw s (unregister_loop-Written n lines found _ (another u (sscanf_user-IsUser l u e) w)))
  ]
]

connect_loop-Written :
    (n ip : Bytes) (port : ℕ) (lines : List Bytes) (status : ℕ) (out : Bytes)
    → IsWord 19 ip
    → port < word_mod
    → Written out
    → Written (connect_loop n ip port lines status out).1
unfolding connect_loop
connect_loop-Written n ip port [] status out a p w = w
connect_loop-Written n ip port (l ∷ lines) status out a p w = elim (Option-cases (sscanf_user l)) [
  | inl e ↦ rw (e, connect_loop) (connect_loop-Written n ip port lines status out a p w)
  | inr (u, e) ↦
      let v = sscanf_user-IsUser l u e in
      let online : User = record u { connected = 1; ip = ip; port = port } in
      elim (Bool-cases (streq u.name n)) [
        | inl s ↦ elim (Bool-cases (u.connected == 1)) [
          | inl c ↦
              rw (e, connect_loop)
                (rw s (rw c (connect_loop-Written n ip port lines 2 _ a p (another u v w))))
          | inr c ↦
              rw (e, connect_loop)
                (rw s (
                  rw c (
                    connect_loop-Written n ip port lines 0 _ a p (
                      another online
                        (record {
                          name = v.name;
                          connected = omega arith;
                          ip = a;
                          port = p;
                          last_id = v.last_id;
                        })
                        w))))
        ]
        | inr s ↦
            rw (e, connect_loop)
              (rw s (connect_loop-Written n ip port lines status _ a p (another u v w)))
      ]
]

disconnect_loop-Written :
    (n : Bytes) (lines : List Bytes) (status : ℕ) (out : Bytes)
    → Written out
    → Written (disconnect_loop n lines status out).1
unfolding disconnect_loop
disconnect_loop-Written n [] status out w = w
disconnect_loop-Written n (l ∷ lines) status out w = elim (Option-cases (sscanf_user l)) [
  | inl e ↦ rw (e, disconnect_loop) (disconnect_loop-Written n lines status out w)
  | inr (u, e) ↦
      let v = sscanf_user-IsUser l u e in
      let offline : User = record u { connected = 0; ip = codes "0.0.0.0"; port = 0 } in
      elim (Bool-cases (streq u.name n)) [
        | inl s ↦ elim (Bool-cases (u.connected == 0)) [
          | inl c ↦
              rw (e, disconnect_loop)
                (rw s (rw c (disconnect_loop-Written n lines 2 _ (another u v w))))
          | inr c ↦
              rw (e, disconnect_loop)
                (rw s (
                  rw c (
                    disconnect_loop-Written n lines 0 _ (
                      another offline
                        (record {
                          name = v.name;
                          connected = omega arith;
                          ip = unassigned-IsWord;
                          port = omega arith;
                          last_id = v.last_id;
                        })
                        w))))
        ]
        | inr s ↦
            rw (e, disconnect_loop)
              (rw s (disconnect_loop-Written n lines status _ (another u v w)))
      ]
]

prepare_loop-Written :
    (a b : Bytes) (lines : List Bytes) (p : Prepared) (out : Bytes)
    → Written out
    → Written (prepare_loop a b lines p out).1
unfolding prepare_loop
prepare_loop-Written a b [] p out w = w
prepare_loop-Written a b (l ∷ lines) p out w = elim (Option-cases (sscanf_user l)) [
  | inl e ↦ rw (e, prepare_loop) (prepare_loop-Written a b lines p out w)
  | inr (u, e) ↦
      rw (e, prepare_loop)
        (prepare_loop-Written a b lines _ _
          (another (count_message a u) (count_message-IsUser a u (sscanf_user-IsUser l u e)) w))
]

new_user-Fits : (n : Bytes) → length n ≤ 255 → Fits (new_user n)
unfolding format_user new_user print_int print_unsigned
new_user-Fits n h = omega (arith, length-append n (codes " 0 0.0.0.0 0 0\n"))

-- For a name of at most 255 bytes, an address of 1 to 19 bytes without white space and a 32-bit port,
-- whatever lines stand in usuarios.txt: the line that db_register prints for the name fits `line_buf`
-- with its terminating zero, and what the copy loops of db_unregister, db_connect, db_disconnect and
-- db_prepare_message write to the temporary file is a sequence of lines that fit it so, those with a
-- changed state, address, port or id included.
pub printed_lines_fit :
    (n a b ip : Bytes) (port : ℕ) (p : Prepared) (lines : List Bytes)
    → length n ≤ 255
    → IsWord 19 ip
    → port < word_mod
    → Fits (new_user n)
      × Written (unregister_loop n lines false []).1
      × Written (connect_loop n ip port lines 1 []).1
      × Written (disconnect_loop n lines 1 []).1
      × Written (prepare_loop a b lines p []).1
printed_lines_fit n a b ip port p lines h w q = (
  new_user-Fits n h,
  unregister_loop-Written n lines false [] Written.nothing,
  connect_loop-Written n ip port lines 1 [] w q Written.nothing,
  disconnect_loop-Written n lines 1 [] Written.nothing,
  prepare_loop-Written a b lines p [] Written.nothing,
)
