-- ===== src/Database/Prepare/Refinement.antt =====
-- database.c: db_prepare_message, against the directory, and what it writes through its pointers.
use messaging_service.Prelude.{
  ℕ, ◌<◌, ◌≡◌, refl, ap, ◌∙◌, Bool, true, false, some, inl, inr, [], ◌∷◌, ◌++◌, map, Bytes,
  if◌then◌else◌, All, arith, Bool-cases, Option-cases, append-nil, append_assoc,
}
use messaging_service.Text.Chars.{streq, streq_iff}
use messaging_service.Text.Scan.{word_mod}
use messaging_service.Users.{User, format_user}
use messaging_service.Users.Laws.{IsUser, sscanf_user-format_user}
use messaging_service.Users.Table.{
  Table, print_table, print_table-cons, lookup, Fresh, Distinct, modify, lines_of-print_table,
  lookup-IsUser, lookup-modify, modify-All, modify-Distinct,
}
use messaging_service.Disk.{Disk, Refusals}
use messaging_service.Directory.{
  assign, Represents, Refines, UsersAllowed, prepare_spec, following_id,
}
use messaging_service.Database.Accounts.Loops.{is_some}
use messaging_service.Database.Accounts.Refinement.{open_users-some}
use messaging_service.Database.Prepare.{
  Prepared, next_id, exist_loop, count_message, note_sender, note_receiver, prepare_loop,
  prepare_end, db_prepare_message,
}

pub exist_loop-lookup :
    (a b : Bytes) (t : Table) (s r : Bool)
    → All IsUser t
    → exist_loop a b (map format_user t) s r
      ≡ ((if s then true else is_some (lookup a t)), (if r then true else is_some (lookup b t)))
unfolding exist_loop lookup
exist_loop-lookup a b [] s r v = ground arith
exist_loop-lookup a b (u ∷ t) s r v =
    rw (sscanf_user-format_user u v.0, exist_loop)
      (rw
        (exist_loop-lookup a b t (if streq u.name a then true else s)
          (if streq u.name b then true else r) v.1)
        (ground arith))

-- What the second pass leaves in the output variables.
outputs : Bytes → Bytes → Table → Prepared → Prepared
outputs a b [] p = p
outputs a b (u ∷ t) p =
    outputs a b t (note_receiver b (count_message a u) (note_sender a (count_message a u) p))

bump : User → User
bump u = record u { last_id = next_id u.last_id }

count_message-bump :
    (a : Bytes) (u : User) → count_message a u ≡ (if streq u.name a then bump u else u)
unfolding count_message bump
count_message-bump a u = refl

prepare_loop-modify :
    (a b : Bytes) (t : Table) (p : Prepared) (out : Bytes)
    → All IsUser t
    → prepare_loop a b (map format_user t) p out
      ≡ (outputs a b t p, out ++ print_table (modify a bump t))
unfolding prepare_loop outputs modify
prepare_loop-modify a b [] p out v = unfold print_table in rw append-nil refl
prepare_loop-modify a b (u ∷ t) p out v =
    rw (sscanf_user-format_user u v.0, prepare_loop)
      (rw (prepare_loop-modify a b t _ _ v.1)
        (rw print_table-cons (rw append_assoc (rw count_message-bump))))

Fresh-outputs_id :
    (a b : Bytes) (t : Table) (p : Prepared) → Fresh a t → (outputs a b t p).msg_id ≡ p.msg_id
unfolding outputs count_message note_sender note_receiver
Fresh-outputs_id a b [] p f = refl
Fresh-outputs_id a b (u ∷ t) p f = Fresh-outputs_id a b t _ f.1 ∙ ground arith

outputs-msg_id :
    (a b : Bytes) (t : Table) (p : Prepared) {u : User}
    → Distinct t
    → lookup a t ≡ some u
    → (outputs a b t p).msg_id ≡ next_id u.last_id
unfolding outputs lookup
outputs-msg_id a b [] p d h = cc
outputs-msg_id a b (w ∷ t) p {u} d h = elim (Bool-cases (streq w.name a)) [
  | inl e ↦
      let same : w ≡ u = ground arith in
      Fresh-outputs_id a b t _ (rw ((streq_iff w.name a).0 e) at (d.0))
      ∙ unfold count_message note_sender note_receiver in ground (arith, same)
  | inr e ↦ outputs-msg_id a b t _ d.1 (rw e at h)
]

-- The receiver's part of the output variables.
abbrev seen : Prepared → ℕ × Bytes × ℕ
seen p = (p.recv_connected, p.recv_ip, p.recv_port)

Fresh-outputs-seen :
    (a b : Bytes) (t : Table) (p : Prepared) → Fresh b t → seen (outputs a b t p) ≡ seen p
unfolding outputs count_message note_sender note_receiver
Fresh-outputs-seen a b [] p f = refl
Fresh-outputs-seen a b (u ∷ t) p f = Fresh-outputs-seen a b t _ f.1 ∙ ground arith

outputs-seen :
    (a b : Bytes) (t : Table) (p : Prepared) {v : User}
    → Distinct t
    → lookup b t ≡ some v
    → seen (outputs a b t p) ≡ (v.connected, v.ip, v.port)
unfolding outputs lookup
outputs-seen a b [] p d h = cc
outputs-seen a b (w ∷ t) p {v} d h = elim (Bool-cases (streq w.name b)) [
  | inl e ↦
      let same : w ≡ v = ground arith in
      Fresh-outputs-seen a b t _ (rw ((streq_iff w.name b).0 e) at (d.0))
      ∙ unfold count_message note_sender note_receiver in ground (arith, same)
  | inr e ↦ outputs-seen a b t _ d.1 (rw e at h)
]

next_id-following_id : (n : ℕ) → n < word_mod → next_id n ≡ following_id n
unfolding next_id following_id
next_id-following_id n h = ground arith

-- The id is never 0 and never wraps past 32 bits.
pub next_id_range : (n : ℕ) → n < word_mod → (0 < next_id n) × (next_id n < word_mod)
unfolding next_id
next_id_range n h = ground arith

bump-IsUser : (u : User) → IsUser u → IsUser (bump u)
unfolding bump
bump-IsUser u v = record {
  name = v.name;
  connected = v.connected;
  ip = v.ip;
  port = v.port;
  last_id = (next_id_range u.last_id v.last_id).1;
}

pub count_message-IsUser : (a : Bytes) (u : User) → IsUser u → IsUser (count_message a u)
unfolding count_message
count_message-IsUser a u v = elim (Bool-cases (streq u.name a)) [
  | inl e ↦ rw e (unfold bump in bump-IsUser u v)
  | inr e ↦ rw e v
]

bump_view :
    (a j : Bytes) (t : Table) (u : User)
    → IsUser u
    → lookup a t ≡ some u
    → lookup j (modify a bump t)
      ≡ assign a (some (record u { last_id = following_id u.last_id })) (λ i. lookup i t) j
unfolding bump assign
bump_view a j t u v e = ground (
  arith,
  lookup-modify a j bump t (λ _. refl),
  streq_iff a j,
  next_id-following_id u.last_id v.last_id,
)

-- The result code and the disk, without the output variables.
abbrev pub code_and_disk : ℕ × Prepared × Disk → ℕ × Disk
code_and_disk r = (r.0, r.2)

-- What SEND learns where both users exist: the sender's next id, and where the receiver is.
pub record Answers (r : ℕ × Prepared × Disk) (u v : User) : Type 0 where
  pub code : r.0 ≡ 0
  pub id : r.1.msg_id ≡ following_id u.last_id
  pub connected : r.1.recv_connected ≡ v.connected
  pub ip : r.1.recv_ip ≡ v.ip
  pub port : r.1.recv_port ≡ v.port

-- On a disk that holds a table, where no file of the user table is refused, db_prepare_message refines
-- `prepare_spec`: it returns 1 and changes no user where the sender or the receiver is missing, else
-- it returns 0 and the sender's last id moves on by one, from 2 ^ 32 - 1 to 1. The disk holds a table
-- again.
pub db_prepare_message-Refines :
    (refuses : Refusals) (a b : Bytes) (p : Prepared) (d : Disk) (t : Table)
    → UsersAllowed refuses
    → Represents d t
    → Refines t (prepare_spec a b) (code_and_disk (db_prepare_message refuses a b p d))
unfolding db_prepare_message prepare_spec bump
db_prepare_message-Refines refuses a b p d t w r =
    rw (open_users-some refuses d t w r, db_prepare_message)
      (rw (lines_of-print_table t r.valid) (
        rw (exist_loop-lookup a b t false false r.valid) (elim (Option-cases (lookup a t)) [
          | inl e ↦ rw e (record {
            table = t;
            represents = r;
            code = rw (e, prepare_spec);
            view = λ j. rw (e, prepare_spec);
          })
          | inr (u, e) ↦ elim (Option-cases (lookup b t)) [
            | inl f ↦
                rw (e, f)
                  (record {
                    table = t;
                    represents = r;
                    code = rw (e, prepare_spec) (rw f);
                    view = λ j. rw (e, prepare_spec) (rw f);
                  })
            | inr (v, f) ↦
                rw (e, f)
                  (rw (w.temp, prepare_end)
                    (rw (prepare_loop-modify a b t p [] r.valid) (record {
                      table = modify a bump t;
                      represents = record {
                        file = refl;
                        valid = modify-All IsUser a bump t bump-IsUser r.valid;
                        distinct = modify-Distinct a bump t (λ _. refl) r.distinct;
                      };
                      code = rw (e, prepare_spec) (rw f);
                      view = λ j.
                          rw (e, prepare_spec)
                            (rw f (bump_view a j t u (lookup-IsUser a t r.valid e) e));
                    })))
          ]
        ])))

-- On a disk that holds a table, where no file of the user table is refused and both users exist, the
-- result is 0 and the output variables are all written, whatever they held before: the id is the
-- sender's next one, and the connection state, address and port are the receiver's.
pub db_prepare_message-Answers :
    (refuses : Refusals) (a b : Bytes) (p : Prepared) (d : Disk) (t : Table) (u v : User)
    → UsersAllowed refuses
    → Represents d t
    → lookup a t ≡ some u
    → lookup b t ≡ some v
    → Answers (db_prepare_message refuses a b p d) u v
unfolding db_prepare_message
db_prepare_message-Answers refuses a b p d t u v w r e f =
    rw (open_users-some refuses d t w r, db_prepare_message)
      (rw (lines_of-print_table t r.valid) (
        rw (exist_loop-lookup a b t false false r.valid) (
          rw (e, f)
            (rw (w.temp, prepare_end)
              (rw (prepare_loop-modify a b t p [] r.valid) (record {
                code = refl;
                id =
                    outputs-msg_id a b t p r.distinct e
                    ∙ next_id-following_id u.last_id ((lookup-IsUser a t r.valid e).last_id);
                connected = ap (λ x. x.0) (outputs-seen a b t p r.distinct f);
                ip = ap (λ x. x.1) (outputs-seen a b t p r.distinct f);
                port = ap (λ x. x.2) (outputs-seen a b t p r.distinct f);
              }))))))
