-- ===== src/Server/Tables/Kept.antt =====
-- What becomes of one user of usuarios.txt while threads serve any requests.
use messaging_service.Prelude.{
  ◌≡◌, refl, ap, sym, ◌∙◌, ◌⊎◌, inl, inr, Option, some, List, [], ◌∷◌, map, Bytes, All, true, false,
  ◌==◌, codes, Bool-cases, Option-cases,
}
use messaging_service.Text.Chars.{streq, streq_iff, streq_refl}
use messaging_service.Users.{User}
use messaging_service.Users.Table.{Table, lookup}
use messaging_service.Disk.{Disk}
use messaging_service.Directory.{
  Directory, assign, Represents, register_spec, unregister_spec, connect_spec, disconnect_spec,
  prepare_spec, following_id,
}
use messaging_service.Directory.Commands.{
  Command, registers, unregisters, connects, disconnects, prepares, perform, perform_all,
}
use messaging_service.Program.Tables.{HoldsTable}
use messaging_service.Directory.{UsersAllowed}
use messaging_service.Server.{Threads, Steps}
use messaging_service.Server.Arrivals.{Arrival, thread}
use messaging_service.Server.Tables.Requests.{IsProper, Asked, Steps-Evolves}

-- The user whom a command changes.
abbrev target : Command → Bytes
target (registers n) = n
target (unregisters n) = n
target (connects n ip port) = n
target (disconnects n) = n
target (prepares a b) = a

perform-other :
    (c : Command) (n : Bytes) (dir : Directory)
    → streq (target c) n ≡ false
    → perform c dir n ≡ dir n
unfolding perform assign register_spec unregister_spec connect_spec disconnect_spec prepare_spec
perform-other (registers m) n dir h = elim (Option-cases (dir m)) [
  | inl e ↦ rw (e, perform, register_spec) (rw h refl)
  | inr (u, e) ↦ rw (e, perform, register_spec) refl
]
perform-other (unregisters m) n dir h = elim (Option-cases (dir m)) [
  | inl e ↦ rw (e, perform, unregister_spec) refl
  | inr (u, e) ↦ rw (e, perform, unregister_spec) (rw h refl)
]
perform-other (connects m ip port) n dir h = elim (Option-cases (dir m)) [
  | inl e ↦ rw (e, perform, connect_spec) refl
  | inr (u, e) ↦ elim (Bool-cases (u.connected == 1)) [
    | inl c ↦ rw (e, perform, connect_spec) (rw (c, perform, connect_spec) refl)
    | inr c ↦ rw (e, perform, connect_spec) (rw (c, perform, connect_spec) (rw h refl))
  ]
]
perform-other (disconnects m) n dir h = elim (Option-cases (dir m)) [
  | inl e ↦ rw (e, perform, disconnect_spec) refl
  | inr (u, e) ↦ elim (Bool-cases (u.connected == 0)) [
    | inl c ↦ rw (e, perform, disconnect_spec) (rw (c, perform, disconnect_spec) refl)
    | inr c ↦ rw (e, perform, disconnect_spec) (rw (c, perform, disconnect_spec) (rw h refl))
  ]
]
perform-other (prepares a b) n dir h = elim (Option-cases (dir a)) [
  | inl e ↦ rw (e, perform, prepare_spec) refl
  | inr (u, e) ↦ elim (Option-cases (dir b)) [
    | inl f ↦ rw (e, perform, prepare_spec) (rw (f, perform, prepare_spec) refl)
    | inr (v, f) ↦ rw (e, perform, prepare_spec) (rw (f, perform, prepare_spec) (rw h refl))
  ]
]

-- The address of `v` is that of `u`, or the user is offline, or a command of the kind has given it.
abbrev pub Origin : (Command → Type 0) → Bytes → User → User → Type 0
Origin P n u v =
    ((v.connected ≡ u.connected) × (v.ip ≡ u.ip) × (v.port ≡ u.port))
    ⊎ ((v.connected ≡ 0) ⊎ P (connects n v.ip v.port))

Survives : (Command → Type 0) → Bytes → User → Option User → Type 0
Survives P n u w = (v : User) × (w ≡ some v) × Origin P n u v

module _ (P : Command → Type 0) (n : Bytes) (stays : P (unregisters n) → ⊥) where
  same_user : (u : User) (w : Option User) → w ≡ some u → Survives P n u w
  unfolding Survives
  same_user u w e = (u, e, inl (refl, refl, refl))

  own : (a : Bytes) → a ≡ n → streq a n ≡ true
  own a s = rw s (streq_refl n)

  perform-own :
      (c : Command) (dir : Directory) (u : User)
      → P c
      → target c ≡ n
      → dir n ≡ some u
      → Survives P n u (perform c dir n)
  unfolding perform assign Survives register_spec unregister_spec connect_spec disconnect_spec
      prepare_spec
  perform-own (registers m) dir u h s e =
      same_user u _ (rw (s, perform, register_spec) (rw (e, perform, register_spec) e))
  perform-own (unregisters m) dir u h s e = absurd (stays (rw (sym s) h))
  perform-own (connects m ip port) dir u h s e = elim (Bool-cases (u.connected == 1)) [
    | inl c ↦ same_user u _ (
        rw (s, perform, connect_spec)
          (rw (e, perform, connect_spec) (rw (c, perform, connect_spec) e)))
    | inr c ↦ (
      record u { connected = 1; ip = ip; port = port },
      rw (s, perform, connect_spec)
          (rw (e, perform, connect_spec) (rw (c, perform, connect_spec) (rw (own m s) refl))),
      inr (inr (rw (sym s) h)),
    )
  ]
  perform-own (disconnects m) dir u h s e = elim (Bool-cases (u.connected == 0)) [
    | inl c ↦ same_user u _ (
        rw (s, perform, disconnect_spec)
          (rw (e, perform, disconnect_spec) (rw (c, perform, disconnect_spec) e)))
    | inr c ↦ (
      record u { connected = 0; ip = codes "0.0.0.0"; port = 0 },
      rw (s, perform, disconnect_spec)
          (rw (e, perform, disconnect_spec) (rw (c, perform, disconnect_spec) (rw (own m s) refl))),
      inr (inl refl),
    )
  ]
  perform-own (prepares a b) dir u h s e = elim (Option-cases (dir b)) [
    | inl f ↦ same_user u _ (
        rw (s, perform, prepare_spec)
          (rw (e, perform, prepare_spec) (rw (f, perform, prepare_spec) e)))
    | inr (v, f) ↦ (
      record u { last_id = following_id u.last_id },
      rw (s, perform, prepare_spec)
          (rw (e, perform, prepare_spec) (rw (f, perform, prepare_spec) (rw (own a s) refl))),
      inl (refl, refl, refl),
    )
  ]

  perform-Survives :
      (c : Command) (dir : Directory) (u : User)
      → P c
      → dir n ≡ some u
      → Survives P n u (perform c dir n)
  perform-Survives c dir u h e = elim (Bool-cases (streq (target c) n)) [
    | inl s ↦ perform-own c dir u h ((streq_iff (target c) n).0 s) e
    | inr s ↦ same_user u _ (perform-other c n dir s ∙ e)
  ]

  Origin-trans : (u v w : User) → Origin P n u v → Origin P n v w → Origin P n u w
  Origin-trans u v w (inl a) (inl b) = inl (b.0 ∙ a.0, b.1 ∙ a.1, b.2 ∙ a.2)
  Origin-trans u v w (inr (inl a)) (inl b) = inr (inl (b.0 ∙ a))
  Origin-trans u v w (inr (inr a)) (inl b) = inr (inr (rw (b.1, b.2) a))
  Origin-trans u v w a (inr b) = inr b

  perform_all-Survives :
      (cs : List Command) (dir : Directory) (u : User)
      → All P cs
      → dir n ≡ some u
      → Survives P n u (perform_all cs dir n)
  unfolding perform_all Survives
  perform_all-Survives [] dir u h e = same_user u _ e
  perform_all-Survives (c ∷ cs) dir u h e =
      let one = perform-Survives c dir u h.0 e in
      let rest = perform_all-Survives cs (perform c dir) one.0 h.1 one.1 in
      (rest.0, rest.1, Origin-trans u one.0 rest.0 one.2 rest.2)

-- The disk holds a table with the user `n`.
pub record Keeps (P : Command → Type 0) (n : Bytes) (u : User) (e : Disk) : Type 0 where
  pub table : Table
  pub represents : Represents e table
  pub user : User
  pub found : lookup n table ≡ some user
  pub origin : Origin P n u user

-- Any number of threads serve requests, each with strings of at most 254 bytes without a zero byte,
-- from an address of 1 to 19 bytes without white space or one that cannot be found out, and a REGISTER
-- with a name that is not empty and has no white space. A user who is in the table at the start and
-- whose UNREGISTER is not among the requests is in it after any number of steps in any order, where no
-- file of the user table is refused; and then the user is offline, or has the connection state,
-- address and port of the start, or an address and port that a CONNECT of that user among the requests
-- has given.
pub Steps-Keeps :
    (xs : List Arrival) (ts : Threads) (d e : Disk) (n : Bytes) (u : User)
    → All IsProper xs
    → (t : HoldsTable d) → lookup n t.table ≡ some u
    → (Asked xs (unregisters n) → ⊥)
    → Steps UsersAllowed (map thread xs) d ts e
    → Keeps (Asked xs) n u e
unfolding Survives
Steps-Keeps xs ts d e n u h t found stays s =
    let x = Steps-Evolves xs ts d e h t s in
    let y =
      perform_all-Survives (Asked xs) n stays x.commands (λ j. lookup j t.table) u x.permitted
        found in
    record {
      table = x.table;
      represents = x.represents;
      user = y.0;
      found = ap (λ dir. dir n) x.view ∙ y.1;
      origin = y.2;
    }
