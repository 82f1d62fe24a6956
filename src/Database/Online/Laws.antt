-- ===== src/Database/Online/Laws.antt =====
-- database.c: the two passes of db_get_connected_users, and what USERS lists.
use messaging_service.Prelude.{
  ℕ, ◌+◌, ◌≡◌, refl, ◌∙◌, true, false, none, some, inl, inr, List, [], ◌∷◌, ◌++◌, map, Bytes,
  if◌then◌else◌, ◌==◌, All, arith, Bool-cases, Option-cases, length, length-append, append-nil,
  append_assoc, sym, subst,
}
use messaging_service.Text.Chars.{streq, streq_iff}
use messaging_service.Users.{format_user, sscanf_user, lines_of}
use messaging_service.Users.Laws.{IsUser, sscanf_user-format_user}
use messaging_service.Users.Table.{
  Table, print_table, lookup, Fresh, Distinct, lines_of-print_table,
}
use messaging_service.Disk.{Disk, Refusals, open_users}
use messaging_service.Directory.{Represents, UsersAllowed}
use messaging_service.Database.Accounts.Loops.{is_some}
use messaging_service.Database.Accounts.Refinement.{open_users-some}
use messaging_service.Database.Online.{
  Census, format_online, census_loop, list_loop, listed, db_get_connected_users,
}

-- Both passes see the same lines, so the second one finds as many users online as the first counted.
count-list_loop :
    (n : Bytes) (lines : List Bytes) (c : Census) (list : List Bytes)
    → (census_loop n lines c).count + length list ≡ c.count + length (list_loop lines list)
unfolding census_loop list_loop
count-list_loop n [] c list = refl
count-list_loop n (line ∷ lines) c list = elim (Option-cases (sscanf_user line)) [
  | inl e ↦ rw (e, census_loop) (rw (e, list_loop) (count-list_loop n lines c list))
  | inr (u, e) ↦
      rw (e, census_loop)
        (rw (e, list_loop)
          (elim (Bool-cases (u.connected == 1)) [
            | inl o ↦ rw o (
                omega (
                  arith,
                  count-list_loop n lines
                      (record {
                        req_exists = if streq u.name n then true else c.req_exists;
                        req_connected = if streq u.name n then u.connected else c.req_connected;
                        count = c.count + 1;
                      })
                      (list ++ format_online u ∷ []),
                  length-append list (format_online u ∷ []),
                ))
            | inr o ↦ rw o (count-list_loop n lines _ list)
          ]))
]

nil_of_length : (l : List Bytes) → length l ≡ 0 → length {A = Bytes} [] ≡ length l
nil_of_length l h = omega arith

listed_counts :
    (n content : Bytes)
    → length
        (listed content (
          census_loop n
            (lines_of content)
            (record { req_exists = false; req_connected = 0; count = 0 }))).users_list
      ≡ (listed content (
          census_loop n
            (lines_of content)
            (record { req_exists = false; req_connected = 0; count = 0 }))).num_users
unfolding listed
listed_counts n content = ground (
  arith,
  count-list_loop n (lines_of content) (record { req_exists = false; req_connected = 0; count = 0 })
      [],
)

-- Whatever is on the disk and whichever files are refused, the second pass of db_get_connected_users
-- writes as many strings as the array has places, the number that the first pass counted.
pub num_users_exact :
    (refuses : Refusals) (n : Bytes) (d : Disk)
    → length (db_get_connected_users refuses n d).users_list
      ≡ (db_get_connected_users refuses n d).num_users
unfolding db_get_connected_users
num_users_exact refuses n d = elim (Option-cases (open_users refuses d)) [
  | inl e ↦ rw (e, db_get_connected_users)
  | inr (content, e) ↦ rw (e, db_get_connected_users) (listed_counts n content)
]

-- The strings of the users online, in the order of the table.
pub online_rows : Table → List Bytes
online_rows [] = []
online_rows (u ∷ t) = if u.connected == 1 then format_online u ∷ online_rows t else online_rows t

list_loop-online_rows :
    (t : Table) (list : List Bytes)
    → All IsUser t
    → list_loop (map format_user t) list ≡ list ++ online_rows t
unfolding list_loop online_rows
list_loop-online_rows [] list v = sym (append-nil list)
list_loop-online_rows (u ∷ t) list v =
    rw (sscanf_user-format_user u v.0, list_loop)
      (elim (Bool-cases (u.connected == 1)) [
        | inl o ↦ rw o (
            list_loop-online_rows t (list ++ format_online u ∷ []) v.1
            ∙ append_assoc list (format_online u ∷ []) (online_rows t))
        | inr o ↦ rw o (list_loop-online_rows t list v.1)
      ])

-- The flags of the first pass.
Fresh-census :
    (n : Bytes) (t : Table) (c : Census)
    → All IsUser t
    → Fresh n t
    → ((census_loop n (map format_user t) c).req_exists ≡ c.req_exists)
      × ((census_loop n (map format_user t) c).req_connected ≡ c.req_connected)
unfolding census_loop
Fresh-census n [] c v f = (refl, refl)
Fresh-census n (u ∷ t) c v f =
    rw (sscanf_user-format_user u v.0, census_loop) (rw f.0 (Fresh-census n t _ v.1 f.1))

census-lookup :
    (n : Bytes) (t : Table) (c : Census)
    → All IsUser t
    → Distinct t
    → ((census_loop n (map format_user t) c).req_exists
        ≡ (if is_some (lookup n t) then true else c.req_exists))
      × ((census_loop n (map format_user t) c).req_connected
          ≡ elim (lookup n t) [ none ↦ c.req_connected | some u ↦ u.connected ])
unfolding census_loop lookup
census-lookup n [] c v d = (refl, refl)
census-lookup n (u ∷ t) c v d =
    rw (sscanf_user-format_user u v.0, census_loop)
      (elim (Bool-cases (streq u.name n)) [
        | inl e ↦
            rw e (Fresh-census n t _ v.1 (subst (λ m. Fresh m t) ((streq_iff u.name n).0 e) d.0))
        | inr e ↦ rw e (census-lookup n t _ v.1 d.1)
      ])

empty_of_length : (l : List Bytes) → length l ≡ 0 → l ≡ []
empty_of_length [] h = refl
empty_of_length (x ∷ l) h = absurd (omega arith)

abbrev start : Census
start = record { req_exists = false; req_connected = 0; count = 0 }

-- The test for an empty count saves a pass and changes nothing.
second_pass :
    (n : Bytes) (lines : List Bytes)
    → (if (census_loop n lines start).count == 0 then [] else list_loop lines [])
      ≡ list_loop lines []
second_pass n lines = elim (Bool-cases ((census_loop n lines start).count == 0)) [
  | inl e ↦ rw e (
      sym (empty_of_length (list_loop lines []) (ground (arith, count-list_loop n lines start []))))
  | inr e ↦ rw e
]

-- What USERS answers: the code and the strings.
unfoldable pub users_spec : Bytes → Table → ℕ × List Bytes
unfolding online_rows
users_spec n t = elim (lookup n t) [
  | none ↦ (2, [])
  | some u ↦ if u.connected == 0 then (1, []) else (0, online_rows t)
]

listed_spec :
    (n : Bytes) (t : Table)
    → All IsUser t
    → Distinct t
    → ((listed (print_table t) (census_loop n (lines_of (print_table t)) start)).code
        ≡ (users_spec n t).0)
      × ((listed (print_table t) (census_loop n (lines_of (print_table t)) start)).users_list
          ≡ (users_spec n t).1)
unfolding listed users_spec
listed_spec n t v d =
    let c = census-lookup n t start v d in
    rw (lines_of-print_table t v) (
      rw (second_pass n (map format_user t), listed)
        (rw (list_loop-online_rows t [] v) (elim (Option-cases (lookup n t)) [
          | inl e ↦ rw (c.0, listed) (rw (e, users_spec) (refl, refl))
          | inr (u, e) ↦
              rw (c.0, listed)
                (rw (c.1, listed)
                  (rw (e, users_spec)
                    (elim (Bool-cases (u.connected == 0)) [
                      | inl o ↦ rw o (refl, refl)
                      | inr o ↦ rw o (refl, refl)
                    ])))
        ])))

-- db_get_connected_users on a disk that holds a table, where no file of the user table is refused: 2
-- for a user who does not exist, 1 for a user who is not connected, else 0 with the name, address and
-- port of each user online, in the order of the table; no strings come with 1 and 2.
pub db_get_connected_users_lists :
    (refuses : Refusals) (n : Bytes) (d : Disk) (t : Table)
    → UsersAllowed refuses
    → Represents d t
    → ((db_get_connected_users refuses n d).code ≡ (users_spec n t).0)
      × ((db_get_connected_users refuses n d).users_list ≡ (users_spec n t).1)
unfolding db_get_connected_users users_spec
db_get_connected_users_lists refuses n d t a r =
    rw (open_users-some refuses d t a r, db_get_connected_users)
      (listed_spec n t r.valid r.distinct)
