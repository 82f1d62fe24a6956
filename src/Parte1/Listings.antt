-- ===== src/Parte1/Listings.antt =====
-- db_get_connected_users of parte1 beside that of parte2.
use messaging_service.Prelude.{
  ℕ, ◌≡◌, refl, ◌∙◌, ap, inl, inr, false, List, [], ◌∷◌, ◌++◌, map, Bytes, ◌==◌, not, Bool-cases,
  Option-cases,
}
use messaging_service.Users.{User, sscanf_user, lines_of}
use messaging_service.Disk.{Disk, Refusals, open_users}
use messaging_service.Database.Online
use messaging_service.Database.Online.{Census, Listing, census_loop, format_online}
use messaging_service.Parte1.{list_loop, listed, db_get_connected_users}

-- The same result and number, and the same users: their names in one, name and address in the other.
pub record Same (p q : Listing) : Type 0 where
  pub code : p.code ≡ q.code
  pub number : p.num_users ≡ q.num_users
  pub online : List User
  pub names : p.users_list ≡ map (λ u. u.name) online
  pub rows : q.users_list ≡ map format_online online

no_users :
    (c : ℕ) (p : Listing) → p ≡ record { code = c; num_users = 0; users_list = [] } → Same p p
no_users c p e = record {
  code = refl;
  number = refl;
  online = [];
  names = ap (λ q. q.users_list) e;
  rows = ap (λ q. q.users_list) e;
}

map_last :
    (f : User → Bytes) (us : List User) (u : User) → map f us ++ f u ∷ [] ≡ map f (us ++ u ∷ [])
map_last f [] u = refl
map_last f (v ∷ us) u = ap (λ l. f v ∷ l) (map_last f us u)

-- Behind the second passes over the same lines.
record Lists (lines : List Bytes) (us : List User) : Type 0 where
  online : List User
  names : list_loop lines (map (λ u. u.name) us) ≡ map (λ u. u.name) online
  rows : Online.list_loop lines (map format_online us) ≡ map format_online online

list_loop-Lists : (lines : List Bytes) (us : List User) → Lists lines us
unfolding list_loop Online.list_loop
list_loop-Lists [] us = record { online = us; names = refl; rows = refl }
list_loop-Lists (line ∷ lines) us = elim (Option-cases (sscanf_user line)) [
  | inl e ↦
      let l = list_loop-Lists lines us in
      record {
        online = l.online;
        names = rw (e, list_loop) l.names;
        rows = rw (e, Online.list_loop) l.rows;
      }
  | inr (u, e) ↦ elim (Bool-cases (u.connected == 1)) [
    | inl c ↦
        let l = list_loop-Lists lines (us ++ u ∷ []) in
        record {
          online = l.online;
          names =
              rw (e, list_loop)
                (rw c (ap (list_loop lines) (map_last (λ v. v.name) us u) ∙ l.names));
          rows =
              rw (e, Online.list_loop)
                (rw c (ap (Online.list_loop lines) (map_last format_online us u) ∙ l.rows));
        }
    | inr c ↦
        let l = list_loop-Lists lines us in
        record {
          online = l.online;
          names = rw (e, list_loop) (rw c l.names);
          rows = rw (e, Online.list_loop) (rw c l.rows);
        }
  ]
]

listed-Same : (content : Bytes) (c : Census) → Same (listed content c) (Online.listed content c)
unfolding listed Online.listed
listed-Same content c = elim (Bool-cases (not c.req_exists)) [
  | inl e ↦ rw (e, listed, Online.listed) (no_users 2 _ refl)
  | inr e ↦ elim (Bool-cases (c.req_connected == 0)) [
    | inl f ↦ rw (e, listed, Online.listed) (rw f (no_users 1 _ refl))
    | inr f ↦ elim (Bool-cases (c.count == 0)) [
      | inl g ↦
          rw (e, listed, Online.listed)
            (rw f (
              rw g (record { code = refl; number = refl; online = []; names = refl; rows = refl })))
      | inr g ↦
          let l = list_loop-Lists (lines_of content) [] in
          rw (e, listed, Online.listed)
            (rw f (
              rw g (record {
                code = refl;
                number = refl;
                online = l.online;
                names = l.names;
                rows = l.rows;
              })))
    ]
  ]
]

pub db_get_connected_users-Same :
    (r : Refusals) (n : Bytes) (d : Disk)
    → Same (db_get_connected_users r n d) (Online.db_get_connected_users r n d)
unfolding db_get_connected_users Online.db_get_connected_users
db_get_connected_users-Same r n d = elim (Option-cases (open_users r d)) [
  | inl e ↦ rw (e, db_get_connected_users, Online.db_get_connected_users) (no_users 2 _ refl)
  | inr (content, e) ↦
      rw (e, db_get_connected_users, Online.db_get_connected_users)
        (listed-Same content (
          census_loop n (lines_of content)
            (record { req_exists = false; req_connected = 0; count = 0 })))
]
