-- ===== src/Handlers/Replies.antt =====
-- What the client of a request is told.
use messaging_service.Prelude.{
  ℕ, suc, ◌≡◌, ◌≢◌, refl, ap, ◌∙◌, Option, none, some, inl, inr, [], ◌∷◌, Bytes, if◌then◌else◌,
  ◌==◌, not, codes, arith, Bool-cases,
}
use messaging_service.Text.Chars.{streq, streq_iff}
use messaging_service.Users.{User}
use messaging_service.Users.Table.{Table, lookup}
use messaging_service.Disk.{Disk, Refusals}
use messaging_service.Directory.{Represents, UsersAllowed, disconnect_spec}
use messaging_service.Database.Accounts.{db_disconnect}
use messaging_service.Database.Accounts.Sessions.{db_disconnect-Refines}
use messaging_service.Database.Online.Info.{get_user_info-lookup, info}
use messaging_service.Program.{Outside, run, replies}
use messaging_service.Handlers.{f_disconnect, disconnect_from, refuse_disconnect}

-- At every step the files of the user table are there to be opened.
pub record AlwaysAllowed (o : ℕ → Outside) : Type 0 where
  pub at_step : (i : ℕ) → UsersAllowed (o i).refuses

-- The code of a DISCONNECT: 3 for an unknown address, 1 for an unknown user, 3 for another address
-- than the registered one, then 2 for a user who is offline, else 0.
unfoldable pub disconnect_code : Option Bytes → Option User → ℕ
disconnect_code none found = 3
disconnect_code (some ip) none = 1
disconnect_code (some ip) (some u) =
    if not (streq ip u.ip) then 3 else if u.connected == 0 then 2 else 0

refuse_disconnect-replies :
    (n : Bytes) (code : ℕ) (o : ℕ → Outside) (i : ℕ) (d : Disk)
    → replies (run (refuse_disconnect n code) o i d).events ≡ (code ∷ []) ∷ []
unfolding refuse_disconnect run replies
refuse_disconnect-replies n code o i d = refl

db_disconnect-code :
    (refuses : Refusals) (n : Bytes) (d : Disk) (t : Table) (u : User)
    → UsersAllowed refuses
    → Represents d t
    → lookup n t ≡ some u
    → (db_disconnect refuses n d).0 ≡ (if u.connected == 0 then 2 else 0)
unfolding disconnect_spec
db_disconnect-code refuses n d t u a r e =
    (db_disconnect-Refines refuses n d t a r).code ∙ rw (e, disconnect_spec) (ground arith)

disconnect_from-replies :
    (o : ℕ → Outside) (i : ℕ) (ip n : Bytes) (d : Disk) (t : Table) (found : Option User)
    → AlwaysAllowed o
    → Represents d t
    → lookup n t ≡ found
    → replies (run (disconnect_from n ip (info found)) o i d).events
      ≡ (disconnect_code (some ip) found ∷ []) ∷ []
unfolding disconnect_from disconnect_code info run replies
disconnect_from-replies o i ip n d t none a r e = refl
disconnect_from-replies o i ip n d t (some u) a r e = elim (Bool-cases (streq ip u.ip)) [
  | inl same ↦
      rw same (ap (λ c. (c ∷ []) ∷ []) (db_disconnect-code (o i).refuses n d t u (a.at_step i) r e))
  | inr other ↦ rw other
]

-- On a disk that holds a table, where no file of the user table is ever refused, a client who asks for
-- DISCONNECT and is alone gets one reply, the byte `disconnect_code` of its own address and of what
-- the table says of the user.
pub replies-f_disconnect :
    (o : ℕ → Outside) (i : ℕ) (peer : Option Bytes) (n : Bytes) (d : Disk) (t : Table)
    → AlwaysAllowed o
    → Represents d t
    → replies (run (f_disconnect peer n) o i d).events
      ≡ (disconnect_code peer (lookup n t) ∷ []) ∷ []
unfolding f_disconnect run disconnect_code
replies-f_disconnect o i none n d t a r = refuse_disconnect-replies n 3 o i d
replies-f_disconnect o i (some ip) n d t a r =
    ap (λ x. replies (run (disconnect_from n ip x) o (suc i) d).events)
      (get_user_info-lookup (o i).refuses n d t (a.at_step i) r)
    ∙ disconnect_from-replies o (suc i) ip n d t (lookup n t) a r refl

-- On a disk that holds a table, where no file of the user table is ever refused, a DISCONNECT for a
-- registered user who is offline, with the address 0.0.0.0 in the table, asked for from any other
-- address, is answered with the one byte 3.
f_disconnect_of_offline_user :
    (o : ℕ → Outside) (i : ℕ) (ip n : Bytes) (d : Disk) (t : Table) (u : User)
    → AlwaysAllowed o
    → Represents d t
    → lookup n t ≡ some u
    → u.connected ≡ 0
    → u.ip ≡ codes "0.0.0.0"
    → ip ≢ codes "0.0.0.0"
    → replies (run (f_disconnect (some ip) n) o i d).events ≡ (3 ∷ []) ∷ []
unfolding disconnect_code
f_disconnect_of_offline_user o i ip n d t u a r e offline zero_ip other =
    replies-f_disconnect o i (some ip) n d t a r
    ∙ rw e (rw zero_ip (ground (arith, streq_iff ip (codes "0.0.0.0"))))
