-- ===== src/Examples/World.antt =====
-- Two users, ana online and luis offline, on a disk that refuses nothing.
use messaging_service.Prelude.{
  ℕ, ◌≡◌, refl, Bool, true, false, none, some, [], ◌∷◌, Bytes, codes, All, length, ltb, leb, ◌&&◌,
  not, arith,
}
use messaging_service.Text.Chars.{is_space, streq}
use messaging_service.Text.Scan.Laws.{IsWord, IsGraphic}
use messaging_service.Users.{User}
use messaging_service.Users.Laws.{IsUser}
use messaging_service.Users.Table.{Table, print_table}
use messaging_service.Disk.{Disk, Refusals}
use messaging_service.Directory.{Represents, UsersAllowed}

all_graphic : Bytes → Bool
all_graphic [] = true
all_graphic (c ∷ s) = not (is_space c) && all_graphic s

all_graphic_sound : (s : Bytes) → all_graphic s ≡ true → All IsGraphic s
unfolding all_graphic
all_graphic_sound [] h = tt
all_graphic_sound (c ∷ s) h = (ground arith, all_graphic_sound s (ground arith))

unfoldable pub is_word : ℕ → Bytes → Bool
unfolding all_graphic is_space
is_word n s = ltb 0 (length s) && (leb (length s) n && all_graphic s)

pub IsWord-by : (n : ℕ) (s : Bytes) → is_word n s ≡ true → IsWord n s
unfolding is_word
IsWord-by n s h = record {
  nonempty = ground arith;
  short = ground arith;
  graphic = all_graphic_sound s (ground arith);
}

abbrev pub ana : User
ana = record { name = codes "ana"; connected = 1; ip = codes "10.0.0.7"; port = 5050; last_id = 3 }

abbrev pub luis : User
luis = record { name = codes "luis"; connected = 0; ip = codes "0.0.0.0"; port = 0; last_id = 0 }

abbrev pub people : Table
people = ana ∷ luis ∷ []

pub ana-IsUser : IsUser ana
unfolding is_word
ana-IsUser = record {
  name = IsWord-by 255 (codes "ana") refl;
  connected = omega arith;
  ip = IsWord-by 19 (codes "10.0.0.7") refl;
  port = omega arith;
  last_id = omega arith;
}

pub luis-IsUser : IsUser luis
unfolding is_word
luis-IsUser = record {
  name = IsWord-by 255 (codes "luis") refl;
  connected = omega arith;
  ip = IsWord-by 19 (codes "0.0.0.0") refl;
  port = omega arith;
  last_id = omega arith;
}

abbrev pub calm : Refusals
calm = λ path mode. false

abbrev pub start : Disk
start = record {
  users = some (print_table people);
  temp_users = none;
  messages = λ n. none;
  temp_messages = λ n. none;
}

pub calm-UsersAllowed : UsersAllowed calm
calm-UsersAllowed = record { read = refl; add = refl; temp = refl }

pub start-Represents : Represents start people
unfolding streq
start-Represents = record {
  file = refl;
  valid = (ana-IsUser, (luis-IsUser, tt));
  distinct = ((refl, tt), (tt, tt));
}
