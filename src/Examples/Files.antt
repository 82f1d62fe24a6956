-- ===== src/Examples/Files.antt =====
-- The readers of usuarios.txt at concrete inputs.
use messaging_service.Prelude.{
  suc, ◌≡◌, refl, true, false, some, none, [], ◌∷◌, ◌++◌, codes, arith, Bytes, length,
}
use messaging_service.Text.Chars.{streq, is_space, is_digit}
use messaging_service.Text.Decimal.{read_digits, print_unsigned}
use messaging_service.Text.Scan.{
  scan_word, scan_int, scan_unsigned, skip_space, take_word, read_sign, read_number, print_int,
}
use messaging_service.Users.{format_user, scan_user, newline}
use messaging_service.Users.Laws.{scan_user-format_user}
use messaging_service.Database.Accounts.{new_user, unregister_loop, connect_loop, disconnect_loop}
use messaging_service.Database.Written.{Fits, Written, printed_lines_fit}
use messaging_service.Users.Table.{lookup, print_table}
use messaging_service.Disk.{Disk, Refusals, FilePath, temp_usuarios}
use messaging_service.Database.Prepare.{Prepared, prepare_loop, db_prepare_message}
use messaging_service.Database.Prepare.Loss.{db_prepare_message_loses_users}
use messaging_service.Database.Online.{db_get_connected_users, get_user_info, ended, fscanf_loop}
use messaging_service.Database.Online.Laws.{
  num_users_exact, users_spec, db_get_connected_users_lists,
}
use messaging_service.Database.Online.Info.{
  info, get_user_info-lookup, get_user_info_blocked, fscanf_loop_ends,
}
use messaging_service.Examples.World.{
  ana, luis, people, calm, start, calm-UsersAllowed, start-Represents, ana-IsUser, is_word,
  IsWord-by,
}

scan_user-format_user_example :
    scan_user (format_user ana ++ codes "luis 0") ≡ some (ana, newline ∷ codes "luis 0")
scan_user-format_user_example = scan_user-format_user ana (codes "luis 0") ana-IsUser

abbrev unset : Prepared
unset = record { msg_id = 0; recv_connected = 0; recv_ip = []; recv_port = 0 }

-- A name with a blank moves the fields: the line of `a 1 1.1.1.1 80 9` is that of a user `a` online.
abbrev moved : Bytes
moved = codes "a 1 1.1.1.1 80 9 0 0.0.0.0 0 0\n"

printed_lines_fit_example :
    Fits (new_user (codes "eva"))
    × Written (unregister_loop (codes "eva") (format_user ana ∷ moved ∷ []) false []).1
    × Written
        (connect_loop (codes "eva") (codes "10.0.0.9") 6000 (format_user ana ∷ moved ∷ []) 1 []).1
    × Written (disconnect_loop (codes "eva") (format_user ana ∷ moved ∷ []) 1 []).1
    × Written (prepare_loop (codes "ana") (codes "a") (format_user ana ∷ moved ∷ []) unset []).1
unfolding is_word
printed_lines_fit_example =
    printed_lines_fit (codes "eva") (codes "ana") (codes "a") (codes "10.0.0.9") 6000 unset
      (format_user ana ∷ moved ∷ []) (omega arith) (IsWord-by 19 (codes "10.0.0.9") refl)
      (omega arith)

-- No descriptor is left for the temporary file.
abbrev starved : Refusals
starved temp_usuarios mode = true
starved FilePath.usuarios mode = false
starved (FilePath.mensajes n) mode = false
starved (FilePath.temp_mensajes n) mode = false

db_prepare_message_loses_users_example :
    ((db_prepare_message starved (codes "ana") (codes "luis") unset start).0 ≡ 0)
    × ((db_prepare_message starved (codes "ana") (codes "luis") unset start).2.users ≡ none)
unfolding lookup streq
db_prepare_message_loses_users_example =
    db_prepare_message_loses_users starved (codes "ana") (codes "luis") unset start people ana luis
      refl refl refl start-Represents refl refl

num_users_exact_example :
    length (db_get_connected_users calm (codes "ana") start).users_list
    ≡ (db_get_connected_users calm (codes "ana") start).num_users
num_users_exact_example = num_users_exact calm (codes "ana") start

db_get_connected_users_lists_example :
    ((db_get_connected_users calm (codes "ana") start).code ≡ (users_spec (codes "ana") people).0)
    × ((db_get_connected_users calm (codes "ana") start).users_list
        ≡ (users_spec (codes "ana") people).1)
db_get_connected_users_lists_example =
    db_get_connected_users_lists calm (codes "ana") start people calm-UsersAllowed start-Represents

get_user_info-lookup_example :
    get_user_info calm (codes "ana") start ≡ info (lookup (codes "ana") people)
get_user_info-lookup_example =
    get_user_info-lookup calm (codes "ana") start people calm-UsersAllowed start-Represents

-- `REGISTER` of `a b`, then of luis.
abbrev behind : Bytes
behind = codes "a b 0 0.0.0.0 0 0\nluis 0 0.0.0.0 0 0\n"

abbrev broken : Disk
broken = record start { users = some (print_table (ana ∷ []) ++ behind) }

get_user_info_blocked_example : get_user_info calm (codes "luis") broken ≡ none
unfolding lookup streq scan_user scan_word scan_int scan_unsigned skip_space take_word read_sign
    read_number read_digits is_space is_digit
get_user_info_blocked_example =
    get_user_info_blocked calm (codes "luis") broken (ana ∷ []) behind refl refl (ana-IsUser, tt)
      refl refl

fscanf_loop_ends_example :
    fscanf_loop 40 (codes "ana") (format_user ana)
    ≡ some (ended (fscanf_loop (suc (length (format_user ana))) (codes "ana") (format_user ana)))
unfolding format_user print_int print_unsigned
fscanf_loop_ends_example = fscanf_loop_ends 40 (codes "ana") (format_user ana) (omega arith)
