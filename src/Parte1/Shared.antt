-- ===== src/Parte1/Shared.antt =====
-- parte1/server/src/c_files/database.c and comunicaciones.c, and get_user_info of funciones.c: the functions
-- that have the text of parte2's, comments left aside.
use messaging_service.Prelude.{ℕ, Bytes, Option, List}
use messaging_service.Disk.{Disk, Refusals, PendingMsg}
use messaging_service.Users
use messaging_service.Users.{Input}
use messaging_service.Database.Accounts
use messaging_service.Database.Prepare
use messaging_service.Database.Prepare.{Prepared}
use messaging_service.Database.Mail
use messaging_service.Database.Online
use messaging_service.Database.Online.{UserInfo}
use messaging_service.Sockets
use messaging_service.Sockets.{Leida, Transferred, Received, Ending}

abbrev pub read_line_sys : ℕ → Input → Option Bytes × Input
read_line_sys = Users.read_line_sys

abbrev pub db_init : Refusals → Disk → ℕ × Disk
db_init = Accounts.db_init

abbrev pub db_register : Refusals → Bytes → Disk → ℕ × Disk
db_register = Accounts.db_register

abbrev pub db_unregister : Refusals → Bytes → Disk → ℕ × Disk
db_unregister = Accounts.db_unregister

abbrev pub db_connect : Refusals → Bytes → Bytes → ℕ → Disk → ℕ × Disk
db_connect = Accounts.db_connect

abbrev pub db_disconnect : Refusals → Bytes → Disk → ℕ × Disk
db_disconnect = Accounts.db_disconnect

abbrev pub db_prepare_message : Refusals → Bytes → Bytes → Prepared → Disk → ℕ × Prepared × Disk
db_prepare_message = Prepare.db_prepare_message

abbrev pub db_delete_message : Refusals → Bytes → ℕ → Disk → ℕ × Disk
db_delete_message = Mail.db_delete_message

abbrev pub db_get_pending_messages : Refusals → Bytes → Disk → List PendingMsg
db_get_pending_messages = Mail.db_get_pending_messages

abbrev pub get_user_info : Refusals → Bytes → Disk → Option UserInfo
get_user_info = Online.get_user_info

abbrev pub send_message : Bytes → ℕ → List Transferred → Ending × Bytes
send_message = Sockets.send_message

abbrev pub recv_message : Bytes → ℕ → List Received → Ending × Bytes
recv_message = Sockets.recv_message

abbrev pub leer_cadena : Bytes → ℕ → Option Leida
leer_cadena = Sockets.leer_cadena
