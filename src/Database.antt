-- ===== src/Database.antt =====
-- server/src/c_files/database.c: the functions of the message database, the account functions and the
-- message functions in modules of their own. A function is one atomic step, since it holds
-- `db_mutex` from its first line to its return.
pub mod Accounts
pub mod Prepare
pub mod Mail
pub mod Online
pub mod Written
