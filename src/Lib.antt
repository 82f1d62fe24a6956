-- ===== src/Lib.antt =====
-- The messaging servers of parte2 (parte2/server/src, with the log service of parte2/rpc_server) and
-- of parte1 (parte1/server/src), as definitions that run, and theorems about them.
--
-- The program. The server accepts a TCP connection for each request, starts a thread for it (main in
-- servidor.c) and hands it the descriptor through a global variable. The thread reads
-- zero-terminated strings from its socket (leer_cadena in comunicaciones.c), chooses the handler by
-- the first (tratar_peticion in servidor.c), and the handler (f_register, f_unregister, f_connect,
-- f_disconnect, f_users, f_send, f_sendattach in funciones.c) works on files through the functions
-- of database.c, answers on the same socket, and connects to the listeners of other clients to hand
-- over messages and acknowledgements. database/usuarios.txt has one line for each user;
-- database/mensajes_<user>.dat holds the messages that wait for a user. Each operation is also told
-- to a log service over RPC.
--
-- The files.
-- Prelude: shared names, the Boolean tests of numbers, bytes and lists. Text: the conversions of the
-- C library that the program uses (sscanf with %s, %d and %u, printf of numbers, strtol, strcmp) as
-- glibc documents them.
-- Users: the line of a user, read_line_sys, and the loop over the lines of a file. Users.Lines,
-- Users.Laws and Users.Scanned have its theorems, Users.Table the list of users that a file stands
-- for.
-- Disk: the files of the database directory, and which of them cannot be opened.
-- Directory: the abstract view of usuarios.txt, a user for each name, and what each account function
-- promises on it.
-- Database.Accounts: db_init, db_register, db_unregister, db_connect, db_disconnect.
-- Database.Prepare: db_prepare_message. Database.Mail: db_store_message, db_delete_message,
-- db_get_pending_messages. Database.Online: db_get_connected_users, and get_user_info of
-- funciones.c. Database.Written: the lines that database.c prints into line_buf.
-- Program: what a thread does, as a program of atomic steps, connections and events. Handlers: the
-- functions of funciones.c as such programs, with f_send and f_sendattach in Handlers.Delivery and
-- f_connect in Handlers.Connect; Handlers.Connect.Partial and Handlers.Connect.Loss are about a
-- listener that stops answering. Program.Replies, Handlers.Answers and Requests.Answered follow what
-- a thread writes to its client.
-- Startup: main of servidor.c up to its accept loop, and its handler of SIGINT. Accept: how
-- servidor.c hands a descriptor from its main thread to a worker, with Accept.Phases for what holds
-- at each place of the main thread and Accept.Ways for how it goes on from there. Sockets:
-- comunicaciones.c. Requests: tratar_peticion. Rpc: parte2/server/src/c_files/log_rpc_client.c and
-- parte2/rpc_server/log_rpc_server.c.
-- Server: threads that take steps on one disk in any order. Directory.Commands: what the database
-- functions do to the users, as commands. Program.Tables, Handlers.Tables, Handlers.Delivery.Tables
-- and Handlers.Connect.Tables say of each handler what Server.Tables needs for every interleaving,
-- by which commands it changes the users; Server.Tables.Kept draws from it what becomes of one user.
-- Server.Arrivals is a request and the thread that serves it.
-- The message files under several threads: Database.Mail.Commands says how each database function
-- changes one message file; Program.Mail, Handlers.Mail, Handlers.Delivery.Mail and
-- Handlers.Connect.Mail say for each handler which of these changes it makes and what it has sent
-- before; Server.Mail keeps beside each thread what it has sent, and Server.Mail.Kept follows a
-- message through the steps of all threads. Program.Promises and Handlers.Delivery.Promises are
-- about a thread that has named an id to its client and has the message still to store;
-- Server.Mail.Promises brings both together. Server.Mail.Overtaken is about a SEND whose steps
-- another thread runs between, which is an UNREGISTER of the receiver in Server.Mail.Orphans and its
-- CONNECT in Server.Mail.Late. Text.Decimal.Ended tells printed ids apart.
-- Parte1: what parte1 has of its own, db_store_message and db_get_connected_users; Parte1.Handlers
-- and Parte1.Requests are its funciones.c and tratar_peticion, Parte1.Startup its main up to the
-- accept loop, which from the creation of its socket on has the text of that of parte2, and its
-- handler of SIGINT. The other functions of its database.c, its get_user_info and comunicaciones.c
-- have the text of those of parte2; Parte1.Shared gives them a name. The accept loop has it as well,
-- and Accept stands for both. Parte1.Plain takes the log and the attachments out of a handler of
-- parte2. Parte1.Reading says which handler a request reaches, and Parte1.Tables is about threads of
-- parte1 on one disk.
-- Examples: concrete tables, disks and requests, and the theorems applied to them.
--
-- The state. A string is the list of its bytes before the zero; a C `int` is its 32-bit pattern. A
-- Disk has the bytes of usuarios.txt and of the temporary file, and for each user the list of
-- structs in the message files, which stand under the user's name instead of the path made from it.
-- A function of database.c takes the Disk and returns the new one with its results; it holds
-- db_mutex throughout, so it is one atomic step. Refusals says for which files `open` returns -1
-- although they are there or may be created. A read, a write, `unlink` and `rename` on a file that
-- has been opened are taken to succeed. `snprintf` into line_buf is taken to print the whole line:
-- Database.Written says why.
--
-- A handler is a Prog: between two of its atomic steps other threads may change the disk, which
-- Server makes a step relation on a list of threads; `run` gives the outcome for a handler that runs
-- alone, with an Outside that says for each step which files are refused and which listeners can be
-- reached. In Accept a step is one access of the main thread or of a worker to what they share; a
-- thread that waits for a condition may wake up without a signal, as POSIX allows, or may not, by a
-- parameter of the step relation. Variables that the source leaves uninitialised are arguments named
-- `unset`.
--
-- Bounds. The loop over the lines of a file and the loop of get_user_info run on as much fuel as the
-- file has bytes, and one more: each round takes a byte at least. The transfer loops of
-- comunicaciones.c run over the results of their system calls, as many as there are.
--
-- Not modelled. What SIGINT interrupts; the lines that the log client prints at the start;
-- db_free_users_list, which frees memory; what rpcgen generates and the RPC library, which are the
-- parameter Stub; the clients and the web service, in Python.
pub mod Prelude
pub mod Text
pub mod Users
pub mod Disk
pub mod Directory
pub mod Database
pub mod Program
pub mod Handlers
pub mod Sockets
pub mod Requests
pub mod Rpc
pub mod Server
pub mod Startup
pub mod Accept
pub mod Parte1
mod Examples
