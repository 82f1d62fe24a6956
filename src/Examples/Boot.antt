-- ===== src/Examples/Boot.antt =====
-- The server is started on port 5000 in an empty directory, without a log.
use messaging_service.Prelude.{refl, inl, true, false, none, some, [], ◌∷◌, codes}
use messaging_service.Text.Chars.{streq, is_space, is_digit}
use messaging_service.Text.Scan.{strtol, scan_int, read_number, read_sign, skip_space}
use messaging_service.Text.Decimal.{read_digits}
use messaging_service.Examples.World.{calm}
use messaging_service.Startup.{System, Process, port_argument, main}
use messaging_service.Startup.Ready.{IsReady, main-IsReady}
use messaging_service.Parte1.Startup
use messaging_service.Parte1.Startup.Ready.{IsStarted, parte1_main-IsStarted}

abbrev machine : System
machine = record {
  refuses = calm;
  log_rpc_ip = none;
  creates = λ host. false;
  socket = some 3;
  binds = true;
  listens = true;
  installs = true;
  ip_local = some (codes "10.0.0.1");
}

abbrev fresh : Process
fresh = record {
  disk = record {
    users = none;
    temp_users = none;
    messages = λ n. none;
    temp_messages = λ n. none;
  };
  log = record { clnt = false; enabled = false };
  sockets = [];
  port = none;
  lines = [];
}

main-IsReady_example :
    IsReady machine.ip_local
      (some 5000)
      (main (codes "./servidor" ∷ codes "-p" ∷ codes "5000" ∷ []) machine fresh)
unfolding port_argument streq strtol scan_int read_number read_sign skip_space is_space is_digit
    read_digits
main-IsReady_example =
    main-IsReady (codes "./servidor" ∷ codes "-p" ∷ codes "5000" ∷ []) machine fresh refl (inl refl)
      refl

parte1_main-IsStarted_example :
    IsStarted machine.ip_local
      (some 5000)
      (Startup.main (codes "./servidor" ∷ codes "-p" ∷ codes "5000" ∷ []) machine fresh)
unfolding port_argument streq strtol scan_int read_number read_sign skip_space is_space is_digit
    read_digits
parte1_main-IsStarted_example =
    parte1_main-IsStarted (codes "./servidor" ∷ codes "-p" ∷ codes "5000" ∷ []) machine fresh refl
      (inl refl) refl
