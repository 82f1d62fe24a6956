-- ===== src/Parte1/Startup.antt =====
-- parte1/server/src/c_files/servidor.c: main up to its accept loop, and manejador_sigint. From `socket` on
-- main has the text of that of parte2, which open_socket stands for; there is no log.
pub mod Ready
use messaging_service.Prelude.{ℕ, none, some, List, Bytes, ◌++◌, codes}
use messaging_service.Text.Scan.{strtol}
use messaging_service.Parte1.Shared.{db_init}
use messaging_service.Rpc.{minus_one}
use messaging_service.Startup.{
  System, Process, Launch, returns, port_argument, program_name, print_line, close, open_socket,
}

unfoldable pub main : List Bytes → System → Process → Launch
main argv o p =
    let q = record p { disk = (db_init o.refuses p.disk).1 } in
    elim (port_argument argv) [
      | none ↦
          returns minus_one
            (print_line (codes "Uso: " ++ program_name argv ++ codes " -p <puerto>\n") q)
      | some port ↦ open_socket o (strtol port) q
    ]

-- `sd_principal` is the socket on which the server listens. The process exits with this code.
unfoldable pub manejador_sigint : ℕ → Process → ℕ × Process
manejador_sigint sd_principal p =
    (0, close sd_principal (print_line (codes "\nApagando el servidor ordenadamente...\n") p))
