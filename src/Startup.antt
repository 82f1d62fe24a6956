-- ===== src/Startup.antt =====
-- parte2/server/src/c_files/servidor.c: main up to its accept loop, and manejador_sigint. What the calls
-- of the system answer is a parameter.
pub mod Ready
use messaging_service.Prelude.{
  ℕ, Bool, Option, none, some, List, [], ◌∷◌, ◌++◌, Bytes, if◌then◌else◌, ◌==◌, codes, not,
}
use messaging_service.Text.Chars.{streq}
use messaging_service.Text.Scan.{strtol, print_int}
use messaging_service.Disk.{Disk, Refusals}
use messaging_service.Database.Accounts.{db_init}
use messaging_service.Handlers.Delivery.{port_of}
use messaging_service.Rpc.{Client, minus_one, log_rpc_init, log_rpc_destroy}

-- What the system answers: the files that it refuses, the variable LOG_RPC_IP and the hosts to which
-- `clnt_create` connects, the descriptor of `socket`, whether `bind`, `listen` and `signal` succeed, and
-- the address that `gethostbyname` gives for the host, or its null pointer.
pub record System : Type 0 where
  pub refuses : Refusals
  pub log_rpc_ip : Option Bytes
  pub creates : Bytes → Bool
  pub socket : Option ℕ
  pub binds : Bool
  pub listens : Bool
  pub installs : Bool
  pub ip_local : Option Bytes

-- The process: its disk, its log client, its open sockets, the port of the socket that is bound, and
-- the lines that servidor.c prints.
pub record Process : Type 0 where
  pub disk : Disk
  pub log : Client
  pub sockets : List ℕ
  pub port : Option ℕ
  pub lines : List Bytes

-- main returns, or comes to its accept loop with the socket on which it listens, or dereferences the null
-- pointer of `gethostbyname` with that socket open.
pub data Launch : Type 0 where
  returns : ℕ → Process → Launch
  serves : ℕ → Process → Launch
  crashes : ℕ → Process → Launch

unfoldable pub without_socket : ℕ → List ℕ → List ℕ
without_socket sd [] = []
without_socket sd (s ∷ sockets) =
    let rest = without_socket sd sockets in if s == sd then rest else s ∷ rest

unfoldable pub close : ℕ → Process → Process
unfolding without_socket
close sd p = record p { sockets = without_socket sd p.sockets }

unfoldable pub print_line : Bytes → Process → Process
print_line line p = record p { lines = p.lines ++ line ∷ [] }

-- `argc == 3 && strcmp(argv[1], "-p") == 0`: the text of the port.
unfoldable pub port_argument : List Bytes → Option Bytes
port_argument (name ∷ option ∷ port ∷ []) = if streq option (codes "-p") then some port else none
port_argument argv = none

-- `printf("%s", argv[0])`, which is a null pointer where there are no arguments at all.
unfoldable pub program_name : List Bytes → Bytes
program_name [] = codes "(null)"
program_name (name ∷ argv) = name

-- The first lines, and the handler of SIGINT.
unfoldable pub greet : System → Bytes → ℕ → ℕ → Process → Launch
unfolding close print_line
greet o ip_local puerto sd p =
    let q = print_line (codes "s>\n") (
      print_line
        (codes "s> init server " ++ ip_local ++ codes ":" ++ print_int puerto ++ codes "\n") p) in
    if o.installs
    then serves sd q
    else returns minus_one
        (close sd (print_line (codes "Error al instalar el manejador de señales.\n") q))

-- Behind `listen`: the address of the host is taken without a look at the result of `gethostbyname`.
unfoldable pub announce : System → ℕ → ℕ → Process → Launch
unfolding greet
announce o puerto sd p = elim o.ip_local [
  | none ↦ crashes sd p
  | some ip_local ↦ greet o ip_local puerto sd p
]

-- Behind `socket`.
unfoldable pub bind_and_listen : System → ℕ → ℕ → Process → Launch
unfolding close print_line announce
bind_and_listen o puerto sd p =
    if not o.binds
    then returns minus_one (close sd (print_line (codes "Error al hacer el bind.\n") p))
    else if not o.listens
    then returns minus_one (close sd (print_line (codes "Error al hacer el listen.\n") p))
    else announce o puerto sd (record p { port = some (port_of puerto) })

unfoldable pub open_socket : System → ℕ → Process → Launch
unfolding print_line bind_and_listen
open_socket o puerto p = elim o.socket [
  | none ↦ returns minus_one (print_line (codes "Error al crear el socket.\n") p)
  | some sd ↦ bind_and_listen o puerto sd (record p { sockets = sd ∷ p.sockets })
]

unfoldable pub main : List Bytes → System → Process → Launch
unfolding print_line program_name open_socket
main argv o p = elim (port_argument argv) [
  | none ↦
      returns minus_one
        (print_line (codes "Uso: " ++ program_name argv ++ codes " -p <puerto>\n") p)
  | some port ↦ open_socket o (strtol port) (record p {
    disk = (db_init o.refuses p.disk).1;
    log = (log_rpc_init o.log_rpc_ip o.creates p.log).1;
  })
]

-- `sd_principal` is the socket on which the server listens. The process exits with this code.
unfoldable pub manejador_sigint : ℕ → Process → ℕ × Process
unfolding close print_line
manejador_sigint sd_principal p = (
  0,
  close sd_principal (record (print_line (codes "\nApagando el servidor ordenadamente...\n") p) {
    log = log_rpc_destroy p.log;
  }),
)
