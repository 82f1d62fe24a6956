-- ===== src/Rpc.antt =====
-- server/src/c_files/log_rpc_client.c and rpc_server/log_rpc_server.c: the log of the operations. The
-- transport between the two, the code that rpcgen makes and the RPC library, is a parameter.
pub mod Logging
use messaging_service.Prelude.{
  ℕ, ◌-◌, Bool, true, false, Option, none, some, List, [], ◌∷◌, ◌++◌, Bytes, if◌then◌else◌, ◌&&◌,
  ◌||◌, not, codes,
}
use messaging_service.Text.Chars.{streq}
use messaging_service.Text.Scan.{word_mod}
use messaging_service.Database.Mail.{strncpy}

-- The bit pattern of the `int` -1.
abbrev pub minus_one : ℕ
minus_one = word_mod - 1

-- The static variables: `clnt != NULL`, and `enabled`.
pub record Client : Type 0 where
  pub clnt : Bool
  pub enabled : Bool

-- `host` is the value of LOG_RPC_IP, `creates` whether `clnt_create` succeeds for a host.
unfoldable pub log_rpc_init : Option Bytes → (Bytes → Bool) → Client → ℕ × Client
log_rpc_init none creates c = (minus_one, record c { enabled = false })
log_rpc_init (some host) creates c =
    if creates host
    then (0, record { clnt = true; enabled = true })
    else (minus_one, record { clnt = false; enabled = false })

unfoldable pub log_rpc_destroy : Client → Client
log_rpc_destroy c = record { clnt = false; enabled = false }

-- `log_operation_1`: the result that the service gives, `none` where the call is no success.
abbrev pub Stub : Type 0
Stub = Bytes → Bytes → Bytes → Option ℕ

answer : Option ℕ → ℕ
answer none = minus_one
answer (some result) = result

-- A NULL pointer is `none`.
unfoldable pub log_rpc_send : Stub → Client → Option Bytes → Option Bytes → Option Bytes → ℕ
unfolding strncpy answer
log_rpc_send stub c none operacion fichero = if not c.enabled || not c.clnt then 0 else minus_one
log_rpc_send stub c (some usuario) none fichero =
    if not c.enabled || not c.clnt then 0 else minus_one
log_rpc_send stub c (some usuario) (some operacion) none =
    if not c.enabled || not c.clnt
    then 0
    else answer (stub (strncpy 255 usuario) (strncpy 255 operacion) (strncpy 255 []))
log_rpc_send stub c (some usuario) (some operacion) (some fichero) =
    if not c.enabled || not c.clnt
    then 0
    else answer (stub (strncpy 255 usuario) (strncpy 255 operacion) (strncpy 255 fichero))

is_empty : Bytes → Bool
is_empty [] = true
is_empty (c ∷ s) = false

tab : Bytes
tab = 9 ∷ []

newline : Bytes
newline = 10 ∷ []

logged : Bytes → Bytes → Option Bytes → Bytes
unfolding is_empty tab newline
logged usuario operacion none = usuario ++ (tab ++ (operacion ++ newline))
logged usuario operacion (some fichero) =
    if streq operacion (codes "SENDATTACH") && not (is_empty fichero)
    then usuario ++ (tab ++ (operacion ++ (tab ++ (fichero ++ newline))))
    else usuario ++ (tab ++ (operacion ++ newline))

-- The service: `*result`, and what it prints.
unfoldable pub log_operation_1_svc : Option Bytes → Option Bytes → Option Bytes → ℕ × Bytes
unfolding logged
log_operation_1_svc none operacion fichero = (minus_one, [])
log_operation_1_svc (some usuario) none fichero = (minus_one, [])
log_operation_1_svc (some usuario) (some operacion) fichero = (0, logged usuario operacion fichero)
