-- ===== src/Rpc/Logging.antt =====
-- The log client and the log service together.
use messaging_service.Prelude.{
  ℕ, zero, suc, ◌≤◌, ◌≡◌, Bool, true, false, Option, none, some, [], ◌∷◌, Bytes, arith, length,
}
use messaging_service.Database.Mail.{strncpy}
use messaging_service.Rpc.{Client, Stub, log_rpc_init, log_rpc_send, log_operation_1_svc, answer}

-- The client's state after `log_rpc_init`: enabled exactly with a client.
pub log_rpc_init_consistent :
    (host : Option Bytes) (creates : Bytes → Bool) (c : Client)
    → c.enabled ≡ false
    → ((log_rpc_init host creates c).1.enabled ≡ true → (log_rpc_init host creates c).1.clnt ≡ true)
unfolding log_rpc_init
log_rpc_init_consistent host creates c h = ground arith

-- A transport that carries the three strings to the service and its result back.
pub record Carries (stub : Stub) : Type 0 where
  pub carries :
      (usuario operacion fichero : Bytes)
      → length usuario ≤ 256
      → length operacion ≤ 256
      → length fichero ≤ 256
      → stub usuario operacion fichero
        ≡ some (log_operation_1_svc (some usuario) (some operacion) (some fichero)).0

length-strncpy : (n : ℕ) (s : Bytes) → length (strncpy n s) ≤ n
unfolding strncpy
length-strncpy zero s = omega arith
length-strncpy (suc n) [] = omega arith
length-strncpy (suc n) (c ∷ s) = omega (arith, length-strncpy n s)

-- With a transport that carries strings of up to 256 bytes to the log service and its result back,
-- log_rpc_send with a user and an operation returns 0, however long the strings are and whether or not
-- the log is enabled.
pub log_rpc_send_succeeds :
    (stub : Stub) (c : Client) (usuario operacion : Bytes) (fichero : Option Bytes)
    → Carries stub
    → log_rpc_send stub c (some usuario) (some operacion) fichero ≡ 0
unfolding log_rpc_send log_operation_1_svc
log_rpc_send_succeeds stub c usuario operacion none k =
    rw
      (
        k.carries (strncpy 255 usuario) (strncpy 255 operacion) (strncpy 255 [])
            (omega (arith, length-strncpy 255 usuario))
            (omega (arith, length-strncpy 255 operacion)) (omega (arith, length-strncpy 255 [])),
        answer,
      )
      (ground arith)
log_rpc_send_succeeds stub c usuario operacion (some fichero) k =
    rw
      (
        k.carries (strncpy 255 usuario) (strncpy 255 operacion) (strncpy 255 fichero)
            (omega (arith, length-strncpy 255 usuario))
            (omega (arith, length-strncpy 255 operacion))
            (omega (arith, length-strncpy 255 fichero)),
        answer,
      )
      (ground arith)
