-- ===== src/Server/Arrivals.antt =====
-- servidor.c: the requests that the server has accepted, and the thread of each.
use messaging_service.Prelude.{Option, Bytes, Bool}
use messaging_service.Database.Prepare.{Prepared}
use messaging_service.Program.{Prog}
use messaging_service.Requests.{tratar_peticion}
use messaging_service.Requests.Reading.{Request, strings, encode}

-- A request, the address that it comes from, and what the uninitialised variables of its thread hold.
pub record Arrival : Type 0 where
  pub peer : Option Bytes
  pub unset : Prepared
  pub request : Request

unfoldable pub thread : Arrival → Prog Bool
thread x = tratar_peticion x.peer x.unset (encode (strings x.request))
