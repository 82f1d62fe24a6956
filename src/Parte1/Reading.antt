-- ===== src/Parte1/Reading.antt =====
-- Which handler tratar_peticion of parte1 calls for a request that a client sends.
use messaging_service.Prelude.{◌≡◌, refl, ◌∙◌, Bool, true, Option, [], ◌∷◌, ◌++◌, Bytes, codes}
use messaging_service.Text.Chars.{streq}
use messaging_service.Text.Scan.{strtol}
use messaging_service.Program.{Prog, ret}
use messaging_service.Database.Prepare.{Prepared}
use messaging_service.Requests.{and_close}
use messaging_service.Requests.Reading.{
  Request, register, unregister, connect, disconnect, users, message, attach, strings, encode,
  Fields, IsField, with_field-encode,
}
use messaging_service.Parte1.Handlers.{
  f_register, f_unregister, f_connect, f_disconnect, f_send, f_users,
}
use messaging_service.Parte1.Requests.{dispatch, tratar_peticion}

-- The handler that a request is meant for; SENDATTACH is unknown.
unfoldable pub handler : Option Bytes → Prepared → Request → Prog Bool
handler peer unset (register a) = and_close (f_register a)
handler peer unset (unregister a) = and_close (f_unregister a)
handler peer unset (connect a port) = and_close (f_connect peer a (strtol port))
handler peer unset (disconnect a) = and_close (f_disconnect peer a)
handler peer unset (users a) = and_close (f_users a)
handler peer unset (message a b m) = and_close (f_send unset a b m)
handler peer unset (attach a b m f) = ret true

dispatch_one :
    (peer : Option Bytes) (unset : Prepared) (op rest : Bytes) (k : Prog Bool)
    → IsField op
    → dispatch peer unset op rest ≡ k
    → tratar_peticion peer unset (op ++ 0 ∷ rest) ≡ k
unfolding tratar_peticion
dispatch_one peer unset op rest k fo h = with_field-encode op rest _ fo ∙ h

pub tratar_peticion-handler :
    (peer : Option Bytes) (unset : Prepared) (q : Request)
    → Fields (strings q)
    → tratar_peticion peer unset (encode (strings q)) ≡ handler peer unset q
unfolding encode strings handler dispatch streq
tratar_peticion-handler peer unset (register a) (fo, (fa, _)) =
    dispatch_one peer unset (codes "REGISTER") (a ++ 0 ∷ []) _ fo (with_field-encode a [] _ fa)
tratar_peticion-handler peer unset (unregister a) (fo, (fa, _)) =
    dispatch_one peer unset (codes "UNREGISTER") (a ++ 0 ∷ []) _ fo (with_field-encode a [] _ fa)
tratar_peticion-handler peer unset (connect a port) (fo, (fa, (fp, _))) =
    dispatch_one peer unset (codes "CONNECT") (a ++ 0 ∷ (port ++ 0 ∷ [])) _ fo
      (with_field-encode a (port ++ 0 ∷ []) _ fa ∙ with_field-encode port [] _ fp)
tratar_peticion-handler peer unset (disconnect a) (fo, (fa, _)) =
    dispatch_one peer unset (codes "DISCONNECT") (a ++ 0 ∷ []) _ fo (with_field-encode a [] _ fa)
tratar_peticion-handler peer unset (users a) (fo, (fa, _)) =
    dispatch_one peer unset (codes "USERS") (a ++ 0 ∷ []) _ fo (with_field-encode a [] _ fa)
tratar_peticion-handler peer unset (message a b m) (fo, (fa, (fb, (fm, _)))) =
    dispatch_one peer unset (codes "SEND") (a ++ 0 ∷ (b ++ 0 ∷ (m ++ 0 ∷ []))) _ fo (
      with_field-encode a (b ++ 0 ∷ (m ++ 0 ∷ [])) _ fa
      ∙ with_field-encode b (m ++ 0 ∷ []) _ fb
      ∙ with_field-encode m [] _ fm)
tratar_peticion-handler peer unset (attach a b m f) (fo, _) =
    dispatch_one peer unset (codes "SENDATTACH") (a ++ 0 ∷ (b ++ 0 ∷ (m ++ 0 ∷ (f ++ 0 ∷ [])))) _ fo
      refl
