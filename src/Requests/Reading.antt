-- ===== src/Requests/Reading.antt =====
-- Which handler tratar_peticion calls for a request that a client sends as zero-terminated strings.
use messaging_service.Prelude.{
  ℕ, ◌+◌, ◌≤◌, ◌≡◌, refl, ◌∙◌, Bool, false, Option, List, [], ◌∷◌, ◌++◌, Bytes, All, arith, length,
  codes, leb,
}
use messaging_service.Text.Chars.{streq}
use messaging_service.Text.Scan.{strtol}
use messaging_service.Program.{Prog}
use messaging_service.Sockets.{leer_cadena}
use messaging_service.Sockets.Fields.{IsText, leer_cadena_whole, leer_cadena_full}
use messaging_service.Database.Prepare.{Prepared}
use messaging_service.Handlers.{f_register, f_unregister, f_disconnect, f_users}
use messaging_service.Handlers.Delivery.{f_send, f_sendattach}
use messaging_service.Handlers.Connect.{f_connect}
use messaging_service.Requests.{
  with_field, after_field, and_leave_open, and_close, dispatch, tratar_peticion,
}

-- The strings of a request, each with its terminating zero.
unfoldable pub encode : List Bytes → Bytes
encode [] = []
encode (s ∷ strings) = s ++ 0 ∷ encode strings

-- A string that leer_cadena reads whole: at most 254 bytes.
pub record IsField (s : Bytes) : Type 0 where
  pub text : IsText s
  pub fits : length s ≤ 254

positive : (n : ℕ) → leb (n + 1) 0 ≡ false
positive n = ground arith

pub with_field-encode :
    (s rest : Bytes) (next : Bytes → Bytes → Prog Bool)
    → IsField s
    → with_field (s ++ 0 ∷ rest) next ≡ next s rest
unfolding with_field after_field
with_field-encode s rest next f =
    rw (leer_cadena_whole s rest 256 f.text (omega (arith, f.fits))) (rw (positive (length s)))

-- A request of the protocol, as the client's arguments.
pub data Request : Type 0 where
  register : Bytes → Request
  unregister : Bytes → Request
  connect : Bytes → Bytes → Request
  disconnect : Bytes → Request
  users : Bytes → Request
  message : Bytes → Bytes → Bytes → Request
  attach : Bytes → Bytes → Bytes → Bytes → Request

-- The strings of the protocol's table, in its order.
unfoldable pub strings : Request → List Bytes
strings (register a) = codes "REGISTER" ∷ a ∷ []
strings (unregister a) = codes "UNREGISTER" ∷ a ∷ []
strings (connect a port) = codes "CONNECT" ∷ a ∷ port ∷ []
strings (disconnect a) = codes "DISCONNECT" ∷ a ∷ []
strings (users a) = codes "USERS" ∷ a ∷ []
strings (message a b m) = codes "SEND" ∷ a ∷ b ∷ m ∷ []
strings (attach a b m f) = codes "SENDATTACH" ∷ a ∷ b ∷ m ∷ f ∷ []

-- The handler that a request is meant for.
unfoldable pub handler : Option Bytes → Prepared → Request → Prog Bool
handler peer unset (register a) = and_leave_open (f_register a)
handler peer unset (unregister a) = and_leave_open (f_unregister a)
handler peer unset (connect a port) = and_leave_open (f_connect peer a (strtol port))
handler peer unset (disconnect a) = and_leave_open (f_disconnect peer a)
handler peer unset (users a) = and_leave_open (f_users a)
handler peer unset (message a b m) = and_leave_open (f_send unset a b m)
handler peer unset (attach a b m f) = and_close (f_sendattach unset a b m f)

abbrev pub Fields : List Bytes → Type 0
Fields = All IsField

-- The operation names lead to their branches.
dispatch_one :
    (peer : Option Bytes) (unset : Prepared) (op : Bytes) (a rest : Bytes) (k : Prog Bool)
    → IsField op
    → IsField a
    → dispatch peer unset op (a ++ 0 ∷ rest) ≡ k
    → tratar_peticion peer unset (op ++ 0 ∷ (a ++ 0 ∷ rest)) ≡ k
unfolding tratar_peticion
dispatch_one peer unset op a rest k fo fa h = with_field-encode op (a ++ 0 ∷ rest) _ fo ∙ h

-- A request whose strings, without a zero byte, have at most 254 bytes each reaches the handler of its
-- operation with the arguments that the client sent; behind it the socket is closed for SENDATTACH and
-- left open for all others.
pub tratar_peticion-encode :
    (peer : Option Bytes) (unset : Prepared) (q : Request)
    → Fields (strings q)
    → tratar_peticion peer unset (encode (strings q)) ≡ handler peer unset q
unfolding encode strings handler dispatch streq
tratar_peticion-encode peer unset (register a) (fo, (fa, _)) =
    dispatch_one peer unset (codes "REGISTER") a [] _ fo fa (with_field-encode a [] _ fa)
tratar_peticion-encode peer unset (unregister a) (fo, (fa, _)) =
    dispatch_one peer unset (codes "UNREGISTER") a [] _ fo fa (with_field-encode a [] _ fa)
tratar_peticion-encode peer unset (connect a port) (fo, (fa, (fp, _))) =
    dispatch_one peer unset (codes "CONNECT") a (port ++ 0 ∷ []) _ fo fa
      (with_field-encode a (port ++ 0 ∷ []) _ fa ∙ with_field-encode port [] _ fp)
tratar_peticion-encode peer unset (disconnect a) (fo, (fa, _)) =
    dispatch_one peer unset (codes "DISCONNECT") a [] _ fo fa (with_field-encode a [] _ fa)
tratar_peticion-encode peer unset (users a) (fo, (fa, _)) =
    dispatch_one peer unset (codes "USERS") a [] _ fo fa (with_field-encode a [] _ fa)
tratar_peticion-encode peer unset (message a b m) (fo, (fa, (fb, (fm, _)))) =
    dispatch_one peer unset (codes "SEND") a (b ++ 0 ∷ (m ++ 0 ∷ [])) _ fo fa (
      with_field-encode a (b ++ 0 ∷ (m ++ 0 ∷ [])) _ fa
      ∙ with_field-encode b (m ++ 0 ∷ []) _ fb
      ∙ with_field-encode m [] _ fm)
tratar_peticion-encode peer unset (attach a b m f) (fo, (fa, (fb, (fm, (ff, _))))) =
    dispatch_one peer unset (codes "SENDATTACH") a (b ++ 0 ∷ (m ++ 0 ∷ (f ++ 0 ∷ []))) _ fo fa (
      with_field-encode a (b ++ 0 ∷ (m ++ 0 ∷ (f ++ 0 ∷ []))) _ fa
      ∙ with_field-encode b (m ++ 0 ∷ (f ++ 0 ∷ [])) _ fb
      ∙ with_field-encode m (f ++ 0 ∷ []) _ fm
      ∙ with_field-encode f [] _ ff)

with_field_full :
    (s rest : Bytes) (next : Bytes → Bytes → Prog Bool)
    → IsText s
    → length s ≡ 255
    → with_field (s ++ 0 ∷ rest) next ≡ next s (0 ∷ rest)
unfolding with_field after_field
with_field_full s rest next t e =
    let full = leer_cadena_full s rest 256 t (omega arith) (omega arith) in rw full.0 (rw e)

with_field_zero :
    (rest : Bytes) (next : Bytes → Bytes → Prog Bool) → with_field (0 ∷ rest) next ≡ next [] rest
unfolding with_field after_field leer_cadena
with_field_zero rest next = refl

-- A SENDATTACH whose message has exactly 255 bytes, and whose user names have at most 254, runs the
-- handler with the empty string for its file name, whatever name the client sent.
pub sendattach_loses_file_name :
    (peer : Option Bytes) (unset : Prepared) (a b m f : Bytes)
    → IsField a
    → IsField b
    → IsText m
    → length m ≡ 255
    → tratar_peticion peer unset (encode (strings (attach a b m f)))
      ≡ and_close (f_sendattach unset a b m [])
unfolding encode strings dispatch streq
sendattach_loses_file_name peer unset a b m f fa fb t e =
    dispatch_one peer unset (codes "SENDATTACH") a (b ++ 0 ∷ (m ++ 0 ∷ (f ++ 0 ∷ []))) _
      (record {
        text = (refl, (refl, (refl, (refl, (refl, (refl, (refl, (refl, (refl, (refl, tt))))))))));
        fits = omega arith;
      })
      fa
      (with_field-encode a (b ++ 0 ∷ (m ++ 0 ∷ (f ++ 0 ∷ []))) _ fa
        ∙ with_field-encode b (m ++ 0 ∷ (f ++ 0 ∷ [])) _ fb
        ∙ with_field_full m (f ++ 0 ∷ []) _ t e
        ∙ with_field_zero (f ++ 0 ∷ []) (λ file rest. and_close (f_sendattach unset a b m file)))
