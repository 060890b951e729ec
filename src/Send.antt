-- ===== src/Send.antt =====
-- src/proto_common.c: one request, assembled from the context and handed to the transport.
use encedo_hem_c_api.Prelude.{
  ℕ, zero, suc, Bool, true, false, ◌&&◌, ◌||◌, Option, none, some, List, [], ◌∷◌, ◌++◌, Bytes,
  codes, c_string, leb, ltb, if◌then◌else◌,
}
use encedo_hem_c_api.Env.{Env, ok, HttpMethod, TlsReqOverride, default, Header, Request, Response}
use encedo_hem_c_api.Context.{Ctx}
use encedo_hem_c_api.Transport.{transport_send}
use encedo_hem_c_api.Monad.{Prog, alloc, get_ctx, return, ◌>>=◌, ◌>>◌}

abbrev pub json_type : Bytes
json_type = codes "application/json"

abbrev pub header_if : Bytes → Option Bytes → List Header
header_if name none = []
header_if name (some value) = record { name = name; value = value } ∷ []

abbrev pub type_of : Option Bytes → Option Bytes
type_of none = none
type_of (some _) = some json_type

abbrev pub body_of : Option Bytes → Option Bytes
body_of none = none
body_of (some b) = some (c_string b)

abbrev pub is_default : TlsReqOverride → Bool
is_default default = true
is_default _ = false

-- The request that `do_send` assembles from the context and its arguments.
unfoldable pub request_of :
    Ctx → HttpMethod → Bytes → Option Bytes → Option Bytes → TlsReqOverride → Bool → Request
request_of ctx method path json_body bearer tls_override fresh_connection = record {
  method = method;
  path = path;
  headers =
      record { name = codes "Accept"; value = json_type }
        ∷ header_if (codes "Content-Type") (type_of json_body)
      ++ header_if (codes "Authorization") bearer;
  body = body_of json_body;
  connect_timeout_ms = ctx.connect_timeout_ms;
  total_timeout_ms = ctx.total_timeout_ms;
  tls_override = tls_override;
  fresh_connection = fresh_connection;
}

-- `ehem_proto_is_kid_hex` on a C string: 32 hex digits and then the end.
unfoldable pub is_hex : ℕ → Bool
is_hex c = leb b'0' c && leb c b'9' || leb b'a' c && leb c b'f' || leb b'A' c && leb c b'F'

unfoldable pub kid_hex_loop : ℕ → Bytes → Bool
unfolding is_hex
kid_hex_loop zero [] = true
kid_hex_loop zero (c ∷ cs) = false
kid_hex_loop (suc n) [] = false
kid_hex_loop (suc n) (c ∷ cs) = is_hex c && kid_hex_loop n cs

unfoldable pub is_kid_hex : Bytes → Bool
unfolding kid_hex_loop
is_kid_hex s = kid_hex_loop 32 s

module _ ⦃E : Env⦄ where
  unfoldable pub make_bearer : Bytes → Prog (Option Bytes)
  make_bearer token = do v ← alloc; return (if v then some (codes "Bearer " ++ token) else none)

  -- `ehem_proto_sleep_ms`: no call for 0.
  unfoldable pub pace : ℕ → Prog (Unit {0})
  pace ms s = if ltb 0 ms then (ok tt, record s { world = E.sleep_ms ms s.world }) else (ok tt, s)

  unfoldable pub do_send :
      ℕ → HttpMethod → Bytes → Option Bytes → Option Bytes → TlsReqOverride → Bool → Prog Response
  do_send t method path json_body bearer tls_override fresh_connection = do
    ctx ← get_ctx
    pace ctx.request_pace_ms
    transport_send (some t)
        (request_of ctx method path json_body bearer tls_override fresh_connection)
