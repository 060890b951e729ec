-- ===== src/Notify.antt =====
-- src/proto_notify.c: the client of the notification broker. It drives the transport directly,
-- since a status of 202 is a result here and not an error.
pub mod Pairing
pub mod Event
pub mod Budget
use encedo_hem_c_api.Prelude.{
  ℕ, ◌+◌, Bool, true, false, not, ◌||◌, Option, none, some, List, [], ◌∷◌, ◌++◌, Bytes, codes,
  c_string, decimal, length, ltb, leb, ◌==◌, if◌then◌else◌,
}
use encedo_hem_c_api.Rc.{Rc, arg, protocol, map_http_status}
use encedo_hem_c_api.Env.{Env, Result, ok, err, HttpMethod, get, post, verify, Request, Response}
use encedo_hem_c_api.Context.{Ctx}
use encedo_hem_c_api.Context.Fail.{fail}
use encedo_hem_c_api.Transport.{transport_send, last_detail}
use encedo_hem_c_api.Json.{json_parse, json_is_object, json_get_string, json_has}
use encedo_hem_c_api.Ejwt.{string_field}
use encedo_hem_c_api.Send.{json_type, header_if, type_of, body_of}
use encedo_hem_c_api.Binding.{
  body_with, clear_last_error, dup_str, or_nomem, out_of_memory, required,
}
use encedo_hem_c_api.Monad.{Prog, alloc, attempt, get_ctx, return, ◌>>=◌, ◌>>◌}

abbrev pub default_notify_url : Bytes
default_notify_url = codes "https://api.encedo.com/notify"

abbrev pub base_of : Option Bytes → Bytes
base_of none = default_notify_url
base_of (some url) = url

-- Always with full TLS verification, and with no bearer.
unfoldable pub broker_request : Ctx → HttpMethod → Bytes → Option Bytes → Request
broker_request ctx method url json_body = record {
  method = method;
  path = url;
  headers =
      record { name = codes "Accept"; value = json_type }
      ∷ header_if (codes "Content-Type") (type_of json_body);
  body = body_of json_body;
  connect_timeout_ms = ctx.connect_timeout_ms;
  total_timeout_ms = ctx.total_timeout_ms;
  tls_override = verify;
  fresh_connection = false;
}

-- The answer to a call that may be pending: 202, denied, or the two kinds of 200.
pub record EventResult : Type 0 where
  pub pending : Bool
  pub denied : Bool
  pub authreply : Option Bytes

pub record PairingReply : Type 0 where
  pub pending : Bool
  pub pid : Option Bytes
  pub reply : Option Bytes

pub record RegisterInfo : Type 0 where
  pub rid : Bytes
  pub link : Bytes

module _ ⦃E : Env⦄ where
  -- Behind the exchange: a reply of 2xx with its body, which may be NULL.
  unfoldable pub accepted : Bytes → Response → Prog (ℕ × Option Bytes)
  accepted url resp =
      if ltb resp.status 200 || leb 300 resp.status
      then fail (map_http_status resp.status) resp.status resp.body
          (url ++ codes ": HTTP " ++ decimal resp.status)
      else return (resp.status, resp.body)

  unfoldable pub after_send : ℕ → Bytes → Result Response → Prog (ℕ × Option Bytes)
  unfolding accepted
  after_send t url (ok resp) = accepted url resp
  after_send t url (err rc) = λ s. fail rc 0 none (url ++ codes ": " ++ last_detail (some t) s) s

  abbrev pub send_to : ℕ → HttpMethod → Bytes → Option Bytes → Prog (ℕ × Option Bytes)
  send_to t method url json_body = do
    ctx ← get_ctx
    r ← attempt (transport_send (some t) (broker_request ctx method url json_body))
    after_send t url r

  -- The URL is put together in a buffer of its own.
  abbrev pub with_url : ℕ → HttpMethod → Bytes → Bytes → Option Bytes → Prog (ℕ × Option Bytes)
  with_url t method [] subpath json_body = fail arg 0 none (codes "notify: empty broker URL")
  with_url t method (c ∷ cs) subpath json_body = do
    room ← alloc
    if room then send_to t method ((c ∷ cs) ++ subpath) json_body else out_of_memory

  abbrev pub over :
      Option ℕ → HttpMethod → Option Bytes → Bytes → Option Bytes → Prog (ℕ × Option Bytes)
  over none method notify_url subpath json_body = fail arg 0 none (codes "no transport configured")
  over (some t) method notify_url subpath json_body =
      with_url t method (base_of notify_url) subpath json_body

  unfoldable pub notify_send :
      HttpMethod → Option Bytes → Bytes → Option Bytes → Prog (ℕ × Option Bytes)
  unfolding after_send
  notify_send method notify_url subpath json_body = do
    ctx ← get_ctx
    over ctx.transport method notify_url subpath json_body

  -- The object in a body; `message` says what it is not.
  abbrev pub checked_object : ℕ → Bytes → Bytes → Option E.Node → Prog E.Node
  checked_object status body message none = fail protocol status (some body) message
  checked_object status body message (some root) =
      if json_is_object (some root) then return root else fail protocol status (some body) message

  abbrev pub parse_object : ℕ → Bytes → Bytes → Prog E.Node
  parse_object status body message = do
    root ← json_parse (some (c_string body))
    checked_object status body message root

  abbrev pub json_of_reply : Bytes → ℕ → Option Bytes → Prog E.Node
  json_of_reply subpath status none =
      fail protocol status none (subpath ++ codes ": empty broker response body")
  json_of_reply subpath status (some body) =
      parse_object status body (subpath ++ codes ": broker response is not a JSON object")

  unfoldable pub notify_send_json : HttpMethod → Option Bytes → Bytes → Option Bytes → Prog E.Node
  notify_send_json method notify_url subpath json_body = do
    reply ← notify_send method notify_url subpath json_body
    json_of_reply subpath reply.0 reply.1

  -- `req_str` of this file.
  abbrev pub broker_field : E.Node → Bytes → Bytes → Prog Bytes
  broker_field = required (codes ": broker response missing '")

  -- A POST that binds the session to a device, or a GET for an anonymous one.
  abbrev pub session_reply : Option Bytes → Option Bytes → Prog E.Node
  session_reply notify_url none = notify_send_json get notify_url (codes "/session") none
  session_reply notify_url (some eid) = do
    body ← body_with (string_field (codes "eid") eid ∷ [])
    notify_send_json post notify_url (codes "/session") (some body)

  unfoldable pub notify_session : Option Bytes → Option Bytes → Prog Bytes
  notify_session notify_url eid_b64 = do
    clear_last_error
    root ← session_reply notify_url eid_b64
    broker_field root (codes "notify/session") (codes "epk")

  unfoldable pub notify_register_init : Option Bytes → Bytes → Bytes → Bytes → Prog RegisterInfo
  notify_register_init notify_url epk_b64 eid_b64 request_jwt = do
    clear_last_error
    body ← body_with (
        string_field (codes "epk") epk_b64
        ∷ string_field (codes "eid") eid_b64
        ∷ string_field (codes "request") request_jwt
        ∷ [])
    root ← notify_send_json post notify_url (codes "/register/init") (some body)
    room ← alloc
    or_nomem room tt
    rid ← broker_field root (codes "notify/register/init") (codes "rid")
    link ← broker_field root (codes "notify/register/init") (codes "link")
    return (record { rid = rid; link = link })

  -- A path that the buffer of 160 bytes holds.
  abbrev pub bounded_path : Bytes → Bytes → Bytes → Prog Bytes
  bounded_path prefix id message =
      if leb 160 (length (prefix ++ id)) then fail arg 0 none message else return (prefix ++ id)
