-- ===== src/Request.antt =====
-- src/proto_common.c: the request path that every binding goes through. The token acquisition of
-- src/proto_auth.c and the check-in of src/proto_system.c, which call back into this path, are
-- the arguments `ensure` and `checkin`; Checkin and Token tie the knot.
pub mod Guard
pub mod Budget
pub mod Reply
pub mod Keeps
mod Tests
use encedo_hem_c_api.Prelude.{
  ℕ, zero, suc, ◌+◌, ◌-◌, Bool, true, false, not, ◌&&◌, ◌||◌, Option, none, some, List, [], ◌∷◌,
  ◌++◌, Bytes, codes, c_string, decimal, take, leb, ltb, ◌==◌, if◌then◌else◌,
}
use encedo_hem_c_api.Rc.{Rc, arg, nomem, protocol, map_http_status}
use encedo_hem_c_api.Env.{
  Env, Result, ok, err, HttpMethod, TlsReqOverride, default, relax, verify, Header, Request,
  Response,
}
use encedo_hem_c_api.Context.{Ctx, err_msg_max}
use encedo_hem_c_api.Context.Fail.{fail, mark_expired}
use encedo_hem_c_api.Transport.{transport_send, last_detail, last_tls_expired}
use encedo_hem_c_api.Json.{json_parse, json_is_object}
use encedo_hem_c_api.Session.{auth_invalidate}
use encedo_hem_c_api.Monad.{
  State, Prog, alloc, attempt, get_ctx, put_ctx, return, throw, ◌>>=◌, ◌>>◌,
}
use encedo_hem_c_api.Send.{
  body_of, do_send, header_if, is_default, is_hex, is_kid_hex, json_type, kid_hex_loop, make_bearer,
  pace, request_of, type_of,
}

module _ ⦃E : Env⦄ where
  abbrev pub made : Option Bytes → Prog (Option Bytes)
  made none = fail nomem 0 none (codes "out of memory")
  made (some b) = return (some b)

  -- The bearer for a scope; none for an unauthenticated request.
  unfoldable pub bearer_for : (Bytes → Prog Bytes) → Option Bytes → Prog (Option Bytes)
  unfolding make_bearer
  bearer_for ensure none = return none
  bearer_for ensure (some scope) = do token ← ensure scope; bearer ← make_bearer token; made bearer

  -- A failed exchange, with the transport's account of it.
  unfoldable pub transport_failure : {A : Type 0} → ℕ → Bytes → Rc → Prog A
  transport_failure t path rc s =
      mark_expired (last_tls_expired (some t) s)
        (fail rc 0 none (path ++ codes ": " ++ last_detail (some t) s)) s

  -- Behind the retry: `orig_rc` is the failure that led to the check-in.
  unfoldable pub after_retry : ℕ → Bytes → Rc → Bytes → Result Response → Prog Response
  after_retry t path orig_rc orig_detail (ok resp) = do
    ctx ← get_ctx
    put_ctx (record ctx { cert_refreshed = true })
    return resp
  after_retry t path orig_rc orig_detail (err rc) = λ s.
      if last_tls_expired (some t) s
      then mark_expired true
          (fail orig_rc 0 none (
            path
            ++ codes ": "
            ++ orig_detail
            ++ codes
                " (check-in completed and the device accepted a certificate update, but it still serves the old certificate - a device reboot may be required to apply it)"))
          s
      else transport_failure t path rc s

  -- Behind the check-in: the retry, or the failure that led here.
  unfoldable pub after_checkin :
      ℕ → Bytes → Rc → Bytes → Prog Response → Result (Unit {0}) → Prog Response
  after_checkin t path rc orig_detail resend (ok _) = do
    r ← attempt resend
    after_retry t path rc orig_detail r
  after_checkin t path rc orig_detail resend (err _) = λ s.
      mark_expired true
        (fail rc 0 none (
          path
          ++ codes ": "
          ++ orig_detail
          ++ codes " (automatic check-in recovery failed: "
          ++ s.ctx.last_error.message
          ++ codes ")"))
        s

  -- Whether a failed exchange is one that a check-in may mend.
  unfoldable pub may_recover : ℕ → TlsReqOverride → State E.World → Bool
  may_recover t tls_override s =
      last_tls_expired (some t) s
      && not s.ctx.no_auto_checkin
      && not s.ctx.in_checkin
      && is_default tls_override

  -- The check-in that is run because the certificate has expired.
  unfoldable pub recover_certificate :
      Prog (Unit {0}) → ℕ → Bytes → Rc → Bytes → Prog Response → Prog Response
  recover_certificate checkin t path rc orig_detail resend = do
    c ← attempt checkin
    after_checkin t path rc orig_detail resend c

  -- Behind the first exchange.
  unfoldable pub after_first :
      Prog (Unit {0}) → ℕ → Bytes → TlsReqOverride → Prog Response → Result Response → Prog Response
  after_first checkin t path tls_override resend (ok resp) = return resp
  after_first checkin t path tls_override resend (err rc) = λ s.
      if may_recover t tls_override s
      then recover_certificate checkin t path rc (take 255 (last_detail (some t) s)) resend s
      else transport_failure t path rc s

  unfoldable pub exchange :
      Prog (Unit {0}) → ℕ → Bytes → TlsReqOverride → Prog Response → Prog Response → Prog Response
  unfolding after_first
  exchange checkin t path tls_override first resend = do
    r ← attempt first
    after_first checkin t path tls_override resend r

  -- Behind the retry with a new token, which no check-in follows.
  unfoldable pub after_resend : ℕ → Bytes → Result Response → Prog Response
  after_resend t path (ok resp) = return resp
  after_resend t path (err rc) =
      λ s. fail rc 0 none (path ++ codes ": " ++ last_detail (some t) s) s

  -- One exchange more where the device refuses the token, with a fresh token.
  unfoldable pub reauthenticate :
      (Bytes → Prog Bytes)
      → ℕ
      → Bytes
      → Option Bytes
      → (Option Bytes → Prog Response)
      → Response
      → Prog Response
  reauthenticate ensure t path none resend resp = return resp
  reauthenticate ensure t path (some scope) resend resp =
      if resp.status == 401
      then (do
        auth_invalidate (some scope)
        bearer ← bearer_for ensure (some scope)
        r ← attempt (resend bearer)
        after_resend t path r)
      else return resp

  -- `resp.body == NULL || resp.body_len == 0`, or the body for the caller.
  unfoldable pub deliver_body : Bytes → ℕ → Option Bytes → Prog Bytes
  deliver_body path status (some (c ∷ cs)) = return (c ∷ cs)
  deliver_body path status (some []) =
      fail protocol status none (path ++ codes ": empty response body")
  deliver_body path status none = fail protocol status none (path ++ codes ": empty response body")

  -- The body of a 2xx response, if it has one.
  unfoldable pub deliver : Bytes → Response → Prog Bytes
  unfolding deliver_body
  deliver path resp =
      if ltb resp.status 200 || leb 300 resp.status
      then fail (map_http_status resp.status) resp.status resp.body
          (path ++ codes ": HTTP " ++ decimal resp.status)
      else deliver_body path resp.status resp.body

  -- The request through the context's transport, which may be missing.
  unfoldable pub request_over :
      Prog (Unit {0})
      → (Bytes → Prog Bytes)
      → HttpMethod
      → Bytes
      → Option Bytes
      → Option Bytes
      → TlsReqOverride
      → Option ℕ
      → Prog Bytes
  request_over checkin ensure method path json_body scope tls_override none =
      fail arg 0 none (codes "no transport configured")
  request_over checkin ensure method path json_body scope tls_override (some t) = do
    bearer ← bearer_for ensure scope
    resp ←
        exchange checkin t path tls_override
          (do_send t method path json_body bearer tls_override false)
          (do_send t method path json_body bearer tls_override true)
    resp' ←
        reauthenticate ensure t path scope
          (λ b. do_send t method path json_body b tls_override true) resp
    deliver path resp'

  unfoldable pub request_raw :
      Prog (Unit {0})
      → (Bytes → Prog Bytes)
      → HttpMethod
      → Bytes
      → Option Bytes
      → Option Bytes
      → TlsReqOverride
      → Prog Bytes
  unfolding request_over
  request_raw checkin ensure method path json_body scope tls_override = do
    ctx ← get_ctx
    request_over checkin ensure method path json_body scope tls_override ctx.transport

  -- The parsed object; a NULL root is no object.
  abbrev pub hand_over : Option E.Node → Prog E.Node
  hand_over none = throw protocol
  hand_over (some node) = return node

  abbrev pub shape_error : Option E.Node → Bytes
  shape_error none = codes "malformed JSON response"
  shape_error (some _) = codes "response is not a JSON object"

  unfoldable pub request_json :
      Prog (Unit {0})
      → (Bytes → Prog Bytes)
      → HttpMethod
      → Bytes
      → Option Bytes
      → Option Bytes
      → TlsReqOverride
      → Prog E.Node
  request_json checkin ensure method path json_body scope tls_override = do
    body ← request_raw checkin ensure method path json_body scope tls_override
    root ← json_parse (some (c_string body))
    if json_is_object root
        then hand_over root
        else fail protocol 0 (some body) (path ++ codes ": " ++ shape_error root)
