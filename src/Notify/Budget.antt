-- ===== src/Notify/Budget.antt =====
-- How many requests the calls of the broker make (src/proto_notify.c).
use encedo_hem_c_api.Prelude.{
  ℕ, ◌||◌, Option, none, some, [], ◌∷◌, ◌++◌, Bytes, codes, c_string, ltb, leb, ◌==◌, length, arith,
}
use encedo_hem_c_api.Rc.{arg, nomem, protocol, map_http_status}
use encedo_hem_c_api.Env.{Env, Result, ok, err, HttpMethod, get, post, Response}
use encedo_hem_c_api.Transport.{last_detail}
use encedo_hem_c_api.Json.{json_is_object, json_get_string, json_has}
use encedo_hem_c_api.Request.Budget.{
  SendCount, Sends, Sends-bind, Sends-le, Sends-return, Sends-fail, Sends-if, Sends-attempt,
  Sends-get_ctx,
}
use encedo_hem_c_api.Request.Budget.Bound.{Sends-parse}
use encedo_hem_c_api.Token.Budget.{LocalCount, Sends-alloc, Sends-string_field}
use encedo_hem_c_api.Binding.Budget.{
  Sends-body_with, Sends-clear, Sends-dup_str, Sends-or_nomem, Sends-required,
}
use encedo_hem_c_api.Notify.{
  base_of, broker_request, accepted, after_send, over, send_to, with_url, notify_send,
  checked_object, parse_object, json_of_reply, notify_send_json, notify_session, bounded_path,
}
use encedo_hem_c_api.Notify.Event.{
  event_fields, notify_event_new, notify_event_check, answered, event_shape, approved_result,
  denied_result, pending_result, with_authreply,
}
use encedo_hem_c_api.Request.Budget.Path.{Sends-transport_send}

abbrev lacks : Bytes
lacks = codes ": broker response missing '"

module _ ⦃E : Env⦄ (count : SendCount) (fits : ℕ → Type 0) (local : LocalCount count) where
  Sends-accepted : (url : Bytes) (resp : Response) → Sends count fits 0 (accepted url resp)
  unfolding accepted
  Sends-accepted url resp =
      Sends-if count fits (ltb resp.status 200 || leb 300 resp.status)
        (Sends-fail count fits (map_http_status resp.status) resp.status resp.body _)
        (Sends-return count fits (resp.status, resp.body))

  Sends-after_send :
      (t : ℕ) (url : Bytes) (r : Result Response) → Sends count fits 0 (after_send t url r)
  unfolding after_send
  Sends-after_send t url (ok resp) = Sends-accepted url resp
  Sends-after_send t url (err rc) = record {
    bound = λ s h.
        (Sends-fail count fits rc 0 none (url ++ codes ": " ++ last_detail (some t) s)).bound s h;
  }

  Sends-send_to :
      (t : ℕ) (method : HttpMethod) (url : Bytes) (body : Option Bytes)
      → Sends count fits 1 (send_to t method url body)
  Sends-send_to t method url body = Sends-bind count fits (Sends-get_ctx count fits) λ ctx.
      Sends-bind count fits
        (Sends-attempt count fits
          (Sends-transport_send count fits (some t) (broker_request ctx method url body)))
        λ r. Sends-after_send t url r

  Sends-with_url :
      (t : ℕ) (method : HttpMethod) (base subpath : Bytes) (body : Option Bytes)
      → Sends count fits 1 (with_url t method base subpath body)
  Sends-with_url t method [] subpath body =
      Sends-le count fits (Sends-fail count fits arg 0 none _) (omega arith)
  Sends-with_url t method (c ∷ cs) subpath body =
      Sends-bind count fits (Sends-alloc count fits local) λ room.
        Sends-if count fits room (Sends-send_to t method ((c ∷ cs) ++ subpath) body) (
          Sends-le count fits (Sends-fail count fits nomem 0 none (codes "out of memory"))
            (omega arith))

  Sends-over :
      (t : Option ℕ) (method : HttpMethod) (notify_url : Option Bytes) (subpath : Bytes)
      (body : Option Bytes)
      → Sends count fits 1 (over t method notify_url subpath body)
  Sends-over none method notify_url subpath body =
      Sends-le count fits (Sends-fail count fits arg 0 none _) (omega arith)
  Sends-over (some t) method notify_url subpath body =
      Sends-with_url t method (base_of notify_url) subpath body

  pub Sends-notify_send :
      (method : HttpMethod) (notify_url : Option Bytes) (subpath : Bytes) (body : Option Bytes)
      → Sends count fits 1 (notify_send method notify_url subpath body)
  unfolding notify_send
  Sends-notify_send method notify_url subpath body =
      Sends-bind count fits (Sends-get_ctx count fits)
        λ ctx. Sends-over ctx.transport method notify_url subpath body

  Sends-checked_object :
      (status : ℕ) (body message : Bytes) (root : Option E.Node)
      → Sends count fits 0 (checked_object status body message root)
  Sends-checked_object status body message none =
      Sends-fail count fits protocol status (some body) _
  Sends-checked_object status body message (some root) =
      Sends-if count fits (json_is_object (some root)) (Sends-return count fits root)
        (Sends-fail count fits protocol status (some body) message)

  Sends-parse_object :
      (status : ℕ) (body message : Bytes) → Sends count fits 0 (parse_object status body message)
  Sends-parse_object status body message =
      Sends-bind count fits (Sends-parse count fits (c_string body))
        λ root. Sends-checked_object status body message root

  Sends-json_of_reply :
      (subpath : Bytes) (status : ℕ) (body : Option Bytes)
      → Sends count fits 0 (json_of_reply subpath status body)
  Sends-json_of_reply subpath status none = Sends-fail count fits protocol status none _
  Sends-json_of_reply subpath status (some body) = Sends-parse_object status body _

  Sends-notify_send_json :
      (method : HttpMethod) (notify_url : Option Bytes) (subpath : Bytes) (body : Option Bytes)
      → Sends count fits 1 (notify_send_json method notify_url subpath body)
  unfolding notify_send_json
  Sends-notify_send_json method notify_url subpath body =
      Sends-bind count fits (Sends-notify_send method notify_url subpath body)
        λ reply. Sends-json_of_reply subpath reply.0 reply.1

  pub Sends-notify_session :
      (notify_url : Option Bytes) → Sends count fits 1 (notify_session notify_url none)
  unfolding notify_session
  Sends-notify_session notify_url = Sends-bind count fits (Sends-clear count fits local) λ u.
      Sends-bind count fits (Sends-notify_send_json get notify_url (codes "/session") none)
        λ root. Sends-required count fits local lacks root (codes "notify/session") (codes "epk")

  pub Sends-notify_event_new :
      (notify_url : Option Bytes) (authreq_jwt epk_b64 : Bytes)
      → Sends count fits 1 (notify_event_new notify_url authreq_jwt epk_b64)
  unfolding notify_event_new
  Sends-notify_event_new notify_url authreq_jwt epk_b64 =
      Sends-bind count fits (Sends-clear count fits local) λ u.
        Sends-bind count fits
          (Sends-body_with count fits local (event_fields authreq_jwt epk_b64) (
            Sends-string_field count fits local (codes "authreq") authreq_jwt,
            (Sends-string_field count fits local (codes "epk") epk_b64, tt),
          ))
          λ body.
            Sends-bind count fits
              (Sends-notify_send_json post notify_url (codes "/event/new") (some body))
              λ root.
                Sends-required count fits local lacks root (codes "notify/event/new")
                  (codes "eventid")

  Sends-bounded_path :
      (prefix id message : Bytes) → Sends count fits 0 (bounded_path prefix id message)
  Sends-bounded_path prefix id message =
      Sends-if count fits (leb 160 (length (prefix ++ id)))
        (Sends-fail count fits arg 0 none message) (Sends-return count fits _)

  Sends-with_authreply :
      (status : ℕ) (body : Bytes) (reply : Option Bytes)
      → Sends count fits 0 (with_authreply status body reply)
  Sends-with_authreply status body none = Sends-fail count fits protocol status (some body) _
  Sends-with_authreply status body (some s) =
      Sends-bind count fits (Sends-dup_str count fits local s)
        λ reply. Sends-return count fits (approved_result reply)

  Sends-answered : (status : ℕ) (body : Option Bytes) → Sends count fits 0 (answered status body)
  Sends-answered status none = Sends-fail count fits protocol status none _
  Sends-answered status (some body) =
      Sends-bind count fits (Sends-parse_object status body event_shape) λ root.
        Sends-if count fits (json_has (some root) (some (codes "deny")))
          (Sends-return count fits denied_result)
          (Sends-with_authreply status body
            (json_get_string (some root) (some (codes "authreply"))))

  pub Sends-notify_event_check :
      (notify_url : Option Bytes) (eventid : Bytes)
      → Sends count fits 1 (notify_event_check notify_url eventid)
  unfolding notify_event_check
  Sends-notify_event_check notify_url eventid =
      Sends-bind count fits (Sends-clear count fits local) λ u.
        Sends-bind count fits
          (Sends-bounded_path (codes "/event/check/") eventid
            (codes "notify/event/check: eventid too long"))
          λ subpath. Sends-bind count fits (Sends-notify_send get notify_url subpath none) λ reply.
            Sends-bind count fits (Sends-alloc count fits local) λ room.
              Sends-bind count fits (Sends-or_nomem count fits local room tt) λ t.
                Sends-if count fits (reply.0 == 202) (Sends-return count fits pending_result)
                  (Sends-answered reply.0 reply.1)
