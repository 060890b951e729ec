-- ===== src/Notify/Event.antt =====
-- src/proto_notify.c: the push, and the question whether it has been answered.
use encedo_hem_c_api.Prelude.{
  ℕ, true, false, Option, none, some, List, [], ◌∷◌, Bytes, codes, ◌==◌, if◌then◌else◌,
}
use encedo_hem_c_api.Rc.{protocol}
use encedo_hem_c_api.Env.{Env, get, post}
use encedo_hem_c_api.Context.Fail.{fail}
use encedo_hem_c_api.Json.{json_get_string, json_has}
use encedo_hem_c_api.Ejwt.{string_field}
use encedo_hem_c_api.Binding.{body_with, clear_last_error, dup_str, or_nomem}
use encedo_hem_c_api.Monad.{Prog, alloc, return, ◌>>=◌, ◌>>◌}
use encedo_hem_c_api.Notify.{
  EventResult, bounded_path, broker_field, notify_send, notify_send_json, parse_object,
}

module _ ⦃E : Env⦄ where
  abbrev pub event_fields : Bytes → Bytes → List (Option E.Node → Prog (Option E.Node))
  event_fields authreq_jwt epk_b64 =
      string_field (codes "authreq") authreq_jwt ∷ string_field (codes "epk") epk_b64 ∷ []

  -- `ehem_notify_event_new`: the device's request for a login, passed through.
  unfoldable pub notify_event_new : Option Bytes → Bytes → Bytes → Prog Bytes
  notify_event_new notify_url authreq_jwt epk_b64 = do
    clear_last_error
    body ← body_with (event_fields authreq_jwt epk_b64)
    root ← notify_send_json post notify_url (codes "/event/new") (some body)
    broker_field root (codes "notify/event/new") (codes "eventid")

  abbrev pub pending_result : EventResult
  pending_result = record { pending = true; denied = false; authreply = none }

  abbrev pub denied_result : EventResult
  denied_result = record { pending = false; denied = true; authreply = none }

  abbrev pub approved_result : Bytes → EventResult
  approved_result reply = record { pending = false; denied = false; authreply = some reply }

  abbrev pub with_authreply : ℕ → Bytes → Option Bytes → Prog EventResult
  with_authreply status body none =
      fail protocol status (some body)
        (codes "notify/event/check: 200 with neither 'authreply' nor 'deny' - unknown broker shape")
  with_authreply status body (some s) = do reply ← dup_str s; return (approved_result reply)

  -- A `deny` field, of whatever type, denies.
  abbrev pub decided : ℕ → Bytes → E.Node → Prog EventResult
  decided status body root =
      if json_has (some root) (some (codes "deny"))
      then return denied_result
      else with_authreply status body (json_get_string (some root) (some (codes "authreply")))

  abbrev pub event_shape : Bytes
  event_shape = codes "notify/event/check: broker response is not a JSON object"

  abbrev pub answered : ℕ → Option Bytes → Prog EventResult
  answered status none = fail protocol status none event_shape
  answered status (some body) = do
    root ← parse_object status body event_shape
    decided status body root

  abbrev pub event_result : ℕ → Option Bytes → Prog EventResult
  event_result status body = if status == 202 then return pending_result else answered status body

  -- `ehem_notify_event_check`
  unfoldable pub notify_event_check : Option Bytes → Bytes → Prog EventResult
  notify_event_check notify_url eventid = do
    clear_last_error
    subpath ←
        bounded_path (codes "/event/check/") eventid (codes "notify/event/check: eventid too long")
    reply ← notify_send get notify_url subpath none
    room ← alloc
    or_nomem room tt
    event_result reply.0 reply.1
