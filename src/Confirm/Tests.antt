-- ===== src/Confirm/Tests.antt =====
-- A confirmation on the phone, run against a scripted broker and device.
use encedo_hem_c_api.Prelude.{
  ◌+◌, ◌≤◌, false, none, some, [], ◌∷◌, Bytes, codes, c_string, bytes_eq, ◌≡◌, refl, arith,
}
use encedo_hem_c_api.Rc.{ok_rc}
use encedo_hem_c_api.Env.{Response, ok}
use encedo_hem_c_api.Base64.{b64_std_decode, b64url_decode, strip_padding, decode_loop, rev}
use encedo_hem_c_api.Context.{clear_error}
use encedo_hem_c_api.Monad.{State}
use encedo_hem_c_api.Cache.{find, put}
use encedo_hem_c_api.Json.{
  json_parse, json_is_object, json_get_string, json_get_int64, json_has, json_new_object,
  json_add_string, json_print,
}
use encedo_hem_c_api.Transport.{transport_send}
use encedo_hem_c_api.Session.{ensure_auth}
use encedo_hem_c_api.Send.{request_of, pace, do_send}
use encedo_hem_c_api.Request.{
  bearer_for, exchange, after_first, reauthenticate, deliver, deliver_body, request_over,
  request_raw, request_json,
}
use encedo_hem_c_api.Token.{cached, decoded_payload, split_dot}
use encedo_hem_c_api.Token.Store.{store_token, keep_entry, decode_bearer_exp, cache_seed}
use encedo_hem_c_api.Token.Ensure.{confirm_and_read}
use encedo_hem_c_api.Binding.{body_with, dup_str}
use encedo_hem_c_api.Notify.{
  accepted, after_send, broker_request, notify_send, notify_send_json, notify_session,
}
use encedo_hem_c_api.Notify.Event.{notify_event_new, notify_event_check}
use encedo_hem_c_api.Ext.{is_b64_of_32, check_request, ext_login_post, ext_request, ext_token}
use encedo_hem_c_api.Confirm.{
  Confirm, confirm_fire_push, recover_push, confirm_begin, confirm_poll, wait_loop, confirm_wait,
  push_confirm,
}
use encedo_hem_c_api.Confirm.Wait.{push_confirm-sends}
use encedo_hem_c_api.Confirm.Bearer.{HasBearer, push_confirm-HasBearer, confirm_and_read-cached}
use encedo_hem_c_api.Confirm.Unapproved.{IsUnapproved, confirm_poll-IsUnapproved}
use encedo_hem_c_api.Fixture.{World, test_env, test_count, test_local, with_replies, success}

abbrev scope : Bytes
scope = codes "keymgmt:list"

-- Five replies: the session, the device's request, the push, the answer, and the token.
abbrev answered_at_once : State World
answered_at_once = with_replies (
    success (codes "{approval}")
    ∷ success (codes "{approval}")
    ∷ success (codes "{approval}")
    ∷ success (codes "{approval}")
    ∷ success (codes "{approval}")
    ∷ [])

abbrev confirmed : State World
confirmed = (push_confirm 5000 scope 60000 answered_at_once).1

confirms : push_confirm 5000 scope 60000 answered_at_once ≡ (ok tt, confirmed)
unfolding push_confirm confirm_begin confirm_fire_push recover_push confirm_wait wait_loop
    confirm_poll notify_session notify_send_json notify_send after_send accepted broker_request
    notify_event_new notify_event_check ext_request ext_token ext_login_post check_request
    is_b64_of_32 body_with dup_str request_json request_raw request_over bearer_for exchange
    after_first do_send pace transport_send request_of reauthenticate deliver deliver_body
    json_parse c_string json_is_object json_get_string json_get_int64 json_has json_new_object
    json_add_string json_print cache_seed store_token ensure_auth keep_entry put find
    decode_bearer_exp decoded_payload split_dot b64_std_decode b64url_decode strip_padding
    decode_loop rev bytes_eq clear_error
confirms = refl

push_confirm-HasBearer_example : HasBearer scope confirmed.ctx
push_confirm-HasBearer_example =
    push_confirm-HasBearer 5000 60000 scope answered_at_once confirmed confirms

confirm_and_read-cached_example :
    (token : Bytes) × (cached confirmed.ctx.auth scope ≡ some token)
    × (confirm_and_read (push_confirm 5000) scope answered_at_once ≡ (ok token, confirmed))
confirm_and_read-cached_example =
    confirm_and_read-cached 5000 scope answered_at_once confirmed confirms

push_confirm-sends_example : confirmed.world.sent ≤ answered_at_once.world.sent + (47 + 12)
push_confirm-sends_example =
    push_confirm-sends test_count test_local 5000 60000 12 scope answered_at_once (omega arith)
      (omega arith)

abbrev no_answer : Response
no_answer = record { status = 202; headers = []; body = none }

abbrev waiting : State World
waiting = with_replies ((ok_rc, no_answer) ∷ [])

abbrev handle : Confirm
handle = record { notify_url = none; scope = scope; eventid = codes "event"; terminal = false }

confirm_poll-IsUnapproved_example :
    IsUnapproved (confirm_poll handle waiting).0
    × ((confirm_poll handle waiting).1.ctx.auth ≡ waiting.ctx.auth)
unfolding notify_event_check notify_send after_send accepted broker_request transport_send
    clear_error
confirm_poll-IsUnapproved_example =
    confirm_poll-IsUnapproved handle waiting λ e approval. cc (approval.0)
