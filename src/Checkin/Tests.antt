-- ===== src/Checkin/Tests.antt =====
-- A check-in against a scripted device and cloud.
use encedo_hem_c_api.Prelude.{true, false, [], ◌∷◌, codes, c_string, bytes_eq, ◌≡◌, refl}
use encedo_hem_c_api.Json.{json_parse, json_is_object}
use encedo_hem_c_api.Monad.{State}
use encedo_hem_c_api.Request.{
  bearer_for, exchange, after_first, reauthenticate, deliver, deliver_body, request_over,
  request_raw, request_json,
}
use encedo_hem_c_api.Send.{request_of, pace, do_send}
use encedo_hem_c_api.Transport.{transport_send}
use encedo_hem_c_api.Checkin.{set_in_checkin, checkin_legs, checkin_run}
use encedo_hem_c_api.Checkin.Frame.{checkin_run-ctx}
use encedo_hem_c_api.Fixture.{World, test_env, with_replies, success}

abbrev ready : State World
ready =
    with_replies
      (success (codes "{challenge}") ∷ success (codes "signed") ∷ success (codes "{token}") ∷ [])

three_legs : (checkin_run true ready).1.world.sent ≡ 3
unfolding checkin_run checkin_legs set_in_checkin request_json request_raw request_over bearer_for
    exchange after_first do_send pace transport_send request_of reauthenticate deliver deliver_body
    json_parse json_is_object c_string bytes_eq
three_legs = refl

checkin_run-ctx_example : (checkin_run true ready).1.ctx ≡ record (ready.ctx) {
  in_checkin = false;
  last_error = (checkin_run true ready).1.ctx.last_error;
}
checkin_run-ctx_example = checkin_run-ctx true ready
