-- ===== src/Request/Tests.antt =====
-- Requests against a scripted device.
use encedo_hem_c_api.Prelude.{
  ◌+◌, ◌*◌, ◌≤◌, ◌<◌, true, none, some, [], ◌∷◌, codes, Bytes, c_string, bytes_eq, ◌≡◌, ◌≢◌, ◌⊎◌,
  refl, arith,
}
use encedo_hem_c_api.Rc.{protocol, map_http_status}
use encedo_hem_c_api.Env.{Response, ok, get, default}
use encedo_hem_c_api.Json.{json_parse, json_is_object}
use encedo_hem_c_api.Monad.{State, return}
use encedo_hem_c_api.Transport.{transport_send}
use encedo_hem_c_api.Request.{
  bearer_for, exchange, after_first, reauthenticate, deliver, deliver_body, request_over,
  request_raw, request_json,
}
use encedo_hem_c_api.Send.{request_of, pace, do_send}
use encedo_hem_c_api.Request.Guard.{request_raw-in_checkin}
use encedo_hem_c_api.Request.Budget.Bound.{request_raw-sends}
use encedo_hem_c_api.Request.Reply.{IsFailure, deliver-cases, request_json-IsObject}
use encedo_hem_c_api.Checkin.{checkin_run, no_checkin, no_ensure}
use encedo_hem_c_api.Fixture.{
  World, test_env, test_count, test_ctx, start, with_replies, success, challenge,
}

abbrev in_leg : State World
in_leg = record start { ctx = record test_ctx { in_checkin = true } }

abbrev path : Bytes
path = codes "/api/system/status"

request_raw-in_checkin_example :
    request_raw (checkin_run true) no_ensure get path none none default in_leg
    ≡ request_raw no_checkin (λ scope. return (codes "token")) get path none none default in_leg
request_raw-in_checkin_example =
    request_raw-in_checkin (checkin_run true) no_checkin no_ensure (λ scope. return (codes "token"))
      get path none default in_leg refl

request_raw-sends_example :
    ((request_raw (checkin_run true) no_ensure get path none none default start).1.world.sent
      ≤ start.world.sent + 5)
    × ((request_raw
          (checkin_run true)
          no_ensure
          get
          path
          none
          (some (codes "list"))
          default
          start).1.world.sent
        ≤ start.world.sent + (2 * 0 + 6))
request_raw-sends_example =
    request_raw-sends test_count no_ensure get path (codes "list") none default 0 start
      (λ s. omega arith)

abbrev found : Response
found = record { status = 200; headers = []; body = some (codes "{token}") }

deliver-cases_example :
    ((200 ≤ found.status)
      × (found.status < 300)
      × (((body : Bytes) × (found.body ≡ some body)
            × (body ≢ [])
            × (deliver path found start ≡ (ok body, start)))
          ⊎ (((found.body ≡ none) ⊎ (found.body ≡ some []))
              × IsFailure protocol found.status start (deliver path found start))))
    ⊎ (((found.status < 200) ⊎ (300 ≤ found.status))
        × IsFailure (map_http_status found.status) found.status start (deliver path found start))
deliver-cases_example = deliver-cases path found start

abbrev answering : State World
answering = with_replies (success (codes "{challenge}") ∷ [])

abbrev raw_end : State World
raw_end = (request_raw (checkin_run true) no_ensure get path none none default answering).1

abbrev json_end : State World
json_end = (request_json (checkin_run true) no_ensure get path none none default answering).1

raw_answer :
    request_raw (checkin_run true) no_ensure get path none none default answering
    ≡ (ok (codes "{challenge}"), raw_end)
unfolding request_raw request_over bearer_for exchange after_first do_send pace transport_send
    request_of reauthenticate deliver deliver_body
raw_answer = refl

json_answer :
    request_json (checkin_run true) no_ensure get path none none default answering
    ≡ (ok challenge, json_end)
unfolding request_raw request_over bearer_for exchange after_first do_send pace transport_send
    request_of reauthenticate deliver deliver_body request_json json_parse json_is_object c_string
    bytes_eq
json_answer = refl

request_json-IsObject_example : (codes "{challenge}" ≢ []) × (test_env.is_object challenge ≡ true)
request_json-IsObject_example =
    request_json-IsObject (checkin_run true) no_ensure get path (codes "{challenge}") none none
      default challenge answering raw_end answering json_end raw_answer json_answer
