-- ===== src/Token/Tests.antt =====
-- The way to a token, run against a scripted device.
use encedo_hem_c_api.Prelude.{
  ℕ, ◌+◌, ◌*◌, ◌≤◌, ◌||◌, if◌then◌else◌, true, false, none, some, [], ◌∷◌, Bytes, codes, c_string,
  bytes_eq, ◌≡◌, refl, arith,
}
use encedo_hem_c_api.Prelude.Int.{pos, ltb_ℤ, ◌+ℤ◌, ◌-ℤ◌}
use encedo_hem_c_api.Rc.{auth_expired}
use encedo_hem_c_api.Env.{ok, err, get, default}
use encedo_hem_c_api.Context.{Auth}
use encedo_hem_c_api.Base64.{
  b64_std_encode, b64url_encode, b64_std_decode, b64url_decode, encode_loop, strip_padding,
  decode_loop, rev, b64_std_encoded_len, b64url_encoded_len,
}
use encedo_hem_c_api.Monad.{State, Prog, return}
use encedo_hem_c_api.Cache.{find, put}
use encedo_hem_c_api.Cache.Laws.{IsMap, entry, empty}
use encedo_hem_c_api.Global.{global_init}
use encedo_hem_c_api.Json.{
  json_parse, json_is_object, json_get_string, json_get_int64, json_new_object, json_add_string,
  json_add_int64, json_print,
}
use encedo_hem_c_api.Transport.{transport_send}
use encedo_hem_c_api.Session.{ensure_auth, auth_invalidate, logout}
use encedo_hem_c_api.Ejwt.{sign_compact, ejwt_build}
use encedo_hem_c_api.Request.{
  bearer_for, exchange, after_first, reauthenticate, deliver, deliver_body, request_over,
  request_raw, request_json,
}
use encedo_hem_c_api.Send.{request_of, pace, do_send}
use encedo_hem_c_api.Fixture.{
  World, test_env, test_count, test_local, start, test_ctx, with_replies, success,
}
use encedo_hem_c_api.Token.{
  cached, cached_token, drifts, decoded_payload, split_dot, key_of, Recovery,
}
use encedo_hem_c_api.Token.Store.{store_token, keep_entry, decode_bearer_exp}
use encedo_hem_c_api.Token.Challenge.{
  build_auth_body, fetch_challenge, keep_username, derive_ejwt, redeem_ejwt, scrub_unless_retained,
  after_derivation, answer_challenge, use_challenge, acquire_token,
}
use encedo_hem_c_api.Token.Ensure.{
  proactive_checkin, ensure_passphrase, ensure_missing, ensure_token, bound_request_raw, settle,
  conclude, drift_recoverable, is_due,
}
use encedo_hem_c_api.Confirm.{push_confirm}
use encedo_hem_c_api.Token.Budget.Ensure.{ensure_token-sends, bound_request_raw-sends}
use encedo_hem_c_api.Token.Settled.{IsSettled, acquire_token-IsSettled}
use encedo_hem_c_api.Token.Kept.{ensure_token-IsCached}
use encedo_hem_c_api.Token.Served.{
  served_after, store_token-cached_token, store_token-ensure_token, auth_invalidate-cached_token,
  logout-ensure_token, proactive_checkin-once, drifts-window,
}
use encedo_hem_c_api.Token.Payload.{decoded_payload-sign_compact}

-- A session without retention, and a device that answers both requests of the login.
abbrev alice : Auth
alice = record {
  passphrase = some (codes "secret");
  retain = false;
  username = none;
  mobile = false;
  cache = [];
}

abbrev login_state : State World
login_state =
    let s = with_replies (success (codes "{challenge}") ∷ success (codes "{token}") ∷ []) in
    record s { ctx = record test_ctx { auth = some alice } }

abbrev scope : Bytes
scope = codes "keymgmt:list"

abbrev no_recovery : Recovery
no_recovery = record { spent = false; drift = false }

abbrev logged_in : State World
logged_in = (acquire_token (codes "secret") scope (pos 1000) no_recovery login_state).1

acquired :
    acquire_token (codes "secret") scope (pos 1000) no_recovery login_state
    ≡ (ok (no_recovery, ok (codes "a.b.c")), logged_in)
unfolding acquire_token global_init fetch_challenge request_json request_raw request_over bearer_for
    exchange after_first do_send pace transport_send request_of reauthenticate deliver deliver_body
    json_parse c_string json_is_object use_challenge json_get_string json_get_int64 keep_username
    key_of answer_challenge after_derivation derive_ejwt ejwt_build sign_compact redeem_ejwt
    build_auth_body json_new_object json_add_string json_add_int64 json_print decode_bearer_exp
    decoded_payload split_dot store_token ensure_auth keep_entry put find scrub_unless_retained
    b64_std_encode b64url_encode b64_std_decode b64url_decode encode_loop strip_padding decode_loop
    rev b64_std_encoded_len b64url_encoded_len drifts bytes_eq ◌-ℤ◌
acquired = refl

acquire_token-IsSettled_example : IsSettled scope (codes "a.b.c") logged_in.ctx
acquire_token-IsSettled_example =
    acquire_token-IsSettled (codes "secret") scope (pos 1000) no_recovery no_recovery
      (codes "a.b.c") login_state logged_in acquired

abbrev no_confirm : Bytes → ℕ → Prog (Unit {0})
no_confirm s timeout = return tt

abbrev served : State World
served = (ensure_token no_confirm scope login_state).1

ensured : ensure_token no_confirm scope login_state ≡ (ok (codes "a.b.c"), served)
unfolding ensure_token cached_token ensure_missing ensure_passphrase proactive_checkin is_due settle
    drift_recoverable conclude acquire_token global_init fetch_challenge request_json request_raw
    request_over bearer_for exchange after_first do_send pace transport_send request_of
    reauthenticate deliver deliver_body json_parse c_string json_is_object use_challenge
    json_get_string json_get_int64 keep_username key_of answer_challenge after_derivation
    derive_ejwt ejwt_build sign_compact redeem_ejwt build_auth_body json_new_object json_add_string
    json_add_int64 json_print decode_bearer_exp decoded_payload split_dot store_token ensure_auth
    keep_entry put find scrub_unless_retained b64_std_encode b64url_encode b64_std_decode
    b64url_decode encode_loop strip_padding decode_loop rev b64_std_encoded_len b64url_encoded_len
    drifts bytes_eq ◌-ℤ◌
ensured = refl

ensure_token-IsCached_example : cached served.ctx.auth scope ≡ some (codes "a.b.c")
ensure_token-IsCached_example =
    ensure_token-IsCached no_confirm scope (codes "a.b.c") login_state served ensured

abbrev stored_state : State World
stored_state = (store_token scope (codes "a.b.c") (pos 2000) start).1

stored : store_token scope (codes "a.b.c") (pos 2000) start ≡ (ok (codes "a.b.c"), stored_state)
unfolding store_token ensure_auth keep_entry put find
stored = refl

store_token-cached_token_example :
    (codes "a.b.c" ≡ codes "a.b.c")
    × (cached_token stored_state.ctx.auth (codes "other") (pos 1500)
        ≡ served_after none scope (codes "a.b.c") (pos 2000) (codes "other") (pos 1500))
store_token-cached_token_example =
    store_token-cached_token scope (codes "a.b.c") (codes "a.b.c") (codes "other") (pos 2000)
      (pos 1500) start stored_state stored

still_fresh : ltb_ℤ (test_env.now stored_state.world).0 (pos 2000) ≡ true
unfolding store_token ensure_auth keep_entry put find
still_fresh = refl

store_token-ensure_token_example :
    ensure_token no_confirm scope stored_state
    ≡ (ok (codes "a.b.c"), record stored_state { world = (test_env.now stored_state.world).1 })
store_token-ensure_token_example =
    store_token-ensure_token no_confirm scope (codes "a.b.c") (codes "a.b.c") (pos 2000) start
      stored_state stored still_fresh

abbrev holder : Auth
holder = record alice {
  cache = record { scope = scope; token = codes "a.b.c"; exp = pos 2000 } ∷ [];
}

abbrev holding : State World
holding = record start { ctx = record test_ctx { auth = some holder } }

holder_IsMap : IsMap holder.cache
unfolding find
holder_IsMap = entry refl empty

auth_invalidate-cached_token_example :
    (cached_token (auth_invalidate (some scope) holding).1.ctx.auth scope (pos 1500)
      ≡ (if bytes_eq scope scope then none else cached_token (some holder) scope (pos 1500)))
    × ((a' : Auth) × ((auth_invalidate (some scope) holding).1.ctx.auth ≡ some a') × IsMap a'.cache)
auth_invalidate-cached_token_example =
    auth_invalidate-cached_token scope scope (pos 1500) holder holding refl holder_IsMap

logout-ensure_token_example :
    ((ensure_token no_confirm scope (logout holding).1).0 ≡ err auth_expired)
    × ((ensure_token no_confirm scope (logout holding).1).1.world ≡ start.world)
logout-ensure_token_example = logout-ensure_token no_confirm scope holding

abbrev checking_in : State World
checking_in = record start { ctx = record test_ctx { checkin_on_login = true } }

proactive_checkin-once_example :
    proactive_checkin (proactive_checkin checking_in).1
    ≡ (ok false, (proactive_checkin checking_in).1)
proactive_checkin-once_example = proactive_checkin-once checking_in

drifts-window_example :
    drifts (some (pos 1200)) (pos 1000)
    ≡ (ltb_ℤ (pos 1200) (pos 1000) || ltb_ℤ (pos 1000 +ℤ pos 120) (pos 1200))
drifts-window_example = drifts-window (pos 1200) (pos 1000)

abbrev compact : State World
compact = (sign_compact (codes "{head}") (codes "{body}") (codes "key") start).1

signed_token :
    sign_compact (codes "{head}") (codes "{body}") (codes "key") start
    ≡ (ok (codes "e2hlYWR9.e2JvZHl9.bWFj"), compact)
unfolding sign_compact b64url_encode encode_loop b64url_encoded_len
signed_token = refl

decoded_payload-sign_compact_example :
    decoded_payload (codes "e2hlYWR9.e2JvZHl9.bWFj") ≡ some (codes "{body}")
decoded_payload-sign_compact_example =
    decoded_payload-sign_compact (codes "{head}") (codes "{body}") (codes "key")
      (codes "e2hlYWR9.e2JvZHl9.bWFj") start compact
      (omega arith, (omega arith, (omega arith, (omega arith, (omega arith, (omega arith, tt))))))
      (omega arith, (omega arith, (omega arith, (omega arith, (omega arith, (omega arith, tt))))))
      (omega arith) (omega arith) (omega arith) signed_token

-- A mobile session, and a broker and a device that answer at once.
abbrev on_the_phone : State World
on_the_phone =
    let s = with_replies (
      success (codes "{approval}")
      ∷ success (codes "{approval}")
      ∷ success (codes "{approval}")
      ∷ success (codes "{approval}")
      ∷ success (codes "{approval}")
      ∷ []) in
    record s { ctx = record test_ctx { auth = some (record alice { mobile = true }) } }

ensure_token-sends_example :
    (ensure_token (push_confirm 5000) scope on_the_phone).1.world.sent
    ≤ on_the_phone.world.sent + (50 + 12)
ensure_token-sends_example =
    ensure_token-sends test_count test_local 5000 12 scope on_the_phone (omega arith) (omega arith)

bound_request_raw-sends_example :
    ((bound_request_raw
        (push_confirm 5000)
        get
        (codes "/api/system/status")
        none
        none
        default
        on_the_phone).1.world.sent
      ≤ on_the_phone.world.sent + 5)
    × ((bound_request_raw
          (push_confirm 5000)
          get
          (codes "/api/system/status")
          none
          (some scope)
          default
          on_the_phone).1.world.sent
        ≤ on_the_phone.world.sent + (106 + 2 * 12))
bound_request_raw-sends_example =
    bound_request_raw-sends test_count test_local 5000 12 get (codes "/api/system/status") scope
      none default on_the_phone (omega arith) (omega arith)
