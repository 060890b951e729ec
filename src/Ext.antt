-- ===== src/Ext.antt =====
-- src/proto_ext.c, the login pair: the device's request for a push, and the token for its answer.
pub mod Budget
pub mod Pair
use encedo_hem_c_api.Prelude.{
  ℕ, Bool, true, false, not, ◌&&◌, ◌||◌, Option, none, some, List, [], ◌∷◌, ◌++◌, Bytes, codes,
  length, ltb, leb, ◌==◌, if◌then◌else◌,
}
use encedo_hem_c_api.Rc.{Rc, arg, auth_failed, protocol}
use encedo_hem_c_api.Env.{Env, Result, ok, err, post, default}
use encedo_hem_c_api.Base64.{bytes, b64_std_decode}
use encedo_hem_c_api.Context.{Ctx}
use encedo_hem_c_api.Context.Fail.{fail}
use encedo_hem_c_api.Json.{json_get_string}
use encedo_hem_c_api.Ejwt.{string_field}
use encedo_hem_c_api.Request.{request_json}
use encedo_hem_c_api.Checkin.{checkin_run, no_ensure}
use encedo_hem_c_api.Binding.{
  body_with, clear_last_error, dup_str, optional_field, or_nomem, req_str, require,
}
use encedo_hem_c_api.Monad.{Prog, alloc, attempt, get_ctx, return, throw, ◌>>=◌, ◌>>◌}

abbrev decodes_to_32 : Option Bytes → Bool
decodes_to_32 none = false
decodes_to_32 (some raw) = length raw == 32

-- Standard base64 of exactly 32 bytes; the buffer has 48.
unfoldable pub is_b64_of_32 : Bytes → Bool
is_b64_of_32 s =
    if ltb (length s) 43 || ltb 46 (length s)
    then false
    else decodes_to_32 (b64_std_decode (bytes s) (some 48))

-- A length from 1 to `max`; NULL counts as in range.
abbrev pub given_length : Option Bytes → ℕ
given_length none = 1
given_length (some s) = length s

abbrev pub in_range : ℕ → Option Bytes → Bool
in_range max s = leb 1 (given_length s) && leb (given_length s) max

pub record RequestInfo : Type 0 where
  pub authreq : Bytes
  pub epk : Bytes

module _ ⦃E : Env⦄ where
  -- A POST of the login pair, which is unauthenticated.
  abbrev pub login_post : Bytes → Bytes → Prog E.Node
  login_post path body =
      request_json (checkin_run true) no_ensure post path (some body) none default

  abbrev pub after_ext_checkin : Bytes → Bytes → Rc → Result (Unit {0}) → Prog E.Node
  after_ext_checkin path body rc (ok _) = login_post path body
  after_ext_checkin path body rc (err _) = do
    ctx ← get_ctx
    fail rc 403 none (
        path
        ++ codes ": HTTP 403 (device RTC not set; automatic check-in failed: "
        ++ ctx.last_error.message
        ++ codes ")")

  abbrev pub recover_rtc : Bytes → Bytes → Rc → Prog E.Node
  recover_rtc path body rc = do c ← attempt (checkin_run true); after_ext_checkin path body rc c

  abbrev pub is_unset_clock : Ctx → Bool
  is_unset_clock c = c.last_error.http_status == 403 && not c.no_auto_checkin && not c.in_checkin

  abbrev pub after_login_post : Bytes → Bytes → Result E.Node → Prog E.Node
  after_login_post path body (ok root) s = (ok root, s)
  after_login_post path body (err rc) s =
      if is_unset_clock s.ctx then recover_rtc path body rc s else throw rc s

  -- `ext_login_post`: a 403 means an unset clock, which one check-in mends.
  unfoldable pub ext_login_post : Bytes → Bytes → Prog E.Node
  ext_login_post path body = do r ← attempt (login_post path body); after_login_post path body r

  -- What the arguments of `ehem_ext_request` must be.
  unfoldable pub check_request : Bytes → Bytes → Option Bytes → Option Bytes → Prog (Unit {0})
  unfolding is_b64_of_32
  check_request epk_b64 scope ctx_str note_text = do
    require (is_b64_of_32 epk_b64)
        (codes "ext/request: epk must be standard base64 of exactly 32 bytes")
    require (leb (length scope) 1023) (codes "ext/request: scope exceeds 1023 bytes")
    require (in_range 64 ctx_str) (
        codes
          "ext/request: ctx must be 1..64 chars (the firmware silently drops out-of-range values)")
    require (in_range 128 note_text) (
        codes
          "ext/request: note must be 1..128 chars (the firmware silently drops out-of-range values)")

  -- The body's fields in front of the note.
  abbrev pub request_fields :
      Bytes → Bytes → Option Bytes → List (Option E.Node → Prog (Option E.Node))
  request_fields epk_b64 scope ctx_str =
      string_field (codes "epk") epk_b64
      ∷ string_field (codes "scope") scope
      ∷ optional_field (codes "ctx") ctx_str

  unfoldable pub ext_request : Bytes → Bytes → Option Bytes → Option Bytes → Prog RequestInfo
  ext_request epk_b64 scope ctx_str note_text = do
    clear_last_error
    check_request epk_b64 scope ctx_str note_text
    body ←
        body_with (request_fields epk_b64 scope ctx_str ++ optional_field (codes "note") note_text)
    root ← ext_login_post (codes "/api/auth/ext/request") body
    room ← alloc
    or_nomem room tt
    authreq ← req_str root (codes "auth/ext/request") (codes "authreq")
    epk ← req_str root (codes "auth/ext/request") (codes "epk")
    return (record { authreq = authreq; epk = epk })

  -- A refusal of the authenticator's reply: 401 or 406.
  abbrev pub explain_refusal : Rc → ℕ → Prog E.Node
  explain_refusal rc status =
      if status == 401
      then fail auth_failed 401 none (
          codes
            "auth/ext/token: reply JWT rejected (401 - bad signature, expired, or replayed nonce)")
      else if status == 406
      then fail auth_failed 406 none (
          codes
            "auth/ext/token: reply not acceptable (406 - unknown authenticator, unsupported scheme, or scope ciphertext failed to authenticate)")
      else throw rc

  abbrev pub after_token_post : Result E.Node → Prog E.Node
  after_token_post (ok root) = return root
  after_token_post (err rc) = do ctx ← get_ctx; explain_refusal rc ctx.last_error.http_status

  abbrev pub token_field : Option Bytes → Prog Bytes
  token_field none = fail protocol 200 none (codes "auth/ext/token: response missing 'token'")
  token_field (some s) = dup_str s

  abbrev pub reply_fields : Bytes → List (Option E.Node → Prog (Option E.Node))
  reply_fields authreply_jwt = string_field (codes "authreply") authreply_jwt ∷ []

  abbrev pub redeem : Bytes → Prog Bytes
  redeem authreply_jwt = do
    body ← body_with (reply_fields authreply_jwt)
    r ← attempt (ext_login_post (codes "/api/auth/ext/token") body)
    root ← after_token_post r
    token_field (json_get_string (some root) (some (codes "token")))

  abbrev pub redeem_reply : Option Bytes → Prog Bytes
  redeem_reply none = throw arg
  redeem_reply (some []) = do
    clear_last_error
    fail arg 0 none (codes "ext/token: authreply JWT is empty")
  redeem_reply (some (c ∷ cs)) = do clear_last_error; redeem (c ∷ cs)

  -- `ehem_ext_token`
  unfoldable pub ext_token : Option Bytes → Prog Bytes
  ext_token authreply_jwt = redeem_reply authreply_jwt
