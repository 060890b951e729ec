-- ===== src/Ext/Budget.antt =====
-- How many requests the login pair makes (src/proto_ext.c).
use encedo_hem_c_api.Prelude.{
  ℕ, true, Option, none, some, [], ◌∷◌, ◌++◌, Bytes, codes, leb, ◌==◌, length, arith,
}
use encedo_hem_c_api.Rc.{Rc, arg, protocol, auth_failed}
use encedo_hem_c_api.Env.{Env, Result, ok, err, post, default}
use encedo_hem_c_api.Json.{json_get_string}
use encedo_hem_c_api.Checkin.{checkin_run, no_ensure}
use encedo_hem_c_api.Monad.{throw}
use encedo_hem_c_api.Request.Budget.{
  SendCount, Sends, Sends-bind, Sends-le, Sends-return, Sends-throw, Sends-fail, Sends-if,
  Sends-attempt, Sends-get_ctx, Sends-test,
}
use encedo_hem_c_api.Request.Budget.Bound.{
  Sends-checkin_run, Sends-request_json, Sends-request_plain,
}
use encedo_hem_c_api.Token.Budget.{LocalCount, Sends-alloc, Sends-string_field}
use encedo_hem_c_api.Binding.{optional_field, req_str}
use encedo_hem_c_api.Binding.Budget.{
  AreLocal-append, AreLocal-optional, Sends-body_with, Sends-clear, Sends-dup_str, Sends-or_nomem,
  Sends-require, Sends-required,
}
use encedo_hem_c_api.Ext.{
  request_fields, reply_fields, is_b64_of_32, in_range, login_post, after_ext_checkin, recover_rtc,
  is_unset_clock, after_login_post, ext_login_post, check_request, ext_request, explain_refusal,
  after_token_post, token_field, redeem, ext_token,
}

abbrev lacks : Bytes
lacks = codes ": response missing '"

module _ ⦃E : Env⦄ (count : SendCount) (fits : ℕ → Type 0) (local : LocalCount count) where
  Sends-login_post : (path body : Bytes) → Sends count fits 5 (login_post path body)
  Sends-login_post path body =
      Sends-request_json count fits (checkin_run true) no_ensure post path (some body) none default
        (Sends-request_plain count fits no_ensure post path (some body) default)

  Sends-recover_rtc : (path body : Bytes) (rc : Rc) → Sends count fits 8 (recover_rtc path body rc)
  Sends-recover_rtc path body rc =
      Sends-bind count fits (Sends-attempt count fits (Sends-checkin_run count fits true)) behind
    where
      behind : (c : Result (Unit {0})) → Sends count fits 5 (after_ext_checkin path body rc c)
      behind (ok u) = Sends-login_post path body
      behind (err e) =
          Sends-le count fits
            (Sends-bind count fits (Sends-get_ctx count fits)
              λ ctx. Sends-fail count fits rc 403 none _)
            (omega arith)

  Sends-ext_login_post : (path body : Bytes) → Sends count fits 13 (ext_login_post path body)
  unfolding ext_login_post
  Sends-ext_login_post path body =
      Sends-bind count fits (Sends-attempt count fits (Sends-login_post path body)) behind
    where
      behind : (r : Result E.Node) → Sends count fits 8 (after_login_post path body r)
      behind (ok root) = record { bound = λ s h. (h, omega arith) }
      behind (err rc) =
          Sends-test count fits (λ s. is_unset_clock s.ctx) (λ s. recover_rtc path body rc)
            (λ s. throw rc) (λ s. Sends-recover_rtc path body rc)
            (λ s. Sends-le count fits (Sends-throw count fits rc) (omega arith))

  Sends-check_request :
      (epk_b64 scope : Bytes) (ctx_str note_text : Option Bytes)
      → Sends count fits 0 (check_request epk_b64 scope ctx_str note_text)
  unfolding check_request
  Sends-check_request epk_b64 scope ctx_str note_text =
      Sends-bind count fits (Sends-require count fits local (is_b64_of_32 epk_b64) _) λ a.
        Sends-bind count fits (Sends-require count fits local (leb (length scope) 1023) _) λ b.
          Sends-bind count fits (Sends-require count fits local (in_range 64 ctx_str) _)
            λ c. Sends-require count fits local (in_range 128 note_text) _

  pub Sends-ext_request :
      (epk_b64 scope : Bytes) (ctx_str note_text : Option Bytes)
      → Sends count fits 13 (ext_request epk_b64 scope ctx_str note_text)
  unfolding ext_request
  Sends-ext_request epk_b64 scope ctx_str note_text =
      Sends-bind count fits (Sends-clear count fits local) λ u.
        Sends-bind count fits (Sends-check_request epk_b64 scope ctx_str note_text) λ v.
          Sends-bind count fits
            (Sends-body_with count fits local
              (request_fields epk_b64 scope ctx_str ++ optional_field (codes "note") note_text)
              (AreLocal-append count fits local (request_fields epk_b64 scope ctx_str)
                (optional_field (codes "note") note_text)
                (
                  Sends-string_field count fits local (codes "epk") epk_b64,
                  (
                    Sends-string_field count fits local (codes "scope") scope,
                    AreLocal-optional count fits local (codes "ctx") ctx_str,
                  ),
                )
                (AreLocal-optional count fits local (codes "note") note_text)))
            λ body.
              Sends-bind count fits (Sends-ext_login_post (codes "/api/auth/ext/request") body)
                λ root. Sends-bind count fits (Sends-alloc count fits local) λ room.
                  Sends-bind count fits (Sends-or_nomem count fits local room tt) λ w.
                    Sends-bind count fits (field root (codes "authreq")) λ authreq.
                      Sends-bind count fits (field root (codes "epk"))
                        λ epk. Sends-return count fits (record { authreq = authreq; epk = epk })
    where
      field :
          (root : E.Node) (key : Bytes)
          → Sends count fits 0 (req_str root (codes "auth/ext/request") key)
      field root key = Sends-required count fits local lacks root (codes "auth/ext/request") key

  Sends-token_field : (o : Option Bytes) → Sends count fits 0 (token_field o)
  Sends-token_field none = Sends-fail count fits protocol 200 none _
  Sends-token_field (some s) = Sends-dup_str count fits local s

  Sends-redeem : (reply : Bytes) → Sends count fits 13 (redeem reply)
  Sends-redeem reply =
      Sends-bind count fits
        (Sends-body_with count fits local (reply_fields reply)
          (Sends-string_field count fits local (codes "authreply") reply, tt))
        λ body.
          Sends-bind count fits
            (Sends-attempt count fits (Sends-ext_login_post (codes "/api/auth/ext/token") body))
            λ r.
              Sends-bind count fits (behind r)
                λ root. Sends-token_field (json_get_string (some root) (some (codes "token")))
    where
      explained : (rc : Rc) (status : ℕ) → Sends count fits 0 (explain_refusal rc status)
      explained rc status =
          Sends-if count fits (status == 401) (Sends-fail count fits auth_failed 401 none _) (
            Sends-if count fits (status == 406) (Sends-fail count fits auth_failed 406 none _)
              (Sends-throw count fits rc))

      behind : (r : Result E.Node) → Sends count fits 0 (after_token_post r)
      behind (ok root) = Sends-return count fits root
      behind (err rc) =
          Sends-bind count fits (Sends-get_ctx count fits)
            λ ctx. explained rc ctx.last_error.http_status

  pub Sends-ext_token : (reply : Option Bytes) → Sends count fits 13 (ext_token reply)
  unfolding ext_token
  Sends-ext_token none = Sends-le count fits (Sends-throw count fits arg) (omega arith)
  Sends-ext_token (some []) =
      Sends-le count fits
        (Sends-bind count fits (Sends-clear count fits local)
          λ u. Sends-fail count fits arg 0 none (codes "ext/token: authreply JWT is empty"))
        (omega arith)
  Sends-ext_token (some (c ∷ cs)) =
      Sends-bind count fits (Sends-clear count fits local) λ u. Sends-redeem (c ∷ cs)
