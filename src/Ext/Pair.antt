-- ===== src/Ext/Pair.antt =====
-- src/proto_ext.c, the pairing of a phone. The device wants a session with a passphrase for it.
use encedo_hem_c_api.Prelude.{
  ℕ, Bool, true, false, Option, none, some, List, [], ◌∷◌, ◌++◌, Bytes, codes, length, leb, ◌==◌,
  if◌then◌else◌,
}
use encedo_hem_c_api.Rc.{Rc, device, scope_denied}
use encedo_hem_c_api.Env.{Env, Result, ok, err, post}
use encedo_hem_c_api.Context.Fail.{fail}
use encedo_hem_c_api.Session.{is_mobile}
use encedo_hem_c_api.Ejwt.{string_field}
use encedo_hem_c_api.Device.{device_json}
use encedo_hem_c_api.Ext.{is_b64_of_32}
use encedo_hem_c_api.Binding.{body_with, clear_last_error, or_nomem, req_str, require}
use encedo_hem_c_api.Monad.{Prog, alloc, attempt, get_ctx, return, throw, ◌>>=◌, ◌>>◌}

abbrev pub pair_scope : Bytes
pair_scope = codes "auth:ext:pair"

pub record InitInfo : Type 0 where
  pub request : Bytes
  pub eid : Bytes

pub record ValidateInfo : Type 0 where
  pub kid : Bytes
  pub code : Bytes

pub record MacInfo : Type 0 where
  pub nonce : Bytes
  pub mac : Bytes
  pub eid : Bytes

module _ ⦃E : Env⦄ where
  abbrev pub unless_mobile : Bytes → Bool → Prog (Unit {0})
  unless_mobile what true = fail scope_denied 0 none (
      what
      ++ codes
          ": pairing requires a passphrase session - the device demands sub=\"U\" and mobile bearers carry the authenticator kid; call ehem_login() (no push was sent)")
  unless_mobile what false = return tt

  abbrev pub check_session : Bytes → Prog (Unit {0})
  check_session what = do ctx ← get_ctx; unless_mobile what (is_mobile ctx.auth)

  -- The body of the initialisation and of the MAC.
  abbrev pub epk_fields : Bytes → List (Option E.Node → Prog (Option E.Node))
  epk_fields epk_b64 = string_field (codes "epk") epk_b64 ∷ []

  abbrev pub pair_post : Bytes → List (Option E.Node → Prog (Option E.Node)) → Prog E.Node
  pair_post path adds = do
    body ← body_with adds
    device_json post path (some body) (some pair_scope)

  unfoldable pub ext_init : Bytes → Prog InitInfo
  ext_init epk_b64 = do
    clear_last_error
    check_session (codes "ext/init")
    require (is_b64_of_32 epk_b64)
        (codes "ext/init: epk must be standard base64 of exactly 32 bytes")
    root ← pair_post (codes "/api/auth/ext/init") (epk_fields epk_b64)
    room ← alloc
    or_nomem room tt
    request ← req_str root (codes "auth/ext/init") (codes "request")
    eid ← req_str root (codes "auth/ext/init") (codes "eid")
    return (record { request = request; eid = eid })

  abbrev pub validate_fields : Bytes → Bytes → List (Option E.Node → Prog (Option E.Node))
  validate_fields pid_b64 reply_jwt =
      string_field (codes "pid") pid_b64 ∷ string_field (codes "reply") reply_jwt ∷ []

  -- Both causes of a 406, which the wire does not tell apart.
  abbrev pub explain_import : Rc → ℕ → Prog E.Node
  explain_import rc status =
      if status == 406
      then fail device 406 none (
          codes
            "auth/ext/validate: import refused (406) - ExtAuth slots full (max 8) or this authenticator key is already paired")
      else throw rc

  abbrev pub after_validate : Result E.Node → Prog E.Node
  after_validate (ok root) = return root
  after_validate (err rc) = do ctx ← get_ctx; explain_import rc ctx.last_error.http_status

  unfoldable pub ext_validate : Bytes → Bytes → Prog ValidateInfo
  ext_validate pid_b64 reply_jwt = do
    clear_last_error
    check_session (codes "ext/validate")
    require (is_b64_of_32 pid_b64) (
        codes
          "ext/validate: pid must be standard base64 of exactly 32 bytes (the device stores the decoded pid as a fixed 32-byte descriptor suffix)")
    require (leb 1 (length reply_jwt)) (codes "ext/validate: reply JWT is empty")
    body ← body_with (validate_fields pid_b64 reply_jwt)
    r ← attempt (device_json post (codes "/api/auth/ext/validate") (some body) (some pair_scope))
    root ← after_validate r
    room ← alloc
    or_nomem room tt
    kid ← req_str root (codes "auth/ext/validate") (codes "kid")
    code ← req_str root (codes "auth/ext/validate") (codes "code")
    return (record { kid = kid; code = code })

  unfoldable pub ext_mac : Bytes → Prog MacInfo
  ext_mac epk_b64 = do
    clear_last_error
    check_session (codes "ext/mac")
    require (is_b64_of_32 epk_b64)
        (codes "ext/mac: epk must be standard base64 of exactly 32 bytes")
    root ← pair_post (codes "/api/auth/ext/mac") (epk_fields epk_b64)
    room ← alloc
    or_nomem room tt
    nonce ← req_str root (codes "auth/ext/mac") (codes "nonce")
    mac ← req_str root (codes "auth/ext/mac") (codes "mac")
    eid ← req_str root (codes "auth/ext/mac") (codes "eid")
    return (record { nonce = nonce; mac = mac; eid = eid })
