-- ===== src/Token/Ensure.antt =====
-- src/proto_auth.c: `ehem_auth_ensure_token`, the one way to a bearer token.
use encedo_hem_c_api.Prelude.{
  ℕ, Bool, true, false, not, ◌&&◌, Option, none, some, ◌++◌, Bytes, codes, ◌==◌, if◌then◌else◌,
}
use encedo_hem_c_api.Prelude.Int.{ℤ}
use encedo_hem_c_api.Rc.{protocol, auth_expired, auth_failed}
use encedo_hem_c_api.Env.{Env, Result, ok, err, HttpMethod, TlsReqOverride}
use encedo_hem_c_api.Context.{Ctx, Auth}
use encedo_hem_c_api.Context.Fail.{fail}
use encedo_hem_c_api.Session.{is_mobile}
use encedo_hem_c_api.Request.{request_raw}
use encedo_hem_c_api.Checkin.{checkin_run}
use encedo_hem_c_api.Monad.{Prog, attempt, get_ctx, put_ctx, return, ◌>>=◌, ◌>>◌}
use encedo_hem_c_api.Token.{token_path, cached_token, passphrase_of, cached, Recovery}
use encedo_hem_c_api.Token.Store.{auth_now}
use encedo_hem_c_api.Token.Challenge.{acquire_token}

unfoldable pub is_due : Ctx → Bool
is_due c = c.checkin_on_login && not c.checkin_on_login_done && not c.in_checkin

module _ ⦃E : Env⦄ where
  abbrev pub is_failed : Result (Unit {0}) → Bool
  is_failed (ok _) = false
  is_failed (err _) = true

  -- Gives whether the check-in failed.
  abbrev pub best_effort_checkin : Ctx → Prog Bool
  best_effort_checkin c = do
    put_ctx (record c { checkin_on_login_done = true })
    r ← attempt (checkin_run true)
    return (is_failed r)

  -- The proactive check-in: once for a context, and never inside a check-in. Gives whether it
  -- was run and failed.
  unfoldable pub proactive_checkin : Prog Bool
  proactive_checkin s = if is_due s.ctx then best_effort_checkin s.ctx s else (ok false, s)

  -- The bearer that the confirmation has put into the cache.
  abbrev pub from_cache : Bytes → Option Bytes → Prog Bytes
  from_cache scope (some token) = return token
  from_cache scope none = fail protocol 0 none (
      codes "mobile login: confirmation succeeded but no bearer was cached for scope '"
      ++ scope
      ++ codes "'")

  abbrev pub read_cache : Bytes → Prog Bytes
  read_cache scope = do ctx ← get_ctx; from_cache scope (cached ctx.auth scope)

  abbrev pub confirm_and_read : (Bytes → ℕ → Prog (Unit {0})) → Bytes → Prog Bytes
  confirm_and_read confirm scope = do
    ctx ← get_ctx
    confirm scope ctx.confirm_timeout_ms
    read_cache scope

  -- Mobile mode: the user confirms on the phone, and the bearer is in the cache.
  unfoldable pub ensure_mobile : (Bytes → ℕ → Prog (Unit {0})) → Bytes → Prog Bytes
  ensure_mobile confirm scope = do failed ← proactive_checkin; confirm_and_read confirm scope

  -- Whether a refused login is the clock's fault, and a check-in is still to be had.
  unfoldable pub drift_recoverable : Recovery → Result Bytes → Ctx → Bool
  drift_recoverable flags (err auth_failed) c =
      flags.drift
      && c.last_error.http_status == 401
      && not flags.spent
      && not c.no_auto_checkin
      && not c.in_checkin
  drift_recoverable flags _ c = false

  abbrev pub acquire_again : Bytes → Bytes → Recovery → ℤ → Prog (Result Bytes)
  acquire_again passphrase scope flags now = do
    acquired ← acquire_token passphrase scope now (record flags { spent = true })
    return acquired.1

  abbrev pub after_recovery : Bytes → Bytes → Recovery → Result (Unit {0}) → Prog (Result Bytes)
  after_recovery passphrase scope flags (ok _) = do
    now ← auth_now
    acquire_again passphrase scope flags now
  after_recovery passphrase scope flags (err _) = do
    ctx ← get_ctx
    attempt (
        fail auth_failed 401 none (
          token_path
          ++ codes ": HTTP 401 with device clock drift; recovery check-in failed: "
          ++ ctx.last_error.message))

  -- The one retry behind a check-in. The result is that of the retry.
  unfoldable pub recover_drift : Bytes → Bytes → Recovery → Prog (Result Bytes)
  recover_drift passphrase scope flags = do
    c ← attempt (checkin_run true)
    after_recovery passphrase scope flags c

  -- The result, with a note where the proactive check-in failed and the login went through.
  unfoldable pub conclude : Bool → Result Bytes → Prog Bytes
  conclude proactive_failed (err rc) s = (err rc, s)
  conclude false (ok token) s = (ok token, s)
  conclude true (ok token) s =
      let e = record (s.ctx.last_error) {
        message = codes "checkin_on_login: best-effort check-in failed; login proceeded";
      } in
      (ok token, record s { ctx = record (s.ctx) { last_error = e } })

  abbrev pub retry_drift : Bytes → Bytes → Recovery × Result Bytes → Ctx → Prog (Result Bytes)
  retry_drift passphrase scope acquired ctx =
      if drift_recoverable acquired.0 acquired.1 ctx
      then recover_drift passphrase scope acquired.0
      else return acquired.1

  -- Behind the acquisition: the drift recovery, if it is called for, and the note.
  unfoldable pub settle : Bytes → Bytes → Bool → Recovery × Result Bytes → Prog Bytes
  settle passphrase scope failed acquired = do
    ctx ← get_ctx
    r ← retry_drift passphrase scope acquired ctx
    conclude failed r

  abbrev pub acquire_first : Bytes → Bytes → ℤ → Bool → Prog Bytes
  acquire_first passphrase scope now failed = do
    acquired ← acquire_token passphrase scope now (record { spent = false; drift = false })
    settle passphrase scope failed acquired

  unfoldable pub ensure_passphrase : Bytes → Bytes → ℤ → Prog Bytes
  ensure_passphrase passphrase scope now = do
    failed ← proactive_checkin
    acquire_first passphrase scope now failed

  abbrev pub with_passphrase : Bytes → ℤ → Option Bytes → Prog Bytes
  with_passphrase scope now (some passphrase) = ensure_passphrase passphrase scope now
  with_passphrase scope now none =
      fail auth_expired 0 none
        (codes "no credential retained for scope '" ++ scope ++ codes "' - call ehem_login()")

  -- No token is at hand.
  unfoldable pub ensure_missing :
      (Bytes → ℕ → Prog (Unit {0})) → Bytes → ℤ → Option Auth → Prog Bytes
  ensure_missing confirm scope now auth =
      if is_mobile auth
      then ensure_mobile confirm scope
      else with_passphrase scope now (passphrase_of auth)

  abbrev pub after_lookup :
      (Bytes → ℕ → Prog (Unit {0})) → Bytes → ℤ → Option Auth → Option Bytes → Prog Bytes
  after_lookup confirm scope now auth (some token) = return token
  after_lookup confirm scope now auth none = ensure_missing confirm scope now auth

  -- `ehem_auth_ensure_token`
  unfoldable pub ensure_token : (Bytes → ℕ → Prog (Unit {0})) → Bytes → Prog Bytes
  ensure_token confirm scope = do
    ctx ← get_ctx
    now ← auth_now
    after_lookup confirm scope now ctx.auth (cached_token ctx.auth scope now)

  -- The request path with its callbacks in place, as the bindings use it.
  abbrev pub bound_request_raw :
      (Bytes → ℕ → Prog (Unit {0}))
      → HttpMethod
      → Bytes
      → Option Bytes
      → Option Bytes
      → TlsReqOverride
      → Prog Bytes
  bound_request_raw confirm = request_raw (checkin_run true) (ensure_token confirm)
