-- ===== src/Token/Budget/Passphrase.antt =====
-- The requests of a session with a passphrase (src/proto_auth.c): the proactive check-in, the
-- acquisition, and the one recovery that both of its kinds share.
use encedo_hem_c_api.Prelude.{
  ℕ, ◌+◌, ◌≤◌, if◌then◌else◌, Bool, true, false, none, Bytes, ◌≡◌, refl, arith,
}
use encedo_hem_c_api.Prelude.Int.{ℤ}
use encedo_hem_c_api.Rc.{auth_failed}
use encedo_hem_c_api.Env.{Env, Result, ok, err}
use encedo_hem_c_api.Context.{Ctx}
use encedo_hem_c_api.Monad.{State, attempt, return, ◌>>=◌}
use encedo_hem_c_api.Request.Budget.{
  SendCount, Sends, Sends-bind, Sends-le, Sends-return, Sends-fail, Sends-if, Sends-attempt,
  Sends-get_ctx,
}
use encedo_hem_c_api.Request.Budget.Bound.{Sends-checkin_run}
use encedo_hem_c_api.Checkin.{checkin_run}
use encedo_hem_c_api.Token.{Recovery}
use encedo_hem_c_api.Token.Store.{auth_now}
use encedo_hem_c_api.Token.Ensure.{
  is_due, is_failed, best_effort_checkin, proactive_checkin, drift_recoverable, after_recovery,
  recover_drift, conclude, retry_drift, settle, ensure_passphrase,
}
use encedo_hem_c_api.Token.Budget.{LocalCount, Sends-outside}
use encedo_hem_c_api.Token.Budget.Left.{Leaves-spend}
use encedo_hem_c_api.Token.Budget.Recovery.{
  drift_left, acquired_left, Leaves-acquire_token, Sends-acquire_spent,
}

module _ ⦃E : Env⦄ (count : SendCount) (fits : ℕ → Type 0) (local : LocalCount count) where
  open count use {sends}
  open local use {now_none}

  pub Sends-auth_now : Sends count fits 0 auth_now
  Sends-auth_now = Sends-outside count fits local E.now now_none

  Sends-recover_drift :
      (passphrase scope : Bytes) (flags : Recovery)
      → Sends count fits 13 (recover_drift passphrase scope flags)
  unfolding recover_drift
  Sends-recover_drift passphrase scope flags =
      Sends-bind count fits (Sends-attempt count fits (Sends-checkin_run count fits true)) recovered
    where
      recovered :
          (c : Result (Unit {0})) → Sends count fits 10 (after_recovery passphrase scope flags c)
      recovered (ok u) = Sends-bind count fits Sends-auth_now λ now.
          Sends-bind count fits
            (Sends-acquire_spent count fits local passphrase scope now flags.drift)
            λ acquired. Sends-return count fits acquired.1
      recovered (err rc) =
          Sends-le count fits
            (Sends-bind count fits (Sends-get_ctx count fits)
              λ ctx. Sends-attempt count fits (Sends-fail count fits auth_failed 401 none _))
            (omega arith)

  Sends-conclude : (failed : Bool) (r : Result Bytes) → Sends count fits 0 (conclude failed r)
  unfolding conclude
  Sends-conclude failed (err rc) = record { bound = λ s h. (h, omega arith) }
  Sends-conclude false (ok token) = record { bound = λ s h. (h, omega arith) }
  Sends-conclude true (ok token) = record { bound = λ s h. (h, omega arith) }

  pub Sends-proactive_checkin : Sends count fits 3 proactive_checkin
  unfolding proactive_checkin
  Sends-proactive_checkin = record { bound = λ s h. latched (is_due s.ctx) s h }
    where
      run : Sends count fits 3 (do r ← attempt (checkin_run true); return (is_failed r))
      run =
          Sends-bind count fits (Sends-attempt count fits (Sends-checkin_run count fits true))
            λ r. Sends-return count fits (is_failed r)

      latched :
          (b : Bool) (s : State E.World)
          → fits s.ctx.confirm_timeout_ms
          → let r = (if b then best_effort_checkin s.ctx s else (ok false, s)) in
            fits r.1.ctx.confirm_timeout_ms × (sends r.1.world ≤ sends s.world + 3)
      latched true s h =
          run.bound (record s { ctx = record (s.ctx) { checkin_on_login_done = true } }) h
      latched false s h = (h, omega arith)

  drift_recoverable-spent :
      (drift : Bool) (r : Result Bytes) (c : Ctx)
      → drift_recoverable (record { spent = true; drift = drift }) r c ≡ false
  unfolding drift_recoverable
  drift_recoverable-spent drift (err auth_failed) c = grind arith
  drift_recoverable-spent drift r c = refl

  Sends-retry_drift :
      (passphrase scope : Bytes) (spent drift : Bool) (r : Result Bytes) (ctx : Ctx)
      → Sends count fits
          (drift_left spent)
          (retry_drift passphrase scope (record { spent = spent; drift = drift }, r) ctx)
  Sends-retry_drift passphrase scope true drift r ctx =
      rw (drift_recoverable-spent drift r ctx) (Sends-return count fits r)
  Sends-retry_drift passphrase scope false drift r ctx =
      Sends-if count fits (drift_recoverable (record { spent = false; drift = drift }) r ctx)
        (Sends-recover_drift passphrase scope (record { spent = false; drift = drift }))
        (Sends-le count fits (Sends-return count fits r) (omega arith))

  Sends-settle :
      (passphrase scope : Bytes) (failed : Bool) (acquired : Recovery × Result Bytes)
      → Sends count fits (acquired_left acquired) (settle passphrase scope failed acquired)
  unfolding settle
  Sends-settle passphrase scope failed (flags, r) =
      Sends-le count fits
        (Sends-bind count fits (Sends-get_ctx count fits) λ ctx.
          Sends-bind count fits (Sends-retry_drift passphrase scope flags.spent flags.drift r ctx)
            λ result. Sends-conclude failed result)
        (omega arith)

  pub Sends-ensure_passphrase :
      (passphrase scope : Bytes) (now : ℤ)
      → Sends count fits 26 (ensure_passphrase passphrase scope now)
  unfolding ensure_passphrase
  Sends-ensure_passphrase passphrase scope now =
      Sends-bind count fits Sends-proactive_checkin λ failed.
        Leaves-spend count fits (Leaves-acquire_token count fits local passphrase scope now false)
          (Sends-settle passphrase scope failed)
