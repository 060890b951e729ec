-- ===== src/Token/Budget/Ensure.antt =====
-- The requests that a token costs, `ehem_auth_ensure_token` of src/proto_auth.c, in both modes of a
-- session.
use encedo_hem_c_api.Prelude.{
  ℕ, ◌+◌, ◌*◌, ◌<◌, ◌≤◌, if◌then◌else◌, Bool, true, false, Option, none, some, Bytes, arith,
}
use encedo_hem_c_api.Prelude.Int.{ℤ}
use encedo_hem_c_api.Rc.{protocol, auth_expired}
use encedo_hem_c_api.Env.{Env, HttpMethod, TlsReqOverride}
use encedo_hem_c_api.Context.{Auth}
use encedo_hem_c_api.Session.{is_mobile}
use encedo_hem_c_api.Monad.{State, Prog}
use encedo_hem_c_api.Request.Budget.{
  SendCount, Sends, Sends-bind, Sends-le, Sends-return, Sends-fail, Sends-get_ctx,
}
use encedo_hem_c_api.Request.Budget.Bound.{Sends-request, Sends-request_plain}
use encedo_hem_c_api.Confirm.{push_confirm}
use encedo_hem_c_api.Confirm.Wait.{Sends-push_confirm}
use encedo_hem_c_api.Token.{cached, cached_token, passphrase_of}
use encedo_hem_c_api.Token.Ensure.{
  from_cache, confirm_and_read, ensure_mobile, with_passphrase, ensure_missing, after_lookup,
  ensure_token, bound_request_raw,
}
use encedo_hem_c_api.Token.Budget.{LocalCount}
use encedo_hem_c_api.Token.Budget.Passphrase.{
  Sends-auth_now, Sends-proactive_checkin, Sends-ensure_passphrase,
}

-- What a token costs at most, by the session's mode, where a confirmation costs at most `k`.
abbrev token_cost : ℕ → Bool → ℕ
token_cost k true = 3 + k
token_cost k false = 26

token_cost-le : (k : ℕ) (b : Bool) → 23 ≤ k → token_cost k b ≤ 3 + k
token_cost-le k true h = omega arith
token_cost-le k false h = omega (arith, h)

module _ ⦃E : Env⦄ (count : SendCount) (fits : ℕ → Type 0) (local : LocalCount count) where
  open count use {sends}

  -- The way to a token, where a confirmation with a timeout that fits makes at most `k` requests.
  module _ (confirm : Bytes → ℕ → Prog (Unit {0})) (scope : Bytes) (k : ℕ)
      (confirm_bound : (timeout : ℕ)
        → fits timeout
        → Sends count fits k (confirm scope timeout)) where
    Sends-from_cache : (token : Option Bytes) → Sends count fits 0 (from_cache scope token)
    Sends-from_cache (some token) = Sends-return count fits token
    Sends-from_cache none = Sends-fail count fits protocol 0 none _

    Sends-confirm_and_read : Sends count fits k (confirm_and_read confirm scope)
    Sends-confirm_and_read = record {
      bound = λ s h.
          (Sends-le count fits
              (Sends-bind count fits (confirm_bound s.ctx.confirm_timeout_ms h) λ u.
                Sends-bind count fits (Sends-get_ctx count fits)
                  λ c. Sends-from_cache (cached c.auth scope))
              (omega arith)).bound
            s h;
    }

    Sends-ensure_mobile : Sends count fits (3 + k) (ensure_mobile confirm scope)
    unfolding ensure_mobile
    Sends-ensure_mobile =
        Sends-bind count fits (Sends-proactive_checkin count fits local)
          λ failed. Sends-confirm_and_read

    Sends-with_passphrase :
        (now : ℤ) (p : Option Bytes) → Sends count fits 26 (with_passphrase scope now p)
    Sends-with_passphrase now (some passphrase) =
        Sends-ensure_passphrase count fits local passphrase scope now
    Sends-with_passphrase now none =
        Sends-le count fits (Sends-fail count fits auth_expired 0 none _) (omega arith)

    Sends-by_mode :
        (b : Bool) (now : ℤ) (p : Option Bytes)
        → Sends count fits
            (token_cost k b)
            (if b then ensure_mobile confirm scope else with_passphrase scope now p)
    Sends-by_mode true now p = Sends-ensure_mobile
    Sends-by_mode false now p = Sends-with_passphrase now p

    Sends-after_lookup :
        (now : ℤ) (auth : Option Auth) (token : Option Bytes)
        → Sends count fits
            (token_cost k (is_mobile auth))
            (after_lookup confirm scope now auth token)
    unfolding ensure_missing
    Sends-after_lookup now auth (some token) =
        Sends-le count fits (Sends-return count fits token) (omega arith)
    Sends-after_lookup now auth none = Sends-by_mode (is_mobile auth) now (passphrase_of auth)

    -- The cost by the mode of the session that the call meets.
    ensure_token-bound :
        (s : State E.World)
        → fits s.ctx.confirm_timeout_ms
        → fits (ensure_token confirm scope s).1.ctx.confirm_timeout_ms
          × (sends (ensure_token confirm scope s).1.world
              ≤ sends s.world + token_cost k (is_mobile s.ctx.auth))
    unfolding ensure_token
    ensure_token-bound s h =
        (Sends-le count fits
            (Sends-bind count fits (Sends-auth_now count fits local)
              λ now. Sends-after_lookup now s.ctx.auth (cached_token s.ctx.auth scope now))
            (omega arith)).bound
          s h

    Sends-ensure_token : 23 ≤ k → Sends count fits (3 + k) (ensure_token confirm scope)
    Sends-ensure_token enough = record {
      bound = λ s h.
          let (t, n) = ensure_token-bound s h in
          (t, omega (arith, n, token_cost-le k (is_mobile s.ctx.auth) enough));
    }

module _ ⦃E : Env⦄ (count : SendCount) (local : LocalCount count) where
  open count use {sends}

  -- One call of `ehem_auth_ensure_token`, with the confirmation that the code runs, makes at most 26
  -- transport requests in a session with a passphrase, and at most 50 + n in a mobile one, where n
  -- polling intervals cover the context's timeout of a confirmation, whatever the device and the
  -- broker answer and however the call ends. The 26 are 3 for the proactive check-in, 3 for the one
  -- recovery check-in, and two acquisitions of 10: the recovery of a refused challenge and that of a
  -- drifting clock share the check-in, so they compose and do not multiply. The 50 + n are the
  -- proactive check-in and a whole confirmation. Only the transport's send advances the count, and
  -- that by at most one a call.
  pub ensure_token-sends :
      (interval n : ℕ) (scope : Bytes) (s : State E.World)
      → 0 < interval
      → s.ctx.confirm_timeout_ms ≤ n * interval
      → sends (ensure_token (push_confirm interval) scope s).1.world
        ≤ sends s.world + (if is_mobile s.ctx.auth then 50 + n else 26)
  ensure_token-sends interval n scope s positive bounded =
      let fits = λ (t : ℕ). t ≤ n * interval in
      let all =
        ensure_token-bound count fits local (push_confirm interval) scope (47 + n)
          (λ timeout h. Sends-push_confirm count fits local interval timeout n scope positive h) s
          bounded in
      by_mode (is_mobile s.ctx.auth) all.1
    where
      by_mode :
          (b : Bool) {m : ℕ}
          → m ≤ sends s.world + token_cost (47 + n) b
          → m ≤ sends s.world + (if b then 50 + n else 26)
      by_mode true h = omega (arith, h)
      by_mode false h = h

  -- One request of a binding, with the recoveries of the request path and of the login in place and
  -- the confirmation that the code runs, makes at most 5 transport requests without a scope, and at
  -- most 106 + 2 n with one, where n polling intervals cover the context's timeout of a confirmation,
  -- whatever the device and the broker answer and however the call ends. Only the transport's send
  -- advances the count, and that by at most one a call.
  pub bound_request_raw-sends :
      (interval n : ℕ) (method : HttpMethod) (path scope : Bytes) (body : Option Bytes)
      (tls : TlsReqOverride) (s : State E.World)
      → 0 < interval
      → s.ctx.confirm_timeout_ms ≤ n * interval
      → (sends (bound_request_raw (push_confirm interval) method path body none tls s).1.world
          ≤ sends s.world + 5)
        × (sends
              (bound_request_raw
                (push_confirm interval)
                method
                path
                body
                (some scope)
                tls
                s).1.world
            ≤ sends s.world + (106 + 2 * n))
  bound_request_raw-sends interval n method path scope body tls s positive bounded =
      let fits = λ (t : ℕ). t ≤ n * interval in
      let ensured =
        Sends-ensure_token count fits local (push_confirm interval) scope (47 + n)
          (λ timeout h. Sends-push_confirm count fits local interval timeout n scope positive h)
          (omega arith) in
      let ensure = ensure_token (push_confirm interval) in
      let scoped =
        (Sends-request count fits ensure method path body tls scope ensured).bound s bounded in
      (
        ((Sends-request_plain count fits ensure method path body tls).bound s bounded).1,
        omega (arith, scoped.1),
      )
