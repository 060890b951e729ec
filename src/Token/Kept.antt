-- ===== src/Token/Kept.antt =====
-- `ehem_auth_ensure_token` of src/proto_auth.c: what it gives out is what the cache holds.
use encedo_hem_c_api.Prelude.{
  ℕ, Bool, true, false, Option, none, some, Bytes, ◌≡◌, refl, arith, inl, inr, Option-cases,
  if◌then◌else◌,
}
use encedo_hem_c_api.Prelude.Int.{ℤ}
use encedo_hem_c_api.Rc.{auth_failed}
use encedo_hem_c_api.Env.{Env, Result, ok, err}
use encedo_hem_c_api.Context.{Ctx, Auth}
use encedo_hem_c_api.Cache.{find}
use encedo_hem_c_api.Checkin.{checkin_run}
use encedo_hem_c_api.Monad.{State, Prog, attempt, return}
use encedo_hem_c_api.Session.{is_mobile}
use encedo_hem_c_api.Token.{cached, cached_token, passphrase_of, Recovery}
use encedo_hem_c_api.Token.Store.{auth_now}
use encedo_hem_c_api.Token.Ensure.{
  proactive_checkin, from_cache, read_cache, confirm_and_read, acquire_again, retry_drift,
  ensure_mobile, drift_recoverable, after_recovery, recover_drift, conclude, settle, acquire_first,
  ensure_passphrase, with_passphrase, ensure_missing, after_lookup, ensure_token,
}
use encedo_hem_c_api.Monad.Post.{
  OnOk, Post, Gives, Gives-fail, Gives-if, Gives-bind, Gives-bind_with, after_given, post-ok,
}
use encedo_hem_c_api.Token.Settled.{IsCached, IsSettled, InPair, acquire_token-Gives}

cached_token-cached :
    (auth : Option Auth) (scope token : Bytes) (now : ℤ)
    → cached_token auth scope now ≡ some token
    → cached auth scope ≡ some token
unfolding cached_token
cached_token-cached none scope token now h = h
cached_token-cached (some a) scope token now h = elim (Option-cases (find a.cache scope)) [
  | inl gone ↦ ground arith
  | inr (e, there) ↦ ground arith
]

module _ ⦃E : Env⦄ (scope : Bytes) where
  from_cache-IsCached :
      (o : Option Bytes) (s : State E.World)
      → cached s.ctx.auth scope ≡ o
      → Post (IsCached scope) (from_cache scope o s)
  from_cache-IsCached (some token) s h = h
  from_cache-IsCached none s h = (Gives-fail (IsCached scope) _ 0 none _).holds s

  ensure_mobile-IsCached :
      (confirm : Bytes → ℕ → Prog (Unit {0})) → Gives (IsCached scope) (ensure_mobile confirm scope)
  unfolding ensure_mobile
  ensure_mobile-IsCached confirm =
      let P = IsCached scope in
      Gives-bind P proactive_checkin (λ _. confirm_and_read confirm scope)
        λ _. record {
          holds = λ s.
              (Gives-bind P (confirm scope s.ctx.confirm_timeout_ms) (λ _. read_cache scope)
                  λ _. record {
                    holds = λ s'. from_cache-IsCached (cached s'.ctx.auth scope) s' refl;
                  }).holds
                s;
        }

  loosen :
      (r : Recovery × Result Bytes) (c : Ctx)
      → InPair (IsSettled scope) r c
      → OnOk (IsCached scope) r.1 c
  loosen (f, ok token) c h = h.0
  loosen (f, err rc) c h = tt

  recover_drift-IsCached :
      (passphrase : Bytes) (flags : Recovery)
      → Gives (OnOk (IsCached scope)) (recover_drift passphrase scope flags)
  unfolding recover_drift
  recover_drift-IsCached passphrase flags =
      Gives-bind (OnOk (IsCached scope)) (attempt (checkin_run true))
        (after_recovery passphrase scope flags) recovered
    where
      recovered :
          (r : Result (Unit {0}))
          → Gives (OnOk (IsCached scope)) (after_recovery passphrase scope flags r)
      recovered (ok _) =
          let P = OnOk (IsCached scope) in
          Gives-bind P auth_now (acquire_again passphrase scope flags) λ now.
            Gives-bind_with P (λ acquired. return acquired.1)
              (acquire_token-Gives passphrase scope now (record flags { spent = true }))
              λ r s h. loosen r s.ctx h
      recovered (err _) = record {
        holds = λ s. (Gives-fail (IsCached scope) auth_failed 401 none _).holds s;
      }

  conclude-IsCached :
      (failed : Bool) (r : Result Bytes) (s : State E.World)
      → OnOk (IsCached scope) r s.ctx
      → Post (IsCached scope) (conclude failed r s)
  unfolding conclude
  conclude-IsCached failed (err rc) s h = tt
  conclude-IsCached false (ok token) s h = h
  conclude-IsCached true (ok token) s h = h

  retry_drift-IsCached :
      (passphrase : Bytes) (acquired : Recovery × Result Bytes) (s : State E.World) (b : Bool)
      → OnOk (IsCached scope) acquired.1 s.ctx
      → Post
          (OnOk (IsCached scope))
          ((if b then recover_drift passphrase scope acquired.0 else return acquired.1) s)
  retry_drift-IsCached passphrase acquired s true h =
      (recover_drift-IsCached passphrase acquired.0).holds s
  retry_drift-IsCached passphrase acquired s false h = h

  settle-IsCached :
      (passphrase : Bytes) (failed : Bool) (acquired : Recovery × Result Bytes) (s : State E.World)
      → InPair (IsSettled scope) acquired s.ctx
      → Post (IsCached scope) (settle passphrase scope failed acquired s)
  unfolding settle
  settle-IsCached passphrase failed acquired s h =
      after_given (IsCached scope) (OnOk (IsCached scope))
        (retry_drift passphrase scope acquired s.ctx s) (conclude failed)
        (retry_drift-IsCached passphrase acquired s (drift_recoverable acquired.0 acquired.1 s.ctx)
          (loosen acquired s.ctx h))
        λ r s' k. conclude-IsCached failed r s' k

  ensure_passphrase-IsCached :
      (passphrase : Bytes) (now : ℤ)
      → Gives (IsCached scope) (ensure_passphrase passphrase scope now)
  unfolding ensure_passphrase
  ensure_passphrase-IsCached passphrase now =
      let P = IsCached scope in
      Gives-bind P proactive_checkin (acquire_first passphrase scope now) λ failed.
        Gives-bind_with P (settle passphrase scope failed)
          (acquire_token-Gives passphrase scope now (record { spent = false; drift = false }))
          λ acquired s h. settle-IsCached passphrase failed acquired s h

  after_lookup-IsCached :
      (confirm : Bytes → ℕ → Prog (Unit {0})) (now : ℤ) (auth : Option Auth) (o : Option Bytes)
      (s : State E.World)
      → s.ctx.auth ≡ auth
      → cached_token auth scope now ≡ o
      → Post (IsCached scope) (after_lookup confirm scope now auth o s)
  after_lookup-IsCached confirm now auth (some token) s e h =
      rw e (cached_token-cached auth scope token now h)
  after_lookup-IsCached confirm now auth none s e h =
      unfold ensure_missing in
      (Gives-if (IsCached scope) (is_mobile auth) (ensure_mobile-IsCached confirm)
          (with_it (passphrase_of auth))).holds
        s
    where
      with_it : (o : Option Bytes) → Gives (IsCached scope) (with_passphrase scope now o)
      with_it (some passphrase) = ensure_passphrase-IsCached passphrase now
      with_it none = Gives-fail (IsCached scope) _ 0 none _

module _ ⦃E : Env⦄ where
  -- Whenever a token is given out, for whatever scope and by whatever way (the cache, a
  -- confirmation on the phone, a login with or without recovery), the cache holds that token under
  -- that scope.
  pub ensure_token-IsCached :
      (confirm : Bytes → ℕ → Prog (Unit {0})) (scope token : Bytes) (s s' : State E.World)
      → ensure_token confirm scope s ≡ (ok token, s')
      → cached s'.ctx.auth scope ≡ some token
  unfolding ensure_token
  ensure_token-IsCached confirm scope token s s' h =
      let (now, w) = E.now s.world in
      post-ok (IsCached scope) (ensure_token confirm scope s) token s'
        (after_lookup-IsCached scope confirm now s.ctx.auth _ (record s { world = w }) refl refl) h
