-- ===== src/Global/Outcome.antt =====
-- The process-wide init and cleanup of src/context.c, called again and again.
use encedo_hem_c_api.Prelude.{false, ◌≡◌, refl, ◌⊎◌, inl, inr, arith, Bool-cases}
use encedo_hem_c_api.Rc.{Rc}
use encedo_hem_c_api.Env.{Env, Result, ok, err}
use encedo_hem_c_api.Global.{global_init, global_cleanup, checked}
use encedo_hem_c_api.Monad.{State}

result-cases : (r : Result (Unit {0})) → (r ≡ ok tt) ⊎ ((rc : Rc) × (r ≡ err rc))
result-cases (ok u) = inl refl
result-cases (err rc) = inr (rc, refl)

module _ ⦃E : Env⦄ where
  -- What a failed init has done outside: the crypto backend has refused, and nothing more was called,
  -- or the transport backend has, and the crypto backend was released again.
  abbrev pub IsUndone : Rc → E.World → E.World → Type 0
  IsUndone rc before after =
      let first = E.crypto_backend_init before in
      let second = E.transport_backend_init first.1 in
      ((checked first.0 ≡ err rc) × (after ≡ first.1))
      ⊎ ((checked first.0 ≡ ok tt)
          × (checked second.0 ≡ err rc)
          × (after ≡ E.crypto_backend_cleanup second.1))

  -- An init that succeeds is done: a second one changes nothing at all. One that fails reports the
  -- backend that refused, leaves the library marked as uninitialised, so that the next call starts
  -- anew, and has released the crypto backend if it was the transport backend that refused; where it
  -- was the crypto backend, nothing more has been called. Neither touches the context.
  pub global_init-again :
      (s : State E.World)
      → ((global_init s).1.ctx ≡ s.ctx)
        × ((((global_init s).0 ≡ ok tt) × (global_init (global_init s).1 ≡ global_init s))
            ⊎ ((rc : Rc) × ((global_init s).0 ≡ err rc)
                × ((global_init s).1.global_ready ≡ false)
                × IsUndone rc s.world (global_init s).1.world))
  unfolding global_init
  global_init-again s = elim (Bool-cases s.global_ready) [
    | inl up ↦ (ground arith, inl (ground arith, ground arith))
    | inr down ↦ elim (result-cases (checked (E.crypto_backend_init s.world).0)) [
      | inr (rc, failed) ↦
          (ground arith, inr (rc, ground arith, ground arith, inl (failed, ground arith)))
      | inl first ↦
          let w = (E.crypto_backend_init s.world).1 in
          elim (result-cases (checked (E.transport_backend_init w).0)) [
            | inr (rc, failed) ↦ (
              ground arith,
              inr (rc, ground arith, ground arith, inr (first, failed, ground arith)),
            )
            | inl second ↦ (ground arith, inl (ground arith, ground arith))
          ]
    ]
  ]

  -- A cleanup leaves the library uninitialised, and a second one changes nothing at all.
  pub global_cleanup-again :
      (s : State E.World)
      → ((global_cleanup s).1.global_ready ≡ false)
        × (global_cleanup (global_cleanup s).1 ≡ global_cleanup s)
  unfolding global_cleanup
  global_cleanup-again s = ground arith
