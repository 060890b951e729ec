-- ===== src/Global.antt =====
-- src/context.c, the process-wide init and cleanup of the backends.
pub mod Outcome
mod Tests
use encedo_hem_c_api.Prelude.{Bool, true, false, if◌then◌else◌}
use encedo_hem_c_api.Rc.{Rc, ok_rc}
use encedo_hem_c_api.Env.{Env, Result, ok, err}
use encedo_hem_c_api.Monad.{State, Prog, outside, return, throw, ◌>>=◌, ◌>>◌}

-- `if (rc != EHEM_OK) return rc;`
abbrev pub checked : Rc → Result (Unit {0})
checked ok_rc = ok tt
checked rc = err rc

module _ ⦃E : Env⦄ where
  abbrev effect : (E.World → E.World) → Prog (Unit {0})
  effect f s = (ok tt, record s { world = f s.world })

  abbrev set_ready : Bool → Prog (Unit {0})
  set_ready b s = (ok tt, record s { global_ready = b })

  abbrev pub after_transport_init : Result (Unit {0}) → Prog (Unit {0})
  after_transport_init (err rc) = do effect E.crypto_backend_cleanup; throw rc
  after_transport_init (ok _) = set_ready true

  abbrev pub after_crypto_init : Result (Unit {0}) → Prog (Unit {0})
  after_crypto_init (err rc) = throw rc
  after_crypto_init (ok _) = do
    rc ← outside E.transport_backend_init
    after_transport_init (checked rc)

  abbrev pub init_backends : Prog (Unit {0})
  init_backends = do rc ← outside E.crypto_backend_init; after_crypto_init (checked rc)

  unfoldable pub global_init : Prog (Unit {0})
  global_init s = if s.global_ready then (ok tt, s) else init_backends s

  unfoldable pub global_cleanup : Prog (Unit {0})
  global_cleanup s =
      if s.global_ready
      then (do effect E.transport_backend_cleanup; effect E.crypto_backend_cleanup; set_ready false)
          s
      else (ok tt, s)
