-- ===== src/Global/Tests.antt =====
-- Init and cleanup of a library that is not initialised yet.
use encedo_hem_c_api.Prelude.{true, false, ◌≡◌, refl, ◌⊎◌}
use encedo_hem_c_api.Rc.{Rc}
use encedo_hem_c_api.Env.{ok, err}
use encedo_hem_c_api.Global.{global_init, global_cleanup}
use encedo_hem_c_api.Global.Outcome.{IsUndone, global_init-again, global_cleanup-again}
use encedo_hem_c_api.Fixture.{test_env, start, test_ctx}

init_ready : (global_init start).1.global_ready ≡ true
unfolding global_init
init_ready = refl

global_init-again_example :
    ((global_init start).1.ctx ≡ test_ctx)
    × ((((global_init start).0 ≡ ok tt) × (global_init (global_init start).1 ≡ global_init start))
        ⊎ ((rc : Rc) × ((global_init start).0 ≡ err rc)
            × ((global_init start).1.global_ready ≡ false)
            × IsUndone rc start.world (global_init start).1.world))
global_init-again_example = global_init-again start

global_cleanup-again_example :
    ((global_cleanup (global_init start).1).1.global_ready ≡ false)
    × (global_cleanup (global_cleanup (global_init start).1).1
        ≡ global_cleanup (global_init start).1)
global_cleanup-again_example = global_cleanup-again (global_init start).1
