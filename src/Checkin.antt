-- ===== src/Checkin.antt =====
-- src/proto_system.c, the three legs of the check-in. Inside it nothing recovers by a check-in,
-- and its requests carry no scope; so the path it uses has no callbacks.
pub mod Frame
mod Tests
use encedo_hem_c_api.Prelude.{Bool, true, false, none, some, Bytes, codes}
use encedo_hem_c_api.Rc.{arg}
use encedo_hem_c_api.Env.{Env, Result, ok, err, get, post, TlsReqOverride, default, relax, verify}
use encedo_hem_c_api.Request.{request_raw, request_json}
use encedo_hem_c_api.Monad.{Prog, attempt, get_ctx, put_ctx, return, throw, ◌>>=◌, ◌>>◌}

abbrev pub checkin_path : Bytes
checkin_path = codes "/api/system/checkin"

abbrev pub device_override : Bool → TlsReqOverride
device_override true = relax
device_override false = default

module _ ⦃E : Env⦄ where
  -- Where the C code would call itself again, which `in_checkin` and the NULL scope rule out.
  abbrev pub no_checkin : Prog (Unit {0})
  no_checkin = throw arg

  abbrev pub no_ensure : Bytes → Prog Bytes
  no_ensure scope = throw arg

  unfoldable pub set_in_checkin : Bool → Prog (Unit {0})
  set_in_checkin b = do ctx ← get_ctx; put_ctx (record ctx { in_checkin = b })

  -- The legs: the device's challenge, its relay to the cloud, and the cloud's answer to the device.
  unfoldable pub checkin_legs : Bool → Prog E.Node
  checkin_legs relax_device_tls = do
    challenge ←
        request_raw no_checkin no_ensure get checkin_path none none
          (device_override relax_device_tls)
    ctx ← get_ctx
    verified ← request_raw no_checkin no_ensure post ctx.checkin_url (some challenge) none verify
    request_json no_checkin no_ensure post checkin_path (some verified) none
        (device_override relax_device_tls)

  abbrev pub outcome : Result E.Node → Prog (Unit {0})
  outcome (ok root) = return tt
  outcome (err rc) = throw rc

  -- `ehem_checkin_run` with a NULL `out`.
  unfoldable pub checkin_run : Bool → Prog (Unit {0})
  unfolding set_in_checkin
  checkin_run relax_device_tls = do
    set_in_checkin true
    r ← attempt (checkin_legs relax_device_tls)
    set_in_checkin false
    outcome r
