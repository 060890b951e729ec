-- ===== src/Checkin/Frame.antt =====
-- What a check-in (src/proto_system.c) leaves behind in the context.
use encedo_hem_c_api.Prelude.{Bool, true, false, none, some, ◌≡◌, refl, ap}
use encedo_hem_c_api.Env.{Env, Result, ok, err, get, post, verify}
use encedo_hem_c_api.Context.{Ctx}
use encedo_hem_c_api.Monad.{State, get_ctx}
use encedo_hem_c_api.Request.Guard.{
  IsQuiet, IsQuiet-bind, IsQuiet-request_raw, IsQuiet-request_json,
}
use encedo_hem_c_api.Checkin.{
  checkin_legs, checkin_run, outcome, no_checkin, no_ensure, checkin_path, device_override,
}

module _ ⦃E : Env⦄ where
  IsQuiet-get_ctx : IsQuiet get_ctx
  IsQuiet-get_ctx = record { framed = λ s h. refl }

  IsQuiet-checkin_legs : (b : Bool) → IsQuiet (checkin_legs b)
  unfolding checkin_legs
  IsQuiet-checkin_legs b =
      IsQuiet-bind
        (IsQuiet-request_raw no_checkin no_ensure get checkin_path none (device_override b))
        λ challenge. IsQuiet-bind IsQuiet-get_ctx λ ctx.
          IsQuiet-bind
            (IsQuiet-request_raw no_checkin no_ensure post ctx.checkin_url (some challenge) verify)
            λ verified.
              IsQuiet-request_json no_checkin no_ensure post checkin_path (some verified)
                (device_override b)

  outcome-state : (r : Result E.Node) (s : State E.World) → (outcome r s).1 ≡ s
  outcome-state (ok root) s = refl
  outcome-state (err rc) s = refl

  -- However a check-in ends, it is over: the guard is down again, and nothing else of the context
  -- has changed but the last error. The session, its tokens and the certificate flag are as before.
  pub checkin_run-ctx :
      (b : Bool) (s : State E.World)
      → (checkin_run b s).1.ctx
        ≡ record (s.ctx) { in_checkin = false; last_error = (checkin_run b s).1.ctx.last_error }
  unfolding checkin_run
  checkin_run-ctx b s =
      let raised = record s { ctx = record (s.ctx) { in_checkin = true } } in
      let legs = checkin_legs b raised in
      rw outcome-state (
        ap (λ (c : Ctx). record c { in_checkin = false })
          ((IsQuiet-checkin_legs b).framed raised refl))
