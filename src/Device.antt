-- ===== src/Device.antt =====
-- The request path of src/proto_common.c as the bindings use it: with the check-in, the token
-- acquisition and the push confirmation in their places, and the context's own TLS policy.
use encedo_hem_c_api.Prelude.{true, Option, Bytes}
use encedo_hem_c_api.Env.{Env, HttpMethod, default}
use encedo_hem_c_api.Request.{request_json}
use encedo_hem_c_api.Checkin.{checkin_run}
use encedo_hem_c_api.Token.Ensure.{ensure_token, bound_request_raw}
use encedo_hem_c_api.Confirm.{push_confirm, confirm_poll_interval}
use encedo_hem_c_api.Monad.{Prog}

module _ ⦃E : Env⦄ where
  unfoldable pub device_raw : HttpMethod → Bytes → Option Bytes → Option Bytes → Prog Bytes
  device_raw method path json_body scope =
      bound_request_raw (push_confirm confirm_poll_interval) method path json_body scope default

  unfoldable pub device_json : HttpMethod → Bytes → Option Bytes → Option Bytes → Prog E.Node
  device_json method path json_body scope =
      request_json (checkin_run true) (ensure_token (push_confirm confirm_poll_interval)) method
        path json_body scope default
