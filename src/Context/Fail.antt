-- ===== src/Context/Fail.antt =====
-- src/context.c, the last error.
use encedo_hem_c_api.Prelude.{
  ℕ, ◌-◌, Bool, false, Option, none, some, Bytes, take, c_string, if◌then◌else◌,
}
use encedo_hem_c_api.Rc.{Rc}
use encedo_hem_c_api.Env.{Env}
use encedo_hem_c_api.Context.{err_msg_max}
use encedo_hem_c_api.Monad.{Prog, throw, get_ctx, put_ctx, alloc, ◌>>=◌, ◌>>◌, return}

module _ ⦃E : Env⦄ where
  -- The payload is copied; where there is no memory it stays NULL and the rest still stands.
  unfoldable pub copy_payload : Option Bytes → Prog (Option Bytes)
  copy_payload none = return none
  copy_payload (some payload) = do
    room ← alloc
    return (if room then some (c_string payload) else none)

  -- `ehem_ctx_fail` on a context: records the failure, and gives `rc` back. The message is cut
  -- off at the size of its buffer.
  unfoldable pub fail : {A : Type 0} → Rc → ℕ → Option Bytes → Bytes → Prog A
  unfolding copy_payload
  fail rc http_status device_payload message = do
    copy ← copy_payload device_payload
    ctx ← get_ctx
    put_ctx (record ctx {
      last_error = record {
        http_status = http_status;
        device_payload = copy;
        message = take (err_msg_max - 1) message;
        tls_expired = false;
      };
    })
    throw rc

  -- `ctx->last_error.tls_expired = expired; return rc;` behind a failure.
  unfoldable pub mark_expired : {A : Type 0} → Bool → Prog A → Prog A
  mark_expired expired m s =
      let (r, s') = m s in
      let e = record (s'.ctx.last_error) { tls_expired = expired } in
      (r, record s' { ctx = record (s'.ctx) { last_error = e } })
