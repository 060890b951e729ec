-- ===== src/Confirm/Budget.antt =====
-- How many requests a confirmation makes, from the push to its end (src/proto_ext.c).
use encedo_hem_c_api.Prelude.{ℕ, Bool, true, false, Option, none, some, Bytes, codes, arith}
use encedo_hem_c_api.Prelude.Int.{ℤ, pos, ◌-ℤ◌}
use encedo_hem_c_api.Env.{Env, Result, ok, err}
use encedo_hem_c_api.Context.{Ctx}
use encedo_hem_c_api.Json.{json_get_int64}
use encedo_hem_c_api.Monad.{Prog, return}
use encedo_hem_c_api.Request.Budget.{
  SendCount, Sends, Sends-bind, Sends-le, Sends-return, Sends-throw, Sends-attempt, Sends-get_ctx,
  Sends-test,
}
use encedo_hem_c_api.Request.Budget.Bound.{Sends-checkin_run, Sends-parse}
use encedo_hem_c_api.Token.{decoded_payload}
use encedo_hem_c_api.Token.Budget.{LocalCount, Sends-alloc, Sends-outside}
use encedo_hem_c_api.Binding.Budget.{Sends-dup_str, Sends-or_nomem}
use encedo_hem_c_api.Notify.Budget.{Sends-notify_session, Sends-notify_event_new}
use encedo_hem_c_api.Ext.{RequestInfo}
use encedo_hem_c_api.Ext.Budget.{Sends-ext_request}
use encedo_hem_c_api.Binding.{dup_optional}
use encedo_hem_c_api.Confirm.{
  Pushed, claim_in, peek_jwt_iat, push_event, push_request, confirm_fire_push, is_drift, drift_of,
  drift_evidence, after_resync, resync, is_refused, inspect, recover_push, call_notice, begun,
  confirm_begin,
}

module _ ⦃E : Env⦄ (count : SendCount) (fits : ℕ → Type 0) (local : LocalCount count) where
  open count use {sends}
  open local use {now_none, wall_none, notice_none}

  Sends-fire_push :
      (notify_url : Option Bytes) (scope : Bytes) (ctx_str note_text : Option Bytes)
      → Sends count fits 15 (confirm_fire_push notify_url scope ctx_str note_text)
  unfolding confirm_fire_push
  Sends-fire_push notify_url scope ctx_str note_text =
      Sends-bind count fits
        (Sends-attempt count fits (Sends-notify_session count fits local notify_url)) requested
    where
      pushed : (r : Result RequestInfo) → Sends count fits 1 (push_event notify_url r)
      pushed (err rc) = Sends-le count fits (Sends-return count fits (none, err rc)) (omega arith)
      pushed (ok reqi) =
          Sends-bind count fits
            (Sends-attempt count fits
              (Sends-notify_event_new count fits local notify_url reqi.authreq reqi.epk))
            λ e. Sends-return count fits (some reqi, e)

      requested :
          (r : Result Bytes)
          → Sends count fits 14 (push_request notify_url scope ctx_str note_text r)
      requested (err rc) =
          Sends-le count fits (Sends-return count fits (none, err rc)) (omega arith)
      requested (ok epk) =
          Sends-bind count fits
            (Sends-attempt count fits
              (Sends-ext_request count fits local epk scope ctx_str note_text))
            pushed

  Sends-evidence : (reqi : RequestInfo) → Sends count fits 0 (drift_evidence reqi)
  unfolding peek_jwt_iat
  Sends-evidence reqi = Sends-bind count fits (claimed (decoded_payload reqi.authreq)) measured
    where
      claimed : (raw : Option Bytes) → Sends count fits 0 (claim_in raw)
      claimed none = Sends-return count fits none
      claimed (some raw) =
          Sends-bind count fits (Sends-parse count fits raw)
            λ payload. Sends-return count fits (json_get_int64 payload (some (codes "iat")))

      measured : (iat : Option ℤ) → Sends count fits 0 (drift_of iat)
      measured none = Sends-return count fits (is_drift (pos 0))
      measured (some iat) =
          Sends-bind count fits (Sends-outside count fits local E.wall_time wall_none)
            λ now. Sends-return count fits (is_drift (iat -ℤ now))

  Sends-recover_push :
      {again : Prog Pushed}
      → Sends count fits 15 again
      → (pushed : Pushed) → Sends count fits 18 (recover_push again pushed)
  unfolding recover_push
  Sends-recover_push h (none, e) = record { bound = λ s h. (h, omega arith) }
  Sends-recover_push h (some reqi, ok eventid) = record { bound = λ s h. (h, omega arith) }
  Sends-recover_push {again = again} h (some reqi, err rc) =
      Sends-test count fits (λ s. is_refused s.ctx) (λ s. inspect again reqi rc)
        (λ s. return (some reqi, err rc))
        (λ s. Sends-bind count fits (Sends-evidence reqi) resynced)
        (λ s. Sends-le count fits (Sends-return count fits (some reqi, err rc)) (omega arith))
    where
      behind :
          (c : Result (Unit {0})) → Sends count fits 15 (after_resync again (some reqi, err rc) c)
      behind (ok u) = h
      behind (err e) =
          Sends-le count fits (Sends-return count fits (some reqi, err rc)) (omega arith)

      resynced : (b : Bool) → Sends count fits 18 (resync again (some reqi, err rc) b)
      resynced false =
          Sends-le count fits (Sends-return count fits (some reqi, err rc)) (omega arith)
      resynced true =
          Sends-bind count fits (Sends-attempt count fits (Sends-checkin_run count fits true))
            behind

  pub Sends-confirm_begin :
      (notify_url : Option Bytes) (scope : Bytes) (ctx_str note_text : Option Bytes)
      → Sends count fits 33 (confirm_begin notify_url scope ctx_str note_text)
  unfolding confirm_begin
  Sends-confirm_begin notify_url scope ctx_str note_text =
      Sends-bind count fits (Sends-alloc count fits local) λ room.
        Sends-bind count fits (Sends-or_nomem count fits local room tt) λ u.
          Sends-bind count fits (Sends-dup_str count fits local scope) λ copy.
            Sends-bind count fits (copied notify_url) λ url.
              Sends-bind count fits (Sends-fire_push url scope ctx_str note_text) λ first.
                Sends-bind count fits
                  (Sends-recover_push (Sends-fire_push url scope ctx_str note_text) first)
                  λ pushed. started url copy pushed
    where
      copied : (url : Option Bytes) → Sends count fits 0 (dup_optional url)
      copied none = Sends-return count fits none
      copied (some url) =
          Sends-bind count fits (Sends-dup_str count fits local url)
            λ copy. Sends-return count fits (some copy)

      called :
          (scope : Bytes) (callback : Option ℕ) (ctx : Ctx)
          → Sends count fits 0 (call_notice scope callback ctx)
      called scope none ctx = Sends-return count fits tt
      called scope (some callback) ctx =
          Sends-outside count fits local _
            (notice_none callback scope ctx.confirm_timeout_ms ctx.confirm_notice_arg)

      started :
          (url : Option Bytes) (scope : Bytes) (pushed : Pushed)
          → Sends count fits 0 (begun url scope pushed)
      started url scope (reqi, err rc) = Sends-throw count fits rc
      started url scope (reqi, ok eventid) =
          Sends-bind count fits
            (Sends-bind count fits (Sends-get_ctx count fits)
              λ ctx. called scope ctx.confirm_notice ctx)
            λ u.
              Sends-return count fits
                (record { notify_url = url; scope = scope; eventid = eventid; terminal = false })
