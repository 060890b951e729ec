-- ===== src/Confirm.antt =====
-- src/proto_ext.c, the confirm engine: a push to the phone, polled until it is answered. The poll
-- interval is the file's `g_poll_interval_ms`, which only a test sets; it is an argument here.
pub mod Budget
pub mod Wait
pub mod Bearer
pub mod Unapproved
mod Tests
use encedo_hem_c_api.Prelude.{
  ℕ, zero, suc, ◌-◌, min, Bool, true, false, not, ◌&&◌, ◌||◌, Option, none, some, Bytes, codes,
  ◌++◌, decimal, ltb, leb, ◌==◌, if◌then◌else◌,
}
use encedo_hem_c_api.Prelude.Int.{ℤ, pos, ltb_ℤ, ◌-ℤ◌}
use encedo_hem_c_api.Rc.{Rc, arg, confirm_timeout, user_rejected}
use encedo_hem_c_api.Env.{Env, Result, ok, err}
use encedo_hem_c_api.Context.{Ctx}
use encedo_hem_c_api.Context.Fail.{fail}
use encedo_hem_c_api.Json.{json_parse, json_get_int64}
use encedo_hem_c_api.Send.{pace}
use encedo_hem_c_api.Checkin.{checkin_run}
use encedo_hem_c_api.Token.{decoded_payload}
use encedo_hem_c_api.Token.Store.{cache_seed}
use encedo_hem_c_api.Notify.{EventResult, notify_session}
use encedo_hem_c_api.Notify.Event.{notify_event_check, notify_event_new}
use encedo_hem_c_api.Ext.{RequestInfo, ext_request, ext_token}
use encedo_hem_c_api.Binding.{dup_optional, dup_str, or_nomem}
use encedo_hem_c_api.Monad.{
  State, Prog, alloc, attempt, get_ctx, outside, return, throw, ◌>>=◌, ◌>>◌,
}

abbrev pub confirm_poll_interval : ℕ
confirm_poll_interval = 5000

-- `ehem_ext_test_set_poll_interval`; a number below 0 is as 0.
abbrev pub set_poll_interval : ℕ → ℕ
set_poll_interval ms = if ltb 0 ms then ms else confirm_poll_interval

-- `struct ehem_ext_confirm`, once the push is out.
pub record Confirm : Type 0 where
  pub notify_url : Option Bytes
  pub scope : Bytes
  pub eventid : Bytes
  pub terminal : Bool

pub data ConfirmStatus : Type 0 where
  pending approved : ConfirmStatus

abbrev pub finish : Confirm → Confirm
finish c = record c { terminal = true }

abbrev pub future_skew : ℤ
future_skew = pos 2

abbrev pub past_skew : ℤ
past_skew = pos 15

-- `drift > FUTURE_SKEW || drift < -PAST_SKEW`
abbrev pub is_drift : ℤ → Bool
is_drift drift = ltb_ℤ future_skew drift || ltb_ℤ drift (pos 0 -ℤ past_skew)

-- A push attempt: the device's request, where it came that far, and the event's id or the failure.
abbrev pub Pushed : Type 0
Pushed = Option RequestInfo × Result Bytes

module _ ⦃E : Env⦄ where
  abbrev pub claim_in : Option Bytes → Prog (Option ℤ)
  claim_in none = return none
  claim_in (some raw) = do
    payload ← json_parse (some raw)
    return (json_get_int64 payload (some (codes "iat")))

  unfoldable pub peek_jwt_iat : Bytes → Prog (Option ℤ)
  peek_jwt_iat jwt = claim_in (decoded_payload jwt)

  abbrev pub push_event : Option Bytes → Result RequestInfo → Prog Pushed
  push_event notify_url (err rc) = return (none, err rc)
  push_event notify_url (ok reqi) = do
    e ← attempt (notify_event_new notify_url reqi.authreq reqi.epk)
    return (some reqi, e)

  abbrev pub push_request :
      Option Bytes → Bytes → Option Bytes → Option Bytes → Result Bytes → Prog Pushed
  push_request notify_url scope ctx_str note_text (err rc) = return (none, err rc)
  push_request notify_url scope ctx_str note_text (ok epk) = do
    r ← attempt (ext_request epk scope ctx_str note_text)
    push_event notify_url r

  -- `confirm_fire_push`: an anonymous session, the device's request, and the push.
  unfoldable pub confirm_fire_push :
      Option Bytes → Bytes → Option Bytes → Option Bytes → Prog Pushed
  confirm_fire_push notify_url scope ctx_str note_text = do
    epk ← attempt (notify_session notify_url none)
    push_request notify_url scope ctx_str note_text epk

  -- The device's clock against the local one, by the request's own claim.
  abbrev pub drift_of : Option ℤ → Prog Bool
  drift_of none = return (is_drift (pos 0))
  drift_of (some iat) = do now ← outside E.wall_time; return (is_drift (iat -ℤ now))

  abbrev pub drift_evidence : RequestInfo → Prog Bool
  drift_evidence reqi = do iat ← peek_jwt_iat reqi.authreq; drift_of iat

  abbrev pub after_resync : Prog Pushed → Pushed → Result (Unit {0}) → Prog Pushed
  after_resync again pushed (ok _) = again
  after_resync again pushed (err _) = return pushed

  abbrev pub resync : Prog Pushed → Pushed → Bool → Prog Pushed
  resync again pushed false = return pushed
  resync again pushed true = do c ← attempt (checkin_run true); after_resync again pushed c

  abbrev pub is_refused : Ctx → Bool
  is_refused c = c.last_error.http_status == 401 && not c.no_auto_checkin && not c.in_checkin

  abbrev pub inspect : Prog Pushed → RequestInfo → Rc → Prog Pushed
  inspect again reqi rc = do
    evidence ← drift_evidence reqi
    resync again (some reqi, err rc) evidence

  -- A push that the broker refuses is sent once more, if a drifting clock may be the reason and a
  -- check-in sets it.
  unfoldable pub recover_push : Prog Pushed → Pushed → Prog Pushed
  recover_push again (none, e) s = (ok (none, e), s)
  recover_push again (some reqi, ok eventid) s = (ok (some reqi, ok eventid), s)
  recover_push again (some reqi, err rc) s =
      if is_refused s.ctx then inspect again reqi rc s else (ok (some reqi, err rc), s)

  abbrev pub call_notice : Bytes → Option ℕ → Ctx → Prog (Unit {0})
  call_notice scope none ctx = return tt
  call_notice scope (some callback) ctx =
      outside
        λ w. (tt, E.confirm_notice callback scope ctx.confirm_timeout_ms ctx.confirm_notice_arg w)

  abbrev pub notice : Bytes → Prog (Unit {0})
  notice scope = do ctx ← get_ctx; call_notice scope ctx.confirm_notice ctx

  abbrev pub begun : Option Bytes → Bytes → Pushed → Prog Confirm
  begun notify_url scope (reqi, err rc) = throw rc
  begun notify_url scope (reqi, ok eventid) = do
    notice scope
    return (record { notify_url = notify_url; scope = scope; eventid = eventid; terminal = false })

  abbrev pub push : Option Bytes → Bytes → Bytes → Option Bytes → Option Bytes → Prog Confirm
  push url scope_copy scope ctx_str note_text = do
    first ← confirm_fire_push url scope ctx_str note_text
    pushed ← recover_push (confirm_fire_push url scope ctx_str note_text) first
    begun url scope_copy pushed

  abbrev pub begin_copied :
      Option Bytes → Bytes → Option Bytes → Option Bytes → Bytes → Prog Confirm
  begin_copied notify_url scope ctx_str note_text scope_copy = do
    url ← dup_optional notify_url
    push url scope_copy scope ctx_str note_text

  abbrev pub begin_in : Option Bytes → Bytes → Option Bytes → Option Bytes → Bool → Prog Confirm
  begin_in notify_url scope ctx_str note_text room = do
    or_nomem room tt
    scope_copy ← dup_str scope
    begin_copied notify_url scope ctx_str note_text scope_copy

  unfoldable pub confirm_begin : Option Bytes → Bytes → Option Bytes → Option Bytes → Prog Confirm
  confirm_begin notify_url scope ctx_str note_text = do
    room ← alloc
    begin_in notify_url scope ctx_str note_text room

  abbrev pub seeded : Result (Unit {0}) → Result ConfirmStatus
  seeded (ok _) = ok approved
  seeded (err rc) = err rc

  -- Behind the token: it goes into the cache under the scope that was asked for.
  abbrev pub seed_reply : Confirm → Result Bytes → Prog (Confirm × Result ConfirmStatus)
  seed_reply c (err rc) = return (finish c, err rc)
  seed_reply c (ok token) = do
    r ← attempt (cache_seed (some c.scope) (some token))
    return (finish c, seeded r)

  abbrev pub accept : Confirm → Option Bytes → Prog (Confirm × Result ConfirmStatus)
  accept c authreply = do token ← attempt (ext_token authreply); seed_reply c token

  abbrev pub reject : Confirm → Prog (Confirm × Result ConfirmStatus)
  reject c = do
    r ← attempt (fail user_rejected 0 none (codes "confirm: rejected on the authenticator"))
    return (finish c, r)

  -- The three answers of the broker; a failed question leaves the handle open.
  abbrev pub after_check : Confirm → Result EventResult → Prog (Confirm × Result ConfirmStatus)
  after_check c (err rc) = return (c, err rc)
  after_check c (ok r) =
      if r.pending
      then return (c, ok pending)
      else if r.denied
      then reject c
      else accept c r.authreply

  abbrev pub refuse : Confirm → Prog (Confirm × Result ConfirmStatus)
  refuse c = do
    r ← attempt (fail arg 0 none (codes "confirm: handle already finished (single-use)"))
    return (c, r)

  abbrev pub ask : Confirm → Prog (Confirm × Result ConfirmStatus)
  ask c = do r ← attempt (notify_event_check c.notify_url c.eventid); after_check c r

  unfoldable pub confirm_poll : Confirm → Prog (Confirm × Result ConfirmStatus)
  confirm_poll c = if c.terminal then refuse c else ask c

  abbrev pub time_out : Confirm → ℕ → Prog (Confirm × Result (Unit {0}))
  time_out c timeout_ms = do
    r ← attempt (
        fail confirm_timeout 0 none
          (codes "confirm: not answered within " ++ decimal timeout_ms ++ codes " ms"))
    return (c, r)

  -- Behind a poll: `next` goes on waiting with the time that is left.
  abbrev pub after_poll :
      ℕ
      → ℕ
      → (Confirm → Prog (Confirm × Result (Unit {0})))
      → Confirm × Result ConfirmStatus
      → Prog (Confirm × Result (Unit {0}))
  after_poll timeout_ms remaining next (c, err rc) = return (c, err rc)
  after_poll timeout_ms remaining next (c, ok approved) = return (c, ok tt)
  after_poll timeout_ms remaining next (c, ok pending) =
      if remaining == 0 then time_out c timeout_ms else next c

  -- The loop of `ehem_ext_confirm_wait`, on the time that is left. It is the fuel too: no time is
  -- left when that runs out.
  unfoldable pub wait_loop : ℕ → ℕ → ℕ → ℕ → Confirm → Prog (Confirm × Result (Unit {0}))
  wait_loop interval timeout_ms zero remaining c = do
    r ← confirm_poll c
    after_poll timeout_ms remaining (λ c'. time_out c' timeout_ms) r
  wait_loop interval timeout_ms (suc fuel) remaining c =
      let step = min interval remaining in
      let rest = wait_loop interval timeout_ms fuel (remaining - step) in
      do r ← confirm_poll c; after_poll timeout_ms remaining (λ c'. pace step >> rest c') r

  unfoldable pub confirm_wait : ℕ → Confirm → ℕ → Prog (Confirm × Result (Unit {0}))
  unfolding wait_loop
  confirm_wait interval c timeout_ms =
      if timeout_ms == 0
      then return (c, err arg)
      else wait_loop interval timeout_ms timeout_ms timeout_ms c

  abbrev pub waited : Confirm × Result (Unit {0}) → Prog (Unit {0})
  waited (c, ok _) = return tt
  waited (c, err rc) = throw rc

  -- How `ehem_auth_ensure_token` uses the engine: the handle is dropped at the end.
  abbrev pub wait_for : ℕ → ℕ → Confirm → Prog (Unit {0})
  wait_for interval timeout_ms c = do r ← confirm_wait interval c timeout_ms; waited r

  unfoldable pub push_confirm : ℕ → Bytes → ℕ → Prog (Unit {0})
  push_confirm interval scope timeout_ms = do
    c ← confirm_begin none scope none none
    wait_for interval timeout_ms c
