-- ===== src/Confirm/Bearer.antt =====
-- What an approval on the phone leaves in the token cache (src/proto_ext.c).
use encedo_hem_c_api.Prelude.{
  ℕ, zero, suc, ◌-◌, min, Bool, true, false, Option, none, some, Bytes, ◌≡◌, refl, ◌==◌,
}
use encedo_hem_c_api.Rc.{Rc, arg, nomem, user_rejected}
use encedo_hem_c_api.Env.{Env, Result, ok, err}
use encedo_hem_c_api.Context.{Ctx}
use encedo_hem_c_api.Context.Fail.{fail}
use encedo_hem_c_api.Send.{pace}
use encedo_hem_c_api.Monad.{State, Prog, alloc, attempt, return, ◌>>=◌, ◌>>◌}
use encedo_hem_c_api.Monad.Post.{
  Post, Gives, Gives-fail, Gives-if, Gives-bind, Gives-bind_with, post-ok,
}
use encedo_hem_c_api.Token.{cached}
use encedo_hem_c_api.Session.{ensure_auth}
use encedo_hem_c_api.Token.Store.{
  cache_seed, seed, seed_with, seed_until, seed_expiry, decode_bearer_exp,
}
use encedo_hem_c_api.Token.Settled.{store_token-IsCached}
use encedo_hem_c_api.Notify.{EventResult}
use encedo_hem_c_api.Notify.Event.{notify_event_check}
use encedo_hem_c_api.Ext.{ext_token}
use encedo_hem_c_api.Binding.{dup_str, or_nomem}
use encedo_hem_c_api.Token.Ensure.{confirm_and_read}
use encedo_hem_c_api.Confirm.{
  Confirm, ConfirmStatus, pending, approved, finish, seed_reply, seeded, after_check, confirm_poll,
  time_out, after_poll, wait_loop, confirm_wait, waited, confirm_begin, push_confirm, begun, notice,
  Pushed, push, begin_in, begin_copied, wait_for, confirm_fire_push, recover_push,
}

-- The cache holds a bearer for the scope.
abbrev pub HasBearer : Bytes → Ctx → Type 0
HasBearer scope c = (token : Bytes) × (cached c.auth scope ≡ some token)

-- A poll keeps the handle's scope, and finds a bearer where it finds an approval.
abbrev IsPolled : Bytes → Confirm × Result ConfirmStatus → Ctx → Type 0
IsPolled scope (h, err rc) c = h.scope ≡ scope
IsPolled scope (h, ok pending) c = h.scope ≡ scope
IsPolled scope (h, ok approved) c = HasBearer scope c

abbrev IsWaited : Bytes → Confirm × Result (Unit {0}) → Ctx → Type 0
IsWaited scope (h, err rc) c = Unit {0}
IsWaited scope (h, ok u) c = HasBearer scope c

module _ ⦃E : Env⦄ where
  cache_seed-HasBearer :
      (scope token : Bytes) → Gives (λ u. HasBearer scope) (cache_seed (some scope) (some token))
  unfolding cache_seed
  cache_seed-HasBearer scope token =
      let P : Unit {0} → Ctx → Type 0 = λ u. HasBearer scope in
      Gives-bind P ensure_auth (λ a. seed scope token)
        λ a. Gives-bind P (decode_bearer_exp token) (seed_with scope token) λ real_exp.
          Gives-bind P (seed_expiry real_exp) (seed_until scope token) λ exp.
            Gives-bind_with P (λ stored. return tt) (store_token-IsCached scope token exp)
              λ stored s h. (stored, h)

  module _ (scope : Bytes) where
    seed_reply-IsPolled :
        (h : Confirm) (r : Result Bytes) → h.scope ≡ scope → Gives (IsPolled scope) (seed_reply h r)
    seed_reply-IsPolled h (err rc) e = record { holds = λ s. e }
    seed_reply-IsPolled h (ok token) e = record {
      holds = λ s.
          seeded_state (cache_seed (some h.scope) (some token) s)
            (rw e ((cache_seed-HasBearer scope token).holds s));
    }
      where
        seeded_state :
            (r : Result (Unit {0}) × State E.World)
            → Post (λ u. HasBearer scope) r
            → IsPolled scope (finish h, seeded r.0) r.1.ctx
        seeded_state (ok u, s) p = p
        seeded_state (err rc, s) p = e

    -- A failure with the handle.
    failed-IsPolled :
        (h : Confirm) (rc : Rc) (message : Bytes)
        → h.scope ≡ scope
        → Gives
            (IsPolled scope)
            (do r ← attempt (fail {A = ConfirmStatus} rc 0 none message); return (h, r))
    unfolding fail
    failed-IsPolled h rc message e = record { holds = λ s. e }

    after_check-IsPolled :
        (h : Confirm) (r : Result EventResult)
        → h.scope ≡ scope
        → Gives (IsPolled scope) (after_check h r)
    after_check-IsPolled h (err rc) e = record { holds = λ s. e }
    after_check-IsPolled h (ok r) e =
        Gives-if (IsPolled scope) r.pending (record { holds = λ s. e })
          (Gives-if (IsPolled scope) r.denied (failed-IsPolled (finish h) user_rejected _ e) (
            Gives-bind (IsPolled scope) (attempt (ext_token r.authreply)) (seed_reply h)
              λ token. seed_reply-IsPolled h token e))

    confirm_poll-IsPolled :
        (h : Confirm) → h.scope ≡ scope → Gives (IsPolled scope) (confirm_poll h)
    unfolding confirm_poll
    confirm_poll-IsPolled h e = Gives-if (IsPolled scope) h.terminal (failed-IsPolled h arg _ e) (
        Gives-bind (IsPolled scope) (attempt (notify_event_check h.notify_url h.eventid))
          (after_check h) λ r. after_check-IsPolled h r e)

    time_out-IsWaited :
        (h : Confirm) (timeout_ms : ℕ) → Gives (IsWaited scope) (time_out h timeout_ms)
    unfolding fail
    time_out-IsWaited h timeout_ms = record { holds = λ s. tt }

    after_poll-IsWaited :
        (timeout_ms remaining : ℕ) (next : Confirm → Prog (Confirm × Result (Unit {0})))
        (p : Confirm × Result ConfirmStatus) (s : State E.World)
        → ((h : Confirm) → h.scope ≡ scope → Gives (IsWaited scope) (next h))
        → IsPolled scope p s.ctx
        → Post (IsWaited scope) (after_poll timeout_ms remaining next p s)
    after_poll-IsWaited timeout_ms remaining next (h, err rc) s k p = tt
    after_poll-IsWaited timeout_ms remaining next (h, ok approved) s k p = p
    after_poll-IsWaited timeout_ms remaining next (h, ok pending) s k p =
        (Gives-if (IsWaited scope) (remaining == 0) (time_out-IsWaited h timeout_ms) (k h p)).holds
          s

    wait_loop-IsWaited :
        (interval timeout_ms fuel remaining : ℕ) (h : Confirm)
        → h.scope ≡ scope
        → Gives (IsWaited scope) (wait_loop interval timeout_ms fuel remaining h)
    unfolding wait_loop
    wait_loop-IsWaited interval timeout_ms zero remaining h e =
        Gives-bind_with (IsWaited scope) _ (confirm_poll-IsPolled h e) λ p s q.
          after_poll-IsWaited timeout_ms remaining (λ c. time_out c timeout_ms) p s
            (λ c e'. time_out-IsWaited c timeout_ms) q
    wait_loop-IsWaited interval timeout_ms (suc fuel) remaining h e =
        let step = min interval remaining in
        let rest = wait_loop interval timeout_ms fuel (remaining - step) in
        Gives-bind_with (IsWaited scope) _ (confirm_poll-IsPolled h e) λ p s q.
          after_poll-IsWaited timeout_ms remaining (λ c. pace step >> rest c) p s
            (λ c e'.
              Gives-bind (IsWaited scope) (pace step) (λ u. rest c)
                λ u. wait_loop-IsWaited interval timeout_ms fuel (remaining - step) c e')
            q

    confirm_wait-IsWaited :
        (interval timeout_ms : ℕ) (h : Confirm)
        → h.scope ≡ scope
        → Gives (IsWaited scope) (confirm_wait interval h timeout_ms)
    unfolding confirm_wait
    confirm_wait-IsWaited interval timeout_ms h e =
        Gives-if (IsWaited scope) (timeout_ms == 0) (record { holds = λ s. tt })
          (wait_loop-IsWaited interval timeout_ms timeout_ms timeout_ms h e)

    waited-HasBearer :
        (r : Confirm × Result (Unit {0})) (s : State E.World)
        → IsWaited scope r s.ctx
        → Post (λ u. HasBearer scope) (waited r s)
    waited-HasBearer (h, ok u) s p = p
    waited-HasBearer (h, err rc) s p = tt

    abbrev IsFor : Confirm → Ctx → Type 0
    IsFor h c = h.scope ≡ scope

    begun-IsFor :
        (url : Option Bytes) (copy : Bytes) (pushed : Pushed)
        → copy ≡ scope
        → Gives IsFor (begun url copy pushed)
    begun-IsFor url copy (reqi, err rc) e = record { holds = λ s. tt }
    begun-IsFor url copy (reqi, ok eventid) e =
        Gives-bind IsFor (notice copy) _ λ u. record { holds = λ s. e }

    abbrev IsCopy : Bytes → Ctx → Type 0
    IsCopy copy c = copy ≡ scope

    dup_str-IsCopy : Gives IsCopy (dup_str scope)
    unfolding dup_str
    dup_str-IsCopy = Gives-bind IsCopy alloc (λ room. or_nomem room scope) kept
      where
        kept : (room : Bool) → Gives IsCopy (or_nomem room scope)
        kept true = record { holds = λ s. refl }
        kept false = Gives-fail IsCopy nomem 0 none _

    push-IsFor :
        (url : Option Bytes) (copy : Bytes)
        → copy ≡ scope
        → Gives IsFor (push url copy scope none none)
    push-IsFor url copy e =
        Gives-bind IsFor (confirm_fire_push url scope none none)
          (λ first. recover_push (confirm_fire_push url scope none none) first >>= begun url copy)
          λ first.
            Gives-bind IsFor (recover_push (confirm_fire_push url scope none none) first)
              (begun url copy) λ pushed. begun-IsFor url copy pushed e

    confirm_begin-IsFor : Gives IsFor (confirm_begin none scope none none)
    unfolding confirm_begin
    confirm_begin-IsFor = Gives-bind IsFor alloc (begin_in none scope none none) λ room.
        Gives-bind IsFor (or_nomem room tt)
          (λ u. dup_str scope >>= begin_copied none scope none none)
          λ u.
            Gives-bind_with IsFor (begin_copied none scope none none) dup_str-IsCopy
              λ copy s e. (push-IsFor none copy e).holds s

  -- A confirmation that succeeds has put a bearer for its scope into the token cache, whatever the
  -- broker and the device sent and whatever recovery it took.
  pub push_confirm-HasBearer :
      (interval timeout_ms : ℕ) (scope : Bytes) (s s' : State E.World)
      → push_confirm interval scope timeout_ms s ≡ (ok tt, s')
      → HasBearer scope s'.ctx
  unfolding push_confirm
  push_confirm-HasBearer interval timeout_ms scope s s' h =
      post-ok (λ u. HasBearer scope) _ tt s'
        ((Gives-bind_with (λ u. HasBearer scope) (wait_for interval timeout_ms)
            (confirm_begin-IsFor scope)
            λ c t e.
              (Gives-bind_with (λ u. HasBearer scope) waited
                  (confirm_wait-IsWaited scope interval timeout_ms c e)
                  λ r t' p. waited-HasBearer scope r t' p).holds
                t).holds
          s)
        h

  -- Where the confirmation succeeds, the mobile acquisition of a token succeeds with it: it hands out
  -- the bearer that the confirmation has cached, and changes nothing more.
  pub confirm_and_read-cached :
      (interval : ℕ) (scope : Bytes) (s s' : State E.World)
      → push_confirm interval scope s.ctx.confirm_timeout_ms s ≡ (ok tt, s')
      → (token : Bytes) × (cached s'.ctx.auth scope ≡ some token)
        × (confirm_and_read (push_confirm interval) scope s ≡ (ok token, s'))
  confirm_and_read-cached interval scope s s' h =
      let (token, e) = push_confirm-HasBearer interval s.ctx.confirm_timeout_ms scope s s' h in
      (token, e, rw (h, e))
