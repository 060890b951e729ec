-- ===== src/Confirm/Wait.antt =====
-- The wait for the phone (src/proto_ext.c: ehem_ext_confirm_wait): how often it polls, and what a
-- whole confirmation costs.
use encedo_hem_c_api.Prelude.{
  ℕ, zero, suc, ◌+◌, ◌-◌, ◌*◌, ◌≤◌, ◌<◌, ◌≡◌, refl, min, Option, none, some, Bytes, ◌==◌, arith,
  Bool-cases, inl, inr,
}
use encedo_hem_c_api.Prelude.Int.{ℤ, pos}
use encedo_hem_c_api.Rc.{Rc, arg, confirm_timeout, user_rejected}
use encedo_hem_c_api.Env.{Env, Result, ok, err}
use encedo_hem_c_api.Context.Fail.{fail}
use encedo_hem_c_api.Send.{pace}
use encedo_hem_c_api.Monad.{State, Prog, attempt, return, ◌>>=◌, ◌>>◌}
use encedo_hem_c_api.Request.Budget.{
  SendCount, Sends, Sends-bind, Sends-le, Sends-return, Sends-throw, Sends-fail, Sends-if,
  Sends-attempt,
}
use encedo_hem_c_api.Request.Budget.Path.{Sends-pace}
use encedo_hem_c_api.Request.Budget.Bound.{AnyTimeout}
use encedo_hem_c_api.Token.Store.{cache_seed, seed_expiry, expiry}
use encedo_hem_c_api.Token.Budget.{LocalCount, Sends-outside}
use encedo_hem_c_api.Token.Budget.Left.{
  Leaves, Leaves-return, Leaves-bind, Leaves-le, Leaves-spend, Leaves-if,
}
use encedo_hem_c_api.Token.Budget.Local.{
  Sends-decode_bearer_exp, Sends-ensure_auth, Sends-store_token,
}
use encedo_hem_c_api.Notify.{EventResult}
use encedo_hem_c_api.Notify.Budget.{Sends-notify_event_check}
use encedo_hem_c_api.Ext.Budget.{Sends-ext_token}
use encedo_hem_c_api.Confirm.{
  Confirm, ConfirmStatus, pending, approved, finish, seed_reply, seeded, accept, reject,
  after_check, refuse, ask, confirm_poll, time_out, after_poll, wait_loop, confirm_wait, waited,
  push_confirm,
}
use encedo_hem_c_api.Confirm.Budget.{Sends-confirm_begin}

-- What a poll leaves for the wait behind it, where there is no answer yet.
abbrev poll_left : ℕ → Confirm × Result ConfirmStatus → ℕ
poll_left n (c, err rc) = 0
poll_left n (c, ok pending) = 13 + n
poll_left n (c, ok approved) = 0

module _ ⦃E : Env⦄ (count : SendCount) (fits : ℕ → Type 0) (local : LocalCount count) where
  open count use {sends}
  open local use {now_none}

  Sends-cache_seed :
      (scope token : Bytes) → Sends count fits 0 (cache_seed (some scope) (some token))
  unfolding cache_seed
  Sends-cache_seed scope token = Sends-bind count fits (Sends-ensure_auth count fits local) λ a.
      Sends-bind count fits (Sends-decode_bearer_exp count fits local token) λ real_exp.
        Sends-bind count fits (expires real_exp) λ exp.
          Sends-bind count fits (Sends-store_token count fits local scope token exp)
            λ stored. Sends-return count fits tt
    where
      expires : (real_exp : Option ℤ) → Sends count fits 0 (seed_expiry real_exp)
      expires none =
          Sends-bind count fits (Sends-outside count fits local E.now now_none)
            λ now. Sends-return count fits (expiry now none)
      expires (some exp) = Sends-return count fits (expiry (pos 0) (some exp))

  Leaves-seed_reply :
      (n : ℕ) (c : Confirm) (r : Result Bytes) → Leaves count fits 0 (poll_left n) (seed_reply c r)
  Leaves-seed_reply n c (err rc) = Leaves-return count fits (finish c, err rc)
  Leaves-seed_reply n c (ok token) =
      Leaves-bind count fits (Sends-attempt count fits (Sends-cache_seed c.scope token)) stored
    where
      stored :
          (r : Result (Unit {0})) → Leaves count fits 0 (poll_left n) (return (finish c, seeded r))
      stored (ok u) = Leaves-return count fits (finish c, ok approved)
      stored (err rc) = Leaves-return count fits (finish c, err rc)

  Leaves-accept :
      (n : ℕ) (c : Confirm) (reply : Option Bytes)
      → Leaves count fits 13 (poll_left n) (accept c reply)
  Leaves-accept n c reply =
      Leaves-bind count fits (Sends-attempt count fits (Sends-ext_token count fits local reply))
        (Leaves-seed_reply n c)

  -- A failure that comes with the handle, whichever it is, leaves nothing.
  Leaves-failure :
      (n : ℕ) (c : Confirm) {m : Prog ConfirmStatus}
      → ((s : State E.World) → (rc : Rc) × ((m s).0 ≡ err rc))
      → Sends count fits 0 m
      → Leaves count fits 0 (poll_left n) (do r ← attempt m; return (c, r))
  Leaves-failure n c fails q = record {
    covered = λ s h. let p = q.bound s h in (p.0, rw (fails s).1 (omega (arith, p.1)));
  }

  fail-err :
      (rc : Rc) (message : Bytes) (s : State E.World)
      → (rc' : Rc) × ((fail {A = ConfirmStatus} rc 0 none message s).0 ≡ err rc')
  unfolding fail
  fail-err rc message s = (rc, refl)

  Leaves-ask : (n : ℕ) (c : Confirm) → Leaves count fits (14 + n) (poll_left n) (ask c)
  Leaves-ask n c =
      Leaves-le count fits
        (Leaves-bind count fits
          (Sends-attempt count fits
            (Sends-notify_event_check count fits local c.notify_url c.eventid))
          behind)
        (omega arith)
    where
      rejected : Leaves count fits 0 (poll_left n) (reject c)
      rejected =
          Leaves-failure n (finish c) (fail-err user_rejected _)
            (Sends-fail count fits user_rejected 0 none _)

      behind : (r : Result EventResult) → Leaves count fits (13 + n) (poll_left n) (after_check c r)
      behind (err rc) = Leaves-le count fits (Leaves-return count fits (c, err rc)) (omega arith)
      behind (ok r) = Leaves-if count fits r.pending (Leaves-return count fits (c, ok pending)) (
          Leaves-if count fits r.denied (Leaves-le count fits rejected (omega arith))
            (Leaves-le count fits (Leaves-accept n c r.authreply) (omega arith)))

  Leaves-confirm_poll :
      (n : ℕ) (c : Confirm) → Leaves count fits (14 + n) (poll_left n) (confirm_poll c)
  unfolding confirm_poll
  Leaves-confirm_poll n c =
      Leaves-if count fits c.terminal (Leaves-le count fits refused (omega arith)) (Leaves-ask n c)
    where
      refused : Leaves count fits 0 (poll_left n) (refuse c)
      refused = Leaves-failure n c (fail-err arg _) (Sends-fail count fits arg 0 none _)

  Sends-time_out : (c : Confirm) (timeout_ms : ℕ) → Sends count fits 0 (time_out c timeout_ms)
  Sends-time_out c timeout_ms =
      Sends-bind count fits
        (Sends-attempt count fits (Sends-fail count fits confirm_timeout 0 none _))
        λ r. Sends-return count fits (c, r)

  Sends-after_poll :
      (n timeout_ms remaining : ℕ) (next : Confirm → Prog (Confirm × Result (Unit {0})))
      (p : Confirm × Result ConfirmStatus)
      → (0 < remaining → (c : Confirm) → Sends count fits (13 + n) (next c))
      → Sends count fits (poll_left n p) (after_poll timeout_ms remaining next p)
  Sends-after_poll n timeout_ms remaining next (c, err rc) h = Sends-return count fits (c, err rc)
  Sends-after_poll n timeout_ms remaining next (c, ok approved) h =
      Sends-return count fits (c, ok tt)
  Sends-after_poll n timeout_ms remaining next (c, ok pending) h =
      elim (Bool-cases (remaining == 0)) [
        | inl over ↦ rw over (Sends-le count fits (Sends-time_out c timeout_ms) (omega arith))
        | inr waits ↦ rw waits (h (ground arith) c)
      ]

  -- A poll that is answered costs 14 at most, and each of those before it 1.
  Sends-wait_loop :
      (interval timeout_ms fuel remaining n : ℕ) (c : Confirm)
      → 0 < interval
      → remaining ≤ fuel
      → remaining ≤ n * interval
      → Sends count fits (14 + n) (wait_loop interval timeout_ms fuel remaining c)
  unfolding wait_loop
  Sends-wait_loop interval timeout_ms zero remaining n c positive enough bounded =
      Leaves-spend count fits (Leaves-confirm_poll n c) λ p.
        Sends-after_poll n timeout_ms remaining (λ c'. time_out c' timeout_ms) p
          λ left. absurd (omega arith)
  Sends-wait_loop interval timeout_ms (suc fuel) remaining zero c positive enough bounded =
      Leaves-spend count fits (Leaves-confirm_poll 0 c) λ p.
        Sends-after_poll 0 timeout_ms remaining
          (λ c'.
            pace (min interval remaining)
            >> wait_loop interval timeout_ms fuel (remaining - min interval remaining) c')
          p λ left. absurd (omega arith)
  Sends-wait_loop interval timeout_ms (suc fuel) remaining (suc n) c positive enough bounded =
      Leaves-spend count fits (Leaves-confirm_poll (suc n) c) λ p.
        Sends-after_poll (suc n) timeout_ms remaining
          (λ c'.
            pace (min interval remaining)
            >> wait_loop interval timeout_ms fuel (remaining - min interval remaining) c')
          p
          λ left c'.
            Sends-le count fits
              (Sends-bind count fits (Sends-pace count fits (min interval remaining)) λ u.
                Sends-wait_loop interval timeout_ms fuel (remaining - min interval remaining) n c'
                  positive (omega arith) (grind arith))
              (omega arith)

  Sends-confirm_wait :
      (interval timeout_ms n : ℕ) (c : Confirm)
      → 0 < interval
      → timeout_ms ≤ n * interval
      → Sends count fits (14 + n) (confirm_wait interval c timeout_ms)
  unfolding confirm_wait
  Sends-confirm_wait interval timeout_ms n c positive bounded =
      Sends-if count fits (timeout_ms == 0)
        (Sends-le count fits (Sends-return count fits (c, err arg)) (omega arith))
        (Sends-wait_loop interval timeout_ms timeout_ms timeout_ms n c positive (omega arith)
          bounded)

  pub Sends-push_confirm :
      (interval timeout_ms n : ℕ) (scope : Bytes)
      → 0 < interval
      → timeout_ms ≤ n * interval
      → Sends count fits (47 + n) (push_confirm interval scope timeout_ms)
  unfolding push_confirm
  Sends-push_confirm interval timeout_ms n scope positive bounded =
      Sends-le count fits
        (Sends-bind count fits (Sends-confirm_begin count fits local none scope none none) λ c.
          Sends-bind count fits (Sends-confirm_wait interval timeout_ms n c positive bounded) ended)
        (omega arith)
    where
      ended : (r : Confirm × Result (Unit {0})) → Sends count fits 0 (waited r)
      ended (c, ok u) = Sends-return count fits tt
      ended (c, err rc) = Sends-throw count fits rc

module _ ⦃E : Env⦄ (count : SendCount) (local : LocalCount count) where
  open count use {sends}

  -- A whole confirmation on the phone makes at most 47 + n requests, where n polling intervals
  -- cover the timeout, whatever the broker and the device answer and however it ends: 15 for the
  -- push, 3 for the check-in and 15 for the push that a drifting clock may call for, at most n + 1
  -- polls, and 13 to redeem the answer. With the interval of 5 s and a timeout of 60 s that is 59.
  -- Only the transport's send advances the count, and that by at most one a call.
  pub push_confirm-sends :
      (interval timeout_ms n : ℕ) (scope : Bytes) (s : State E.World)
      → 0 < interval
      → timeout_ms ≤ n * interval
      → sends (push_confirm interval scope timeout_ms s).1.world ≤ sends s.world + (47 + n)
  push_confirm-sends interval timeout_ms n scope s positive bounded =
      ((Sends-push_confirm count AnyTimeout local interval timeout_ms n scope positive
          bounded).bound
        s tt).1
