-- ===== src/Request/Budget.antt =====
-- Programs that call the transport a bounded number of times.
pub mod Path
pub mod Bound
use encedo_hem_c_api.Prelude.{
  ℕ, zero, suc, ◌+◌, ◌≤◌, Bool, true, false, Option, none, some, List, [], ◌∷◌, ◌++◌, Bytes, codes,
  c_string, take, ltb, leb, ◌||◌, ◌==◌, decimal, ◌≡◌, refl, arith, if◌then◌else◌, Option-cases, inl,
  inr,
}
use encedo_hem_c_api.Rc.{Rc}
use encedo_hem_c_api.Env.{
  Env, Result, ok, err, HttpMethod, get, post, TlsReqOverride, default, verify, Request, Response,
  TransportOps,
}
use encedo_hem_c_api.Context.{Ctx}
use encedo_hem_c_api.Context.Fail.{fail, mark_expired}
use encedo_hem_c_api.Transport.{transport_send, last_tls_expired, last_detail}
use encedo_hem_c_api.Json.{json_parse, json_is_object}
use encedo_hem_c_api.Monad.{
  State, Prog, attempt, return, throw, get_ctx, put_ctx, outside, ◌>>=◌, ◌>>◌, bind_result,
}
use encedo_hem_c_api.Request.{
  bearer_for, transport_failure, may_recover, after_retry, after_checkin, after_first, after_resend,
  made, recover_certificate, exchange, reauthenticate, deliver_body, deliver, request_over,
  request_raw, hand_over, request_json,
}
use encedo_hem_c_api.Send.{pace, do_send}
use encedo_hem_c_api.Checkin.{
  checkin_legs, checkin_run, set_in_checkin, outcome, no_checkin, no_ensure, checkin_path,
  device_override,
}

-- A count of the requests that the transports have been given: only `send` raises it, by one.
pub record SendCount ⦃E : Env⦄ : Type 0 where
  pub sends : E.World → ℕ
  pub send_once :
      (t : ℕ) (ops : TransportOps E.World) (f : Request → E.World → (Rc × Response) × E.World)
      (req : Request) (w : E.World)
      → E.transport_ops t ≡ some ops
      → ops.send ≡ some f
      → sends (f req w).1 ≤ sends w + 1
  pub alloc_none : (w : E.World) → sends (E.alloc w).1 ≡ sends w
  pub sleep_none : (ms : ℕ) (w : E.World) → sends (E.sleep_ms ms w) ≡ sends w
  pub parse_none : (input : Bytes) (w : E.World) → sends (E.parse_with_length input w).1 ≡ sends w

module _ ⦃E : Env⦄ (count : SendCount) (fits : ℕ → Type 0) where
  open count use {sends, send_once, alloc_none, sleep_none, parse_none}

  -- The program makes at most `n` requests, where the timeout of a confirmation fits, and leaves one
  -- that fits.
  pub record Sends {A : Type 0} (n : ℕ) (m : Prog A) : Type 0 where
    pub bound :
        (s : State E.World)
        → fits s.ctx.confirm_timeout_ms
        → fits (m s).1.ctx.confirm_timeout_ms × (sends (m s).1.world ≤ sends s.world + n)

  after :
      {A B : Type 0} (r : Result A × State E.World) (f : A → Prog B) (a b : ℕ) (w : E.World)
      → fits r.1.ctx.confirm_timeout_ms × (sends r.1.world ≤ sends w + a)
      → ((x : A) → Sends b (f x))
      → fits (bind_result r f).1.ctx.confirm_timeout_ms
        × (sends (bind_result r f).1.world ≤ sends w + (a + b))
  after (ok x, s) f a b w (h, first) rest =
      let p = (rest x).bound s h in (p.0, omega (arith, p.1, first))
  after (err rc, s) f a b w (h, first) rest = (h, omega arith)

  pub Sends-bind :
      {A B : Type 0} {m : Prog A} {f : A → Prog B} {a b : ℕ}
      → Sends a m
      → ((x : A) → Sends b (f x))
      → Sends (a + b) (m >>= f)
  Sends-bind {m = m} {f = f} {a = a} {b = b} p rest = record {
    bound = λ s h. after (m s) f a b s.world (p.bound s h) rest;
  }

  pub Sends-le : {A : Type 0} {m : Prog A} {a b : ℕ} → Sends a m → a ≤ b → Sends b m
  Sends-le p le = record { bound = λ s h. let q = p.bound s h in (q.0, omega (arith, q.1, le)) }

  pub Sends-return : {A : Type 0} (x : A) → Sends 0 (return x)
  Sends-return x = record { bound = λ s h. (h, omega arith) }

  pub Sends-throw : {A : Type 0} (rc : Rc) → Sends 0 (throw {A = A} rc)
  Sends-throw rc = record { bound = λ s h. (h, omega arith) }

  pub Sends-fail :
      {A : Type 0} (rc : Rc) (status : ℕ) (payload : Option Bytes) (message : Bytes)
      → Sends 0 (fail {A = A} rc status payload message)
  unfolding fail
  Sends-fail rc status none message = record { bound = λ s h. (h, omega arith) }
  Sends-fail rc status (some p) message = record {
    bound = λ s h. (h, omega (arith, alloc_none s.world));
  }

  pub Sends-attempt : {A : Type 0} {m : Prog A} {n : ℕ} → Sends n m → Sends n (attempt m)
  Sends-attempt p = record { bound = λ s h. p.bound s h }

  pub Sends-mark :
      {A : Type 0} {m : Prog A} {n : ℕ} (b : Bool) → Sends n m → Sends n (mark_expired b m)
  unfolding mark_expired
  Sends-mark b p = record { bound = λ s h. p.bound s h }

  pub Sends-if :
      {A : Type 0} {m k : Prog A} {n : ℕ} (b : Bool)
      → Sends n m
      → Sends n k
      → Sends n (if b then m else k)
  Sends-if true p q = p
  Sends-if false p q = q

  pub Sends-get_ctx : Sends 0 get_ctx
  Sends-get_ctx = record { bound = λ s h. (h, omega arith) }

  either :
      {A : Type 0} {n : ℕ} (b : Bool) (x y : Result A × State E.World)
      → fits x.1.ctx.confirm_timeout_ms × (sends x.1.world ≤ n)
      → fits y.1.ctx.confirm_timeout_ms × (sends y.1.world ≤ n)
      → fits (if b then x else y).1.ctx.confirm_timeout_ms
        × (sends (if b then x else y).1.world ≤ n)
  either true x y p q = p
  either false x y p q = q

  pub Sends-test :
      {A : Type 0} {n : ℕ} (test : State E.World → Bool) (m k : State E.World → Prog A)
      → ((s : State E.World) → Sends n (m s))
      → ((s : State E.World) → Sends n (k s))
      → Sends n (λ s. if test s then m s s else k s s)
  Sends-test test m k p q = record {
    bound = λ s h. either (test s) (m s s) (k s s) ((p s).bound s h) ((q s).bound s h);
  }
