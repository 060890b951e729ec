-- ===== src/Request/Budget/Bound.antt =====
-- At most how many requests one call of the SDK's request path makes (src/proto_common.c, with
-- the check-in of src/proto_system.c).
use encedo_hem_c_api.Prelude.{
  ℕ, ◌+◌, ◌*◌, ◌≤◌, Bool, true, false, Option, none, some, ◌++◌, Bytes, codes, c_string, ◌==◌,
  arith,
}
use encedo_hem_c_api.Env.{
  Env, Result, ok, err, HttpMethod, get, post, TlsReqOverride, verify, Response,
}
use encedo_hem_c_api.Transport.{last_detail}
use encedo_hem_c_api.Json.{json_parse, json_is_object}
use encedo_hem_c_api.Monad.{State, Prog}
use encedo_hem_c_api.Session.{auth_invalidate}
use encedo_hem_c_api.Request.{
  bearer_for, after_resend, made, reauthenticate, request_over, request_raw, hand_over,
  request_json,
}
use encedo_hem_c_api.Send.{make_bearer}
use encedo_hem_c_api.Checkin.{
  checkin_legs, checkin_run, set_in_checkin, outcome, no_checkin, no_ensure, checkin_path,
  device_override,
}
use encedo_hem_c_api.Request.Budget.{
  SendCount, Sends, Sends-bind, Sends-le, Sends-return, Sends-throw, Sends-fail, Sends-attempt,
  Sends-if, Sends-get_ctx,
}
use encedo_hem_c_api.Request.Budget.Path.{
  Sends-do_send, Sends-exchange, Sends-deliver, Sends-request_alone,
}

-- No condition on the timeout of a confirmation.
abbrev pub AnyTimeout : ℕ → Type 0
AnyTimeout t = Unit {0}

module _ ⦃E : Env⦄ (count : SendCount) (fits : ℕ → Type 0) where
  open count use {sends, send_once, alloc_none, sleep_none, parse_none}

  pub Sends-parse : (input : Bytes) → Sends count fits 0 (json_parse (some input))
  Sends-parse input = record {
    bound = λ s h. unfold json_parse in (h, omega (arith, parse_none input s.world));
  }

  Sends-hand_over : (root : Option E.Node) → Sends count fits 0 (hand_over root)
  Sends-hand_over none = Sends-throw count fits _
  Sends-hand_over (some node) = Sends-return count fits node

  pub Sends-request_json :
      (c : Prog (Unit {0})) (ensure : Bytes → Prog Bytes) (method : HttpMethod) (path : Bytes)
      (body scope : Option Bytes) (tls : TlsReqOverride) {n : ℕ}
      → Sends count fits n (request_raw c ensure method path body scope tls)
      → Sends count fits n (request_json c ensure method path body scope tls)
  unfolding request_json
  Sends-request_json c ensure method path body scope tls p =
      Sends-le count fits
        (Sends-bind count fits p λ response.
          Sends-bind count fits (Sends-parse (c_string response)) λ root.
            Sends-if count fits (json_is_object root) (Sends-hand_over root)
              (Sends-fail count fits _ 0 _ _))
        (omega arith)

  Sends-checkin_legs : (b : Bool) → Sends count fits 3 (checkin_legs b)
  unfolding checkin_legs
  Sends-checkin_legs b =
      Sends-bind count fits
        (Sends-request_alone count fits get checkin_path none (device_override b))
        λ challenge. Sends-bind count fits (Sends-get_ctx count fits) λ ctx.
          Sends-bind count fits
            (Sends-request_alone count fits post ctx.checkin_url (some challenge) verify)
            λ verified.
              Sends-request_json no_checkin no_ensure post checkin_path (some verified) none
                (device_override b)
                (Sends-request_alone count fits post checkin_path (some verified)
                  (device_override b))

  Sends-outcome : (r : Result E.Node) → Sends count fits 0 (outcome r)
  Sends-outcome (ok root) = Sends-return count fits tt
  Sends-outcome (err rc) = Sends-throw count fits rc

  Sends-set_in_checkin : (b : Bool) → Sends count fits 0 (set_in_checkin b)
  unfolding set_in_checkin
  Sends-set_in_checkin b = record { bound = λ s h. (h, omega arith) }

  pub Sends-checkin_run : (b : Bool) → Sends count fits 3 (checkin_run b)
  unfolding checkin_run
  Sends-checkin_run b = Sends-bind count fits (Sends-set_in_checkin true) λ _.
      Sends-bind count fits (Sends-attempt count fits (Sends-checkin_legs b))
        λ r. Sends-bind count fits (Sends-set_in_checkin false) λ _. Sends-outcome r

  Sends-bearer_for :
      (ensure : Bytes → Prog Bytes) (scope : Bytes) {k : ℕ}
      → Sends count fits k (ensure scope)
      → Sends count fits k (bearer_for ensure (some scope))
  unfolding bearer_for
  Sends-bearer_for ensure scope p =
      Sends-le count fits
        (Sends-bind count fits p
          λ token. Sends-bind count fits (made_ready token) λ b. Sends-made b)
        (omega arith)
    where
      made_ready : (token : Bytes) → Sends count fits 0 (make_bearer token)
      made_ready token = record {
        bound = λ s h. unfold make_bearer in (h, omega (arith, alloc_none s.world));
      }

      Sends-made : (b : Option Bytes) → Sends count fits 0 (made b)
      Sends-made none = Sends-fail count fits _ 0 none _
      Sends-made (some b) = Sends-return count fits (some b)

  Sends-after_resend :
      (t : ℕ) (path : Bytes) (r : Result Response) → Sends count fits 0 (after_resend t path r)
  unfolding after_resend
  Sends-after_resend t path (ok resp) = Sends-return count fits resp
  Sends-after_resend t path (err rc) = record {
    bound = λ s.
        (Sends-fail count fits {A = Response} rc 0 none
            (path ++ codes ": " ++ last_detail (some t) s)).bound
          s;
  }

  Sends-reauthenticate :
      (ensure : Bytes → Prog Bytes) (t : ℕ) (path scope : Bytes)
      (resend : Option Bytes → Prog Response) (resp : Response) {k : ℕ}
      → Sends count fits k (ensure scope)
      → ((b : Option Bytes) → Sends count fits 1 (resend b))
      → Sends count fits (k + 1) (reauthenticate ensure t path (some scope) resend resp)
  unfolding reauthenticate
  Sends-reauthenticate ensure t path scope resend resp p q =
      Sends-if count fits (resp.status == 401)
        (Sends-le count fits
          (Sends-bind count fits dropped λ _.
            Sends-bind count fits (Sends-bearer_for ensure scope p) λ b.
              Sends-bind count fits (Sends-attempt count fits (q b))
                λ r. Sends-after_resend t path r)
          (omega arith))
        (Sends-le count fits (Sends-return count fits resp) (omega arith))
    where
      dropped : Sends count fits 0 (auth_invalidate (some scope))
      dropped = record { bound = λ s h. unfold auth_invalidate in (h, omega arith) }

  pub Sends-request :
      (ensure : Bytes → Prog Bytes) (method : HttpMethod) (path : Bytes) (body : Option Bytes)
      (tls : TlsReqOverride) (scope : Bytes) {k : ℕ}
      → Sends count fits k (ensure scope)
      → Sends count fits
          (2 * k + 6)
          (request_raw (checkin_run true) ensure method path body (some scope) tls)
  unfolding request_raw
  Sends-request ensure method path body tls scope {k} p = record {
    bound = λ s h. (over s.ctx.transport).bound s h;
  }
    where
      over :
          (t : Option ℕ)
          → Sends count fits
              (2 * k + 6)
              (request_over (checkin_run true) ensure method path body (some scope) tls t)
      over none = Sends-le count fits (Sends-fail count fits _ 0 none _) (omega arith)
      over (some t) =
          Sends-le count fits
            (Sends-bind count fits (Sends-bearer_for ensure scope p) λ bearer.
              Sends-bind count fits
                (Sends-exchange count fits t path tls (Sends-checkin_run true)
                  (Sends-do_send count fits t method path body bearer tls false)
                  (Sends-do_send count fits t method path body bearer tls true))
                λ resp.
                  Sends-bind count fits
                    (Sends-reauthenticate ensure t path scope _ resp p
                      (λ b. Sends-do_send count fits t method path body b tls true))
                    λ resp'. Sends-deliver count fits path resp')
            (omega arith)

  pub Sends-request_plain :
      (ensure : Bytes → Prog Bytes) (method : HttpMethod) (path : Bytes) (body : Option Bytes)
      (tls : TlsReqOverride)
      → Sends count fits 5 (request_raw (checkin_run true) ensure method path body none tls)
  unfolding request_raw bearer_for reauthenticate
  Sends-request_plain ensure method path body tls = record {
    bound = λ s h. (over s.ctx.transport).bound s h;
  }
    where
      over :
          (t : Option ℕ)
          → Sends count fits 5 (request_over (checkin_run true) ensure method path body none tls t)
      over none = Sends-le count fits (Sends-fail count fits _ 0 none _) (omega arith)
      over (some t) =
          Sends-bind count fits
            (Sends-exchange count fits t path tls (Sends-checkin_run true)
              (Sends-do_send count fits t method path body none tls false)
              (Sends-do_send count fits t method path body none tls true))
            λ resp. Sends-deliver count fits path resp

module _ ⦃E : Env⦄ (count : SendCount) where
  open count use {sends}

  -- The recoveries compose and do not multiply. A request without a scope makes at most five
  -- calls of the transport: itself, the three legs of one check-in, and one retry. A request with
  -- a scope, for which a token takes at most `k` calls, makes at most two acquisitions of a token
  -- and six calls more.
  pub request_raw-sends :
      (ensure : Bytes → Prog Bytes) (method : HttpMethod) (path scope : Bytes) (body : Option Bytes)
      (tls : TlsReqOverride) (k : ℕ) (s : State E.World)
      → ((s' : State E.World) → sends (ensure scope s').1.world ≤ sends s'.world + k)
      → (sends (request_raw (checkin_run true) ensure method path body none tls s).1.world
          ≤ sends s.world + 5)
        × (sends (request_raw (checkin_run true) ensure method path body (some scope) tls s).1.world
            ≤ sends s.world + (2 * k + 6))
  request_raw-sends ensure method path scope body tls k s h = (
    ((Sends-request_plain count AnyTimeout ensure method path body tls).bound s tt).1,
    ((Sends-request count AnyTimeout ensure method path body tls scope
          (record { bound = λ s' u. (tt, h s') })).bound
        s tt).1,
  )
