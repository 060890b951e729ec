-- ===== src/Request/Budget/Path.antt =====
-- The parts of an exchange (src/proto_common.c) and what each may send.
use encedo_hem_c_api.Prelude.{
  ℕ, ◌+◌, Bool, true, false, Option, none, some, [], ◌∷◌, Bytes, take, ltb, leb, ◌||◌, arith,
  Option-cases, inl, inr,
}
use encedo_hem_c_api.Rc.{Rc}
use encedo_hem_c_api.Env.{Env, Result, ok, err, HttpMethod, TlsReqOverride, Request, Response}
use encedo_hem_c_api.Transport.{transport_send, last_tls_expired, last_detail}
use encedo_hem_c_api.Monad.{Prog}
use encedo_hem_c_api.Request.{
  bearer_for, transport_failure, may_recover, after_retry, after_checkin, after_first,
  recover_certificate, exchange, reauthenticate, deliver_body, deliver, request_over, request_raw,
}
use encedo_hem_c_api.Send.{pace, do_send}
use encedo_hem_c_api.Checkin.{no_checkin, no_ensure}
use encedo_hem_c_api.Request.Budget.{
  SendCount, Sends, Sends-bind, Sends-le, Sends-return, Sends-fail, Sends-attempt, Sends-mark,
  Sends-if, Sends-test, Sends-get_ctx,
}

module _ ⦃E : Env⦄ (count : SendCount) (fits : ℕ → Type 0) where
  open count use {sends, send_once, alloc_none, sleep_none, parse_none}

  pub Sends-transport_send :
      (t : Option ℕ) (req : Request) → Sends count fits 1 (transport_send t req)
  unfolding transport_send
  Sends-transport_send none req = record { bound = λ s h. (h, omega arith) }
  Sends-transport_send (some t) req = record {
    bound = λ s. elim (Option-cases (E.transport_ops t)) [
      | inl missing ↦ ground arith
      | inr (ops, e) ↦ elim (Option-cases (ops.send)) [
        | inl null ↦ ground arith
        | inr (f, g) ↦ ground (arith, send_once t ops f req s.world e g)
      ]
    ];
  }

  pub Sends-pace : (ms : ℕ) → Sends count fits 0 (pace ms)
  unfolding pace
  Sends-pace ms = record { bound = λ s. ground (arith, sleep_none ms s.world) }

  pub Sends-do_send :
      (t : ℕ) (method : HttpMethod) (path : Bytes) (body bearer : Option Bytes)
      (tls : TlsReqOverride) (fresh : Bool)
      → Sends count fits 1 (do_send t method path body bearer tls fresh)
  unfolding do_send
  Sends-do_send t method path body bearer tls fresh =
      Sends-bind count fits (Sends-get_ctx count fits) λ ctx.
        Sends-bind count fits (Sends-pace ctx.request_pace_ms) λ _. Sends-transport_send (some t) _

  pub Sends-transport_failure :
      {A : Type 0} (t : ℕ) (path : Bytes) (rc : Rc)
      → Sends count fits 0 (transport_failure {A = A} t path rc)
  unfolding transport_failure
  Sends-transport_failure t path rc = record {
    bound = λ s h. (Sends-mark count fits _ (Sends-fail count fits rc 0 none _)).bound s h;
  }

  pub Sends-after_retry :
      (t : ℕ) (path : Bytes) (orig_rc : Rc) (detail : Bytes) (r : Result Response)
      → Sends count fits 0 (after_retry t path orig_rc detail r)
  unfolding after_retry
  Sends-after_retry t path orig_rc detail (ok resp) = record { bound = λ s h. (h, omega arith) }
  Sends-after_retry t path orig_rc detail (err rc) =
      Sends-test count fits (last_tls_expired (some t)) _ _
        (λ s. Sends-mark count fits true (Sends-fail count fits orig_rc 0 none _))
        (λ s. Sends-transport_failure t path rc)

  pub Sends-after_checkin :
      (t : ℕ) (path : Bytes) (rc : Rc) (detail : Bytes) {resend : Prog Response} {n : ℕ}
      (r : Result (Unit {0}))
      → Sends count fits n resend
      → Sends count fits n (after_checkin t path rc detail resend r)
  unfolding after_checkin
  Sends-after_checkin t path rc detail (ok x) p =
      Sends-le count fits
        (Sends-bind count fits (Sends-attempt count fits p) (Sends-after_retry t path rc detail))
        (omega arith)
  Sends-after_checkin t path rc detail (err x) p =
      Sends-le count fits
        (record {
          bound = λ s h. (Sends-mark count fits true (Sends-fail count fits rc 0 none _)).bound s h;
        })
        (omega arith)

  pub Sends-after_first :
      (t : ℕ) (path : Bytes) (tls : TlsReqOverride) {checkin : Prog (Unit {0})}
      {resend : Prog Response} {k : ℕ}
      → Sends count fits k checkin
      → Sends count fits 1 resend
      → (r : Result Response) → Sends count fits (k + 1) (after_first checkin t path tls resend r)
  unfolding after_first recover_certificate
  Sends-after_first t path tls {checkin} {resend} p q (ok resp) =
      Sends-le count fits (Sends-return count fits resp) (omega arith)
  Sends-after_first t path tls {checkin} {resend} p q (err rc) =
      Sends-test count fits (may_recover t tls)
        (λ s. recover_certificate checkin t path rc (take 255 (last_detail (some t) s)) resend)
        (λ s. transport_failure t path rc)
        (λ s.
          Sends-bind count fits (Sends-attempt count fits p)
            λ c. Sends-after_checkin t path rc (take 255 (last_detail (some t) s)) c q)
        (λ s. Sends-le count fits (Sends-transport_failure t path rc) (omega arith))

  -- An exchange: the first request, the check-in and one retry.
  pub Sends-exchange :
      (t : ℕ) (path : Bytes) (tls : TlsReqOverride) {checkin : Prog (Unit {0})}
      {first resend : Prog Response} {k : ℕ}
      → Sends count fits k checkin
      → Sends count fits 1 first
      → Sends count fits 1 resend
      → Sends count fits (k + 2) (exchange checkin t path tls first resend)
  unfolding exchange
  Sends-exchange t path tls p q r =
      Sends-le count fits
        (Sends-bind count fits (Sends-attempt count fits q) (Sends-after_first t path tls p r))
        (omega arith)

  -- With a check-in that is refused there is no retry.
  pub Sends-exchange_alone :
      (t : ℕ) (path : Bytes) (tls : TlsReqOverride) {first : Prog Response} (resend : Prog Response)
      → Sends count fits 1 first
      → Sends count fits 1 (exchange no_checkin t path tls first resend)
  unfolding exchange recover_certificate after_checkin
  Sends-exchange_alone t path tls resend q =
      Sends-bind count fits (Sends-attempt count fits q) alone
    where
      alone :
          (r : Result Response) → Sends count fits 0 (after_first no_checkin t path tls resend r)
      alone (ok resp) = Sends-return count fits resp
      alone (err rc) =
          Sends-test count fits (may_recover t tls)
            (λ s.
              recover_certificate no_checkin t path rc (take 255 (last_detail (some t) s)) resend)
            (λ s. transport_failure t path rc)
            (λ s. record {
              bound = λ s' h.
                  (Sends-mark count fits true (Sends-fail count fits rc 0 none _)).bound s' h;
            })
            (λ s. Sends-transport_failure t path rc)

  pub Sends-deliver_body :
      (path : Bytes) (status : ℕ) (body : Option Bytes)
      → Sends count fits 0 (deliver_body path status body)
  unfolding deliver_body
  Sends-deliver_body path status (some (c ∷ cs)) = Sends-return count fits (c ∷ cs)
  Sends-deliver_body path status (some []) = Sends-fail count fits _ status none _
  Sends-deliver_body path status none = Sends-fail count fits _ status none _

  pub Sends-deliver : (path : Bytes) (resp : Response) → Sends count fits 0 (deliver path resp)
  Sends-deliver path resp =
      unfold deliver in
      Sends-if count fits (ltb resp.status 200 || leb 300 resp.status)
        (Sends-fail count fits _ resp.status resp.body _)
        (Sends-deliver_body path resp.status resp.body)

  pub Sends-request_alone :
      (method : HttpMethod) (path : Bytes) (body : Option Bytes) (tls : TlsReqOverride)
      → Sends count fits 1 (request_raw no_checkin no_ensure method path body none tls)
  unfolding request_raw bearer_for reauthenticate
  Sends-request_alone method path body tls = record {
    bound = λ s h. (over s.ctx.transport).bound s h;
  }
    where
      over :
          (t : Option ℕ)
          → Sends count fits 1 (request_over no_checkin no_ensure method path body none tls t)
      over none = Sends-le count fits (Sends-fail count fits _ 0 none _) (omega arith)
      over (some t) =
          Sends-bind count fits
            (Sends-exchange_alone t path tls _ (Sends-do_send t method path body none tls false))
            λ resp. Sends-deliver path resp
