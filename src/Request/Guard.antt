-- ===== src/Request/Guard.antt =====
-- What the request path of src/proto_common.c leaves alone, and when it calls back.
use encedo_hem_c_api.Prelude.{
  ℕ, Bool, true, false, Option, none, some, [], ◌∷◌, Bytes, c_string, ◌≡◌, refl, sym, ap, ◌∙◌,
  arith, if◌then◌else◌, ltb, leb, ◌||◌,
}
use encedo_hem_c_api.Rc.{Rc}
use encedo_hem_c_api.Env.{Env, Result, ok, err, HttpMethod, TlsReqOverride, Response, Request}
use encedo_hem_c_api.Context.{Ctx}
use encedo_hem_c_api.Context.Fail.{fail, mark_expired}
use encedo_hem_c_api.Transport.{transport_send}
use encedo_hem_c_api.Json.{json_parse, json_is_object}
use encedo_hem_c_api.Monad.{State, Prog, attempt, return, ◌>>=◌, bind_result}
use encedo_hem_c_api.Request.{
  bearer_for, transport_failure, may_recover, exchange, reauthenticate, deliver, deliver_body,
  request_over, request_raw, hand_over, request_json,
}
use encedo_hem_c_api.Send.{pace, do_send}

-- The context but for its last error is as it was.
abbrev pub IsFramed : Ctx → Ctx → Type 0
IsFramed c c' = c' ≡ record c { last_error = c'.last_error }

IsFramed-trans : (a b c : Ctx) → IsFramed a b → IsFramed b c → IsFramed a c
IsFramed-trans a b c p q = ground arith

module _ ⦃E : Env⦄ where
  -- Inside a check-in the program changes nothing of the context but its last error.
  pub record IsQuiet {A : Type 0} (m : Prog A) : Type 0 where
    pub framed : (s : State E.World) → s.ctx.in_checkin ≡ true → IsFramed s.ctx (m s).1.ctx

  pub IsQuiet-fail :
      {A : Type 0} (rc : Rc) (status : ℕ) (payload : Option Bytes) (message : Bytes)
      → IsQuiet (fail {A = A} rc status payload message)
  unfolding fail
  IsQuiet-fail rc status none message = record { framed = λ s h. refl }
  IsQuiet-fail rc status (some p) message = record { framed = λ s h. refl }

  after :
      {A B : Type 0} (r : Result A × State E.World) (f : A → Prog B) (c : Ctx)
      → c.in_checkin ≡ true
      → IsFramed c r.1.ctx
      → ((a : A) → IsQuiet (f a))
      → IsFramed c (bind_result r f).1.ctx
  after (ok a, s) f c h first rest =
      IsFramed-trans c s.ctx _ first ((rest a).framed s (ap (λ (d : Ctx). d.in_checkin) first ∙ h))
  after (err rc, s) f c h first rest = first

  pub IsQuiet-bind :
      {A B : Type 0} {m : Prog A} {f : A → Prog B}
      → IsQuiet m
      → ((a : A) → IsQuiet (f a))
      → IsQuiet (m >>= f)
  IsQuiet-bind {m = m} {f = f} q rest = record {
    framed = λ s h. after (m s) f s.ctx h (q.framed s h) rest;
  }

  pub IsQuiet-attempt : {A : Type 0} {m : Prog A} → IsQuiet m → IsQuiet (attempt m)
  IsQuiet-attempt q = record { framed = λ s h. q.framed s h }

  IsQuiet-mark : {A : Type 0} {m : Prog A} (b : Bool) → IsQuiet m → IsQuiet (mark_expired b m)
  unfolding mark_expired
  IsQuiet-mark b q = record { framed = λ s h. ground (arith, q.framed s h) }

  transport_send-ctx :
      (t : Option ℕ) (req : Request) (s : State E.World) → (transport_send t req s).1.ctx ≡ s.ctx
  unfolding transport_send
  transport_send-ctx none req s = refl
  transport_send-ctx (some t) req s = ground arith

  pace_lem :
      (ms : ℕ) (s : State E.World) → pace ms s ≡ (ok tt, record s { world = (pace ms s).1.world })
  unfolding pace
  pace_lem ms s = ground arith

  pub do_send-ctx :
      (t : ℕ) (method : HttpMethod) (path : Bytes) (body bearer : Option Bytes)
      (tls : TlsReqOverride) (fresh : Bool) (s : State E.World)
      → (do_send t method path body bearer tls fresh s).1.ctx ≡ s.ctx
  unfolding do_send
  do_send-ctx t method path body bearer tls fresh s =
      rw (pace_lem s.ctx.request_pace_ms s) (transport_send-ctx (some t) _ _)

  IsQuiet-transport_failure :
      {A : Type 0} (t : ℕ) (path : Bytes) (rc : Rc) → IsQuiet (transport_failure {A = A} t path rc)
  unfolding transport_failure
  IsQuiet-transport_failure t path rc = record {
    framed = λ s h. (IsQuiet-mark _ (IsQuiet-fail rc 0 none _)).framed s h;
  }

  IsQuiet-do_send :
      (t : ℕ) (method : HttpMethod) (path : Bytes) (body bearer : Option Bytes)
      (tls : TlsReqOverride) (fresh : Bool)
      → IsQuiet (do_send t method path body bearer tls fresh)
  IsQuiet-do_send t method path body bearer tls fresh = record {
    framed = λ s h. rw (do_send-ctx t method path body bearer tls fresh s);
  }

  -- Inside a check-in no failure leads to another one.
  may_recover-in_checkin :
      (t : ℕ) (tls : TlsReqOverride) (s : State E.World)
      → s.ctx.in_checkin ≡ true
      → may_recover t tls s ≡ false
  unfolding may_recover
  may_recover-in_checkin t tls s h = ground arith

  -- What is left of an exchange there: the response, or the failure put on record.
  abbrev settle : ℕ → Bytes → Result Response × State E.World → Result Response × State E.World
  settle t path (ok resp, s) = (ok resp, s)
  settle t path (err rc, s) = transport_failure t path rc s

  exchange-settle :
      (c : Prog (Unit {0})) (t : ℕ) (path : Bytes) (tls : TlsReqOverride)
      (first resend : Prog Response) (s : State E.World) (r : Result Response × State E.World)
      → first s ≡ r
      → r.1.ctx.in_checkin ≡ true
      → exchange c t path tls first resend s ≡ settle t path r
  unfolding exchange
  exchange-settle c t path tls first resend s (ok resp, s') e h = rw e
  exchange-settle c t path tls first resend s (err rc, s') e h =
      rw (e, may_recover-in_checkin t tls s' h)

  IsQuiet-exchange :
      (c : Prog (Unit {0})) (t : ℕ) (path : Bytes) (tls : TlsReqOverride)
      (first resend : Prog Response)
      → IsQuiet first
      → IsQuiet (exchange c t path tls first resend)
  IsQuiet-exchange c t path tls first resend q = record {
    framed = λ s h.
        let kept : (first s).1.ctx.in_checkin ≡ true =
          ap (λ (d : Ctx). d.in_checkin) (q.framed s h) ∙ h in
        rw (exchange-settle c t path tls first resend s (first s) refl kept)
          (settled s (first s) (q.framed s h) kept);
  }
    where
      settled :
          (s : State E.World) (r : Result Response × State E.World)
          → IsFramed s.ctx r.1.ctx
          → r.1.ctx.in_checkin ≡ true
          → IsFramed s.ctx (settle t path r).1.ctx
      settled s (ok resp, s') f h = f
      settled s (err rc, s') f h =
          IsFramed-trans s.ctx s'.ctx _ f ((IsQuiet-transport_failure t path rc).framed s' h)

  IsQuiet-if :
      {A : Type 0} {m n : Prog A} (b : Bool) → IsQuiet m → IsQuiet n → IsQuiet (if b then m else n)
  IsQuiet-if true p q = p
  IsQuiet-if false p q = q

  IsQuiet-return : {A : Type 0} (a : A) → IsQuiet (return a)
  IsQuiet-return a = record { framed = λ s h. refl }

  IsQuiet-deliver_body :
      (path : Bytes) (status : ℕ) (body : Option Bytes) → IsQuiet (deliver_body path status body)
  unfolding deliver_body
  IsQuiet-deliver_body path status (some (c ∷ cs)) = IsQuiet-return (c ∷ cs)
  IsQuiet-deliver_body path status (some []) = IsQuiet-fail _ status none _
  IsQuiet-deliver_body path status none = IsQuiet-fail _ status none _

  IsQuiet-deliver : (path : Bytes) (resp : Response) → IsQuiet (deliver path resp)
  IsQuiet-deliver path resp =
      unfold deliver in
      IsQuiet-if (ltb resp.status 200 || leb 300 resp.status)
        (IsQuiet-fail _ resp.status resp.body _) (IsQuiet-deliver_body path resp.status resp.body)

  IsQuiet-request_over :
      (c : Prog (Unit {0})) (ensure : Bytes → Prog Bytes) (method : HttpMethod) (path : Bytes)
      (body : Option Bytes) (tls : TlsReqOverride) (t : Option ℕ)
      → IsQuiet (request_over c ensure method path body none tls t)
  unfolding request_over bearer_for reauthenticate
  IsQuiet-request_over c ensure method path body tls none = IsQuiet-fail _ 0 none _
  IsQuiet-request_over c ensure method path body tls (some t) =
      IsQuiet-bind
        (IsQuiet-exchange c t path tls _ _ (IsQuiet-do_send t method path body none tls false))
        (λ resp. IsQuiet-deliver path resp)

  pub IsQuiet-request_raw :
      (c : Prog (Unit {0})) (ensure : Bytes → Prog Bytes) (method : HttpMethod) (path : Bytes)
      (body : Option Bytes) (tls : TlsReqOverride)
      → IsQuiet (request_raw c ensure method path body none tls)
  unfolding request_raw
  IsQuiet-request_raw c ensure method path body tls = record {
    framed = λ s h. (IsQuiet-request_over c ensure method path body tls s.ctx.transport).framed s h;
  }

  -- Inside a check-in an unauthenticated request is the same whichever check-in it could call,
  -- whichever token acquisition, and whether or not recovery is enabled: neither is reached.
  pub request_raw-in_checkin :
      (c c' : Prog (Unit {0})) (ensure ensure' : Bytes → Prog Bytes) (method : HttpMethod)
      (path : Bytes) (body : Option Bytes) (tls : TlsReqOverride) (s : State E.World)
      → s.ctx.in_checkin ≡ true
      → request_raw c ensure method path body none tls s
        ≡ request_raw c' ensure' method path body none tls s
  unfolding request_raw bearer_for reauthenticate
  request_raw-in_checkin c c' ensure ensure' method path body tls s h = same s.ctx.transport
    where
      in_checkin_kept :
          (t : ℕ) → (do_send t method path body none tls false s).1.ctx.in_checkin ≡ true
      in_checkin_kept t =
          ap (λ (d : Ctx). d.in_checkin) (do_send-ctx t method path body none tls false s) ∙ h

      one_exchange :
          (t : ℕ)
          → exchange c t path tls
              (do_send t method path body none tls false)
              (do_send t method path body none tls true)
              s
            ≡ exchange c' t path tls
                (do_send t method path body none tls false)
                (do_send t method path body none tls true)
                s
      one_exchange t =
          exchange-settle c t path tls _ _ s _ refl (in_checkin_kept t)
          ∙ sym (exchange-settle c' t path tls _ _ s _ refl (in_checkin_kept t))

      same :
          (t : Option ℕ)
          → request_over c ensure method path body none tls t s
            ≡ request_over c' ensure' method path body none tls t s
      same none = refl
      same (some t) = rw (one_exchange t)

  IsQuiet-parse : (input : Bytes) → IsQuiet (json_parse (some input))
  IsQuiet-parse input = record { framed = λ s h. unfold json_parse in refl }

  IsQuiet-hand_over : (root : Option E.Node) → IsQuiet (hand_over root)
  IsQuiet-hand_over none = record { framed = λ s h. refl }
  IsQuiet-hand_over (some node) = IsQuiet-return node

  pub IsQuiet-request_json :
      (c : Prog (Unit {0})) (ensure : Bytes → Prog Bytes) (method : HttpMethod) (path : Bytes)
      (body : Option Bytes) (tls : TlsReqOverride)
      → IsQuiet (request_json c ensure method path body none tls)
  unfolding request_json
  IsQuiet-request_json c ensure method path body tls =
      IsQuiet-bind (IsQuiet-request_raw c ensure method path body tls) λ response.
        IsQuiet-bind (IsQuiet-parse (c_string response))
          λ root. IsQuiet-if (json_is_object root) (IsQuiet-hand_over root) (IsQuiet-fail _ 0 _ _)
