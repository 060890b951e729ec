-- ===== src/Request/Keeps.antt =====
-- Programs that leave the session and its tokens as they are. A request without a scope is one,
-- whatever recovery it takes (src/proto_common.c, src/proto_system.c).
use encedo_hem_c_api.Prelude.{
  ℕ, Bool, true, false, Option, none, some, [], ◌∷◌, ◌++◌, Bytes, codes, c_string, take, ltb, leb,
  ◌||◌, ◌≡◌, refl, ap, ◌∙◌, if◌then◌else◌, arith,
}
use encedo_hem_c_api.Rc.{Rc, arg, protocol, map_http_status}
use encedo_hem_c_api.Env.{Env, Result, ok, err, HttpMethod, TlsReqOverride, Request, Response}
use encedo_hem_c_api.Context.{Ctx}
use encedo_hem_c_api.Context.Fail.{fail, mark_expired}
use encedo_hem_c_api.Transport.{transport_send, last_detail, last_tls_expired}
use encedo_hem_c_api.Json.{json_parse, json_is_object}
use encedo_hem_c_api.Send.{pace, do_send, request_of}
use encedo_hem_c_api.Checkin.{checkin_run}
use encedo_hem_c_api.Checkin.Frame.{checkin_run-ctx}
use encedo_hem_c_api.Monad.{
  State, Prog, attempt, get_ctx, outside, return, throw, ◌>>=◌, bind_result,
}
use encedo_hem_c_api.Request.{
  bearer_for, transport_failure, may_recover, after_retry, after_checkin, after_first, exchange,
  recover_certificate, reauthenticate, deliver_body, deliver, request_over, request_raw, hand_over,
  request_json, shape_error,
}

module _ ⦃E : Env⦄ where
  pub record Keeps {A : Type 0} (m : Prog A) : Type 0 where
    pub kept : (s : State E.World) → (m s).1.ctx.auth ≡ s.ctx.auth

  after :
      {A B : Type 0} (r : Result A × State E.World) (f : A → Prog B)
      → ((a : A) → Keeps (f a))
      → (bind_result r f).1.ctx.auth ≡ r.1.ctx.auth
  after (ok a, s) f k = (k a).kept s
  after (err rc, s) f k = refl

  pub Keeps-bind :
      {A B : Type 0} {m : Prog A} {f : A → Prog B}
      → Keeps m
      → ((a : A) → Keeps (f a))
      → Keeps (m >>= f)
  Keeps-bind {m = m} {f = f} h k = record { kept = λ s. after (m s) f k ∙ h.kept s }

  pub Keeps-return : {A : Type 0} (a : A) → Keeps (return a)
  Keeps-return a = record { kept = λ s. refl }

  pub Keeps-throw : {A : Type 0} (rc : Rc) → Keeps (throw {A = A} rc)
  Keeps-throw rc = record { kept = λ s. refl }

  pub Keeps-outside : {A : Type 0} (f : E.World → A × E.World) → Keeps (outside f)
  Keeps-outside f = record { kept = λ s. refl }

  pub Keeps-fail :
      {A : Type 0} (rc : Rc) (status : ℕ) (payload : Option Bytes) (message : Bytes)
      → Keeps (fail {A = A} rc status payload message)
  unfolding fail
  Keeps-fail rc status none message = record { kept = λ s. refl }
  Keeps-fail rc status (some p) message = record { kept = λ s. refl }

  pub Keeps-attempt : {A : Type 0} {m : Prog A} → Keeps m → Keeps (attempt m)
  Keeps-attempt h = record { kept = λ s. h.kept s }

  pub Keeps-get_ctx : Keeps get_ctx
  Keeps-get_ctx = record { kept = λ s. refl }

  pub Keeps-if :
      {A : Type 0} {m k : Prog A} (b : Bool) → Keeps m → Keeps k → Keeps (if b then m else k)
  Keeps-if true p q = p
  Keeps-if false p q = q

  either :
      {A : Type 0} (b : Bool) (x y : Result A × State E.World) (s : State E.World)
      → x.1.ctx.auth ≡ s.ctx.auth
      → y.1.ctx.auth ≡ s.ctx.auth
      → (if b then x else y).1.ctx.auth ≡ s.ctx.auth
  either true x y s p q = p
  either false x y s p q = q

  -- A branch on the state, as the code takes it after a call.
  pub Keeps-test :
      {A : Type 0} (test : State E.World → Bool) (m k : State E.World → Prog A)
      → ((s : State E.World) → Keeps (m s))
      → ((s : State E.World) → Keeps (k s))
      → Keeps (λ s. if test s then m s s else k s s)
  Keeps-test test m k p q = record {
    kept = λ s. either (test s) (m s s) (k s s) s ((p s).kept s) ((q s).kept s);
  }

  Keeps-mark : {A : Type 0} {m : Prog A} (b : Bool) → Keeps m → Keeps (mark_expired b m)
  unfolding mark_expired
  Keeps-mark b h = record { kept = λ s. h.kept s }

  pub Keeps-checkin_run : (b : Bool) → Keeps (checkin_run b)
  Keeps-checkin_run b = record { kept = λ s. ap (λ (c : Ctx). c.auth) (checkin_run-ctx b s) }

  pub Keeps-transport_send : (t : Option ℕ) (req : Request) → Keeps (transport_send t req)
  unfolding transport_send
  Keeps-transport_send t req = record { kept = λ s. ground arith }

  pub Keeps-pace : (ms : ℕ) → Keeps (pace ms)
  unfolding pace
  Keeps-pace ms = record { kept = λ s. ground arith }

  Keeps-do_send :
      (t : ℕ) (method : HttpMethod) (path : Bytes) (body bearer : Option Bytes)
      (tls : TlsReqOverride) (fresh : Bool)
      → Keeps (do_send t method path body bearer tls fresh)
  unfolding do_send
  Keeps-do_send t method path body bearer tls fresh = Keeps-bind Keeps-get_ctx λ ctx.
      Keeps-bind (Keeps-pace ctx.request_pace_ms)
        λ u. Keeps-transport_send (some t) (request_of ctx method path body bearer tls fresh)

  Keeps-transport_failure :
      {A : Type 0} (t : ℕ) (path : Bytes) (rc : Rc) → Keeps (transport_failure {A = A} t path rc)
  unfolding transport_failure
  Keeps-transport_failure t path rc = record {
    kept = λ s. (Keeps-mark (last_tls_expired (some t) s) (Keeps-fail rc 0 none _)).kept s;
  }

  Keeps-after_retry :
      (t : ℕ) (path : Bytes) (orig_rc : Rc) (detail : Bytes) (r : Result Response)
      → Keeps (after_retry t path orig_rc detail r)
  unfolding after_retry
  Keeps-after_retry t path orig_rc detail (ok resp) = record { kept = λ s. refl }
  Keeps-after_retry t path orig_rc detail (err rc) =
      Keeps-test (last_tls_expired (some t)) _ _
        (λ s. Keeps-mark true (Keeps-fail orig_rc 0 none _))
        (λ s. Keeps-transport_failure t path rc)

  Keeps-after_checkin :
      (t : ℕ) (path : Bytes) (rc : Rc) (detail : Bytes) {resend : Prog Response}
      (r : Result (Unit {0}))
      → Keeps resend
      → Keeps (after_checkin t path rc detail resend r)
  unfolding after_checkin
  Keeps-after_checkin t path rc detail (ok x) p =
      Keeps-bind (Keeps-attempt p) (Keeps-after_retry t path rc detail)
  Keeps-after_checkin t path rc detail (err x) p = record {
    kept = λ s. (Keeps-mark true (Keeps-fail rc 0 none _)).kept s;
  }

  Keeps-exchange :
      (t : ℕ) (path : Bytes) (tls : TlsReqOverride) {first resend : Prog Response}
      → Keeps first
      → Keeps resend
      → Keeps (exchange (checkin_run true) t path tls first resend)
  unfolding exchange recover_certificate
  Keeps-exchange t path tls {first = first} {resend = resend} q p =
      Keeps-bind (Keeps-attempt q) behind
    where
      behind : (r : Result Response) → Keeps (after_first (checkin_run true) t path tls resend r)
      behind (ok resp) = Keeps-return resp
      behind (err rc) =
          Keeps-test (may_recover t tls)
            (λ s.
              recover_certificate (checkin_run true) t path rc (take 255 (last_detail (some t) s))
                resend)
            (λ s. transport_failure t path rc)
            (λ s.
              Keeps-bind (Keeps-attempt (Keeps-checkin_run true))
                λ c. Keeps-after_checkin t path rc (take 255 (last_detail (some t) s)) c p)
            (λ s. Keeps-transport_failure t path rc)

  Keeps-deliver_body :
      (path : Bytes) (status : ℕ) (body : Option Bytes) → Keeps (deliver_body path status body)
  unfolding deliver_body
  Keeps-deliver_body path status (some (c ∷ cs)) = Keeps-return (c ∷ cs)
  Keeps-deliver_body path status (some []) = Keeps-fail _ status none _
  Keeps-deliver_body path status none = Keeps-fail _ status none _

  Keeps-deliver : (path : Bytes) (resp : Response) → Keeps (deliver path resp)
  unfolding deliver
  Keeps-deliver path resp =
      Keeps-if (ltb resp.status 200 || leb 300 resp.status)
        (Keeps-fail (map_http_status resp.status) resp.status resp.body _)
        (Keeps-deliver_body path resp.status resp.body)

  module _ (ensure : Bytes → Prog Bytes) (method : HttpMethod) (path : Bytes) (body : Option Bytes)
      (tls : TlsReqOverride) where
    Keeps-request_over :
        (t : Option ℕ) → Keeps (request_over (checkin_run true) ensure method path body none tls t)
    unfolding request_over bearer_for reauthenticate
    Keeps-request_over none = Keeps-fail arg 0 none _
    Keeps-request_over (some t) =
        Keeps-bind
          (Keeps-exchange t path tls (Keeps-do_send t method path body none tls false)
            (Keeps-do_send t method path body none tls true))
          λ resp. Keeps-deliver path resp

    Keeps-request_raw : Keeps (request_raw (checkin_run true) ensure method path body none tls)
    unfolding request_raw
    Keeps-request_raw = Keeps-bind Keeps-get_ctx λ ctx. Keeps-request_over ctx.transport

    Keeps-hand_over : (root : Option E.Node) → Keeps (hand_over root)
    Keeps-hand_over none = Keeps-throw _
    Keeps-hand_over (some node) = Keeps-return node

    -- A request without a scope leaves the session and its tokens as they are.
    pub Keeps-request_json :
        Keeps (request_json (checkin_run true) ensure method path body none tls)
    unfolding request_json json_parse
    Keeps-request_json = Keeps-bind Keeps-request_raw λ response.
        Keeps-bind (Keeps-outside (E.parse_with_length (c_string response))) λ root.
          Keeps-if (json_is_object root) (Keeps-hand_over root)
            (Keeps-fail protocol 0 (some response) (path ++ codes ": " ++ shape_error root))
