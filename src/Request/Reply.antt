-- ===== src/Request/Reply.antt =====
-- What the request path of src/proto_common.c hands over, and what it records where it does not.
use encedo_hem_c_api.Prelude.{
  ℕ, ◌<◌, ◌≤◌, Bool, true, false, ◌||◌, Option, none, some, [], ◌∷◌, ◌++◌, Bytes, codes, c_string,
  ltb, leb, ◌≡◌, refl, ◌≢◌, ◌⊎◌, inl, inr, arith, Bool-cases, if◌then◌else◌,
}
use encedo_hem_c_api.Rc.{Rc, protocol, map_http_status}
use encedo_hem_c_api.Env.{Env, Result, ok, err, HttpMethod, TlsReqOverride, Response}
use encedo_hem_c_api.Context.{Ctx}
use encedo_hem_c_api.Context.Fail.{fail}
use encedo_hem_c_api.Json.{json_parse, json_is_object}
use encedo_hem_c_api.Monad.{State, Prog, ◌>>=◌}
use encedo_hem_c_api.Monad.Post.{Gives, Gives-fail, Gives-if, Gives-bind, post-ok}
use encedo_hem_c_api.Request.{
  bearer_for, exchange, reauthenticate, deliver_body, deliver, request_over, request_raw, hand_over,
  shape_error, request_json,
}
use encedo_hem_c_api.Send.{do_send}

module _ ⦃E : Env⦄ where
  -- A failure on record: the code, the status of the HTTP reply, and nothing else of the context.
  abbrev pub IsFailure : Rc → ℕ → State E.World → Result Bytes × State E.World → Type 0
  IsFailure rc status s (r, s') =
      (r ≡ err rc)
      × (s'.ctx.last_error.http_status ≡ status)
      × (s'.ctx ≡ record (s.ctx) { last_error = s'.ctx.last_error })

  fail-IsFailure :
      (rc : Rc) (status : ℕ) (payload : Option Bytes) (message : Bytes) (s : State E.World)
      → IsFailure rc status s (fail rc status payload message s)
  unfolding fail
  fail-IsFailure rc status none message s = (refl, refl, refl)
  fail-IsFailure rc status (some p) message s = (refl, refl, refl)

  deliver-rejected :
      (path : Bytes) (resp : Response) (s : State E.World)
      → (ltb resp.status 200 || leb 300 resp.status) ≡ true
      → IsFailure (map_http_status resp.status) resp.status s (deliver path resp s)
  unfolding deliver
  deliver-rejected path resp s h =
      rw h (fail-IsFailure (map_http_status resp.status) resp.status resp.body _ s)

  deliver-accepted :
      (path : Bytes) (resp : Response) (s : State E.World)
      → (ltb resp.status 200 || leb 300 resp.status) ≡ false
      → deliver path resp s ≡ deliver_body path resp.status resp.body s
  unfolding deliver
  deliver-accepted path resp s h = rw h

  -- The two ends of an accepted reply.
  abbrev IsHandedOver : ℕ → Option Bytes → State E.World → Result Bytes × State E.World → Type 0
  IsHandedOver status body s r =
      ((b : Bytes) × (body ≡ some b) × (b ≢ []) × (r ≡ (ok b, s)))
      ⊎ (((body ≡ none) ⊎ (body ≡ some [])) × IsFailure protocol status s r)

  deliver_body-IsHandedOver :
      (path : Bytes) (status : ℕ) (body : Option Bytes) (s : State E.World)
      → IsHandedOver status body s (deliver_body path status body s)
  unfolding deliver_body
  deliver_body-IsHandedOver path status (some (c ∷ cs)) s = inl (c ∷ cs, refl, (λ e. cc), refl)
  deliver_body-IsHandedOver path status (some []) s =
      inr (inr refl, fail-IsFailure protocol status none _ s)
  deliver_body-IsHandedOver path status none s =
      inr (inl refl, fail-IsFailure protocol status none _ s)

  -- The three ends of a reply, which are all there are. A status from 200 to 299 with a body that
  -- is not empty gives the body and changes nothing; such a status without a body is a protocol
  -- error; any other status gives the code that it maps to. Both failures record the status.
  pub deliver-cases :
      (path : Bytes) (resp : Response) (s : State E.World)
      → ((200 ≤ resp.status)
          × (resp.status < 300)
          × (((body : Bytes) × (resp.body ≡ some body)
                × (body ≢ [])
                × (deliver path resp s ≡ (ok body, s)))
              ⊎ (((resp.body ≡ none) ⊎ (resp.body ≡ some []))
                  × IsFailure protocol resp.status s (deliver path resp s))))
        ⊎ (((resp.status < 200) ⊎ (300 ≤ resp.status))
            × IsFailure (map_http_status resp.status) resp.status s (deliver path resp s))
  deliver-cases path resp s = elim (Bool-cases (ltb resp.status 200 || leb 300 resp.status)) [
    | inl outside_2xx ↦ inr (ground arith, deliver-rejected path resp s outside_2xx)
    | inr inside ↦ inl (
      ground arith,
      ground arith,
      rw (deliver-accepted path resp s inside)
          (deliver_body-IsHandedOver path resp.status resp.body s),
    )
  ]

  abbrev IsFilled : Bytes → Ctx → Type 0
  IsFilled body c = body ≢ []

  deliver_body-IsFilled :
      (path : Bytes) (status : ℕ) (body : Option Bytes)
      → Gives IsFilled (deliver_body path status body)
  unfolding deliver_body
  deliver_body-IsFilled path status (some (c ∷ cs)) = record { holds = λ s e. cc }
  deliver_body-IsFilled path status (some []) = Gives-fail IsFilled protocol status none _
  deliver_body-IsFilled path status none = Gives-fail IsFilled protocol status none _

  deliver-IsFilled : (path : Bytes) (resp : Response) → Gives IsFilled (deliver path resp)
  unfolding deliver
  deliver-IsFilled path resp =
      Gives-if IsFilled _
        (Gives-fail IsFilled (map_http_status resp.status) resp.status resp.body _)
        (deliver_body-IsFilled path resp.status resp.body)

  module _ (checkin : Prog (Unit {0})) (ensure : Bytes → Prog Bytes) (method : HttpMethod)
      (path : Bytes) (json_body scope : Option Bytes) (tls : TlsReqOverride) where
    request_over-IsFilled :
        (t : Option ℕ)
        → Gives IsFilled (request_over checkin ensure method path json_body scope tls t)
    unfolding request_over
    request_over-IsFilled none = Gives-fail IsFilled _ 0 none _
    request_over-IsFilled (some t) =
        Gives-bind IsFilled (bearer_for ensure scope) (λ bearer. first bearer >>= behind)
          λ bearer.
            Gives-bind IsFilled (first bearer) behind
              λ resp. Gives-bind IsFilled (again resp) (deliver path) (deliver-IsFilled path)
      where
        first : Option Bytes → Prog Response
        first bearer =
            exchange checkin t path tls (do_send t method path json_body bearer tls false)
              (do_send t method path json_body bearer tls true)

        again : Response → Prog Response
        again resp =
            reauthenticate ensure t path scope (λ b. do_send t method path json_body b tls true)
              resp

        behind : Response → Prog Bytes
        behind resp = again resp >>= deliver path

    -- A request that succeeds hands over a body, never an empty one, whatever recovery it took.
    request_raw-IsFilled :
        Gives IsFilled (request_raw checkin ensure method path json_body scope tls)
    unfolding request_raw
    request_raw-IsFilled = record { holds = λ s. (request_over-IsFilled s.ctx.transport).holds s }

    IsObject : E.Node → Ctx → Type 0
    IsObject root c = E.is_object root ≡ true

    hand_over-IsObject :
        (root : Option E.Node) → json_is_object root ≡ true → Gives IsObject (hand_over root)
    unfolding IsObject json_is_object
    hand_over-IsObject none h = record { holds = λ s. tt }
    hand_over-IsObject (some node) h = record { holds = λ s. h }

    checked_root :
        (body : Bytes) (root : Option E.Node) (b : Bool)
        → json_is_object root ≡ b
        → Gives IsObject (
            if b
            then hand_over root
            else fail protocol 0 (some body) (path ++ codes ": " ++ shape_error root))
    checked_root body root true h = hand_over-IsObject root h
    checked_root body root false h = Gives-fail IsObject protocol 0 (some body) _

    request_json-Gives :
        Gives IsObject (request_json checkin ensure method path json_body scope tls)
    unfolding request_json
    request_json-Gives =
        Gives-bind IsObject (request_raw checkin ensure method path json_body scope tls)
          (λ body. json_parse (some (c_string body)) >>= judged body)
          λ body.
            Gives-bind IsObject (json_parse (some (c_string body))) (judged body)
              λ root. checked_root body root (json_is_object root) refl
      where
        judged : Bytes → Option E.Node → Prog E.Node
        judged body root =
            if json_is_object root
            then hand_over root
            else fail protocol 0 (some body) (path ++ codes ": " ++ shape_error root)

  -- A request that succeeds, with or without a token and whatever recovery it took, hands over a
  -- body that is not empty, if it is to be raw, and otherwise the root of a JSON object.
  pub request_json-IsObject :
      (checkin : Prog (Unit {0})) (ensure : Bytes → Prog Bytes) (method : HttpMethod)
      (path body : Bytes) (json_body scope : Option Bytes) (tls : TlsReqOverride) (root : E.Node)
      (s s' t t' : State E.World)
      → request_raw checkin ensure method path json_body scope tls s ≡ (ok body, s')
      → request_json checkin ensure method path json_body scope tls t ≡ (ok root, t')
      → (body ≢ []) × (E.is_object root ≡ true)
  unfolding IsObject
  request_json-IsObject checkin ensure method path body json_body scope tls root s s' t t' h k = (
    post-ok IsFilled _ body s'
        ((request_raw-IsFilled checkin ensure method path json_body scope tls).holds s) h,
    post-ok (λ node c. E.is_object node ≡ true) _ root t'
        ((request_json-Gives checkin ensure method path json_body scope tls).holds t) k,
  )
