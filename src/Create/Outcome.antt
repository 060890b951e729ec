-- ===== src/Create/Outcome.antt =====
-- What `ehem_ctx_create` (src/context.c) gives.
use encedo_hem_c_api.Prelude.{
  ℕ, ◌<◌, Bool, true, false, Option, none, some, Bytes, ◌≡◌, refl, ◌≢◌, inl, inr, arith, Bool-cases,
  leb,
}
use encedo_hem_c_api.Prelude.Int.{ℤ}
use encedo_hem_c_api.Env.{Env, Result, ok, err}
use encedo_hem_c_api.Context.{Ctx}
use encedo_hem_c_api.Global.{global_init}
use encedo_hem_c_api.Global.Outcome.{global_init-again}
use encedo_hem_c_api.Monad.{State, ◌>>◌}
use encedo_hem_c_api.Monad.Post.{Post, after_given, post-ok}
use encedo_hem_c_api.Create.{
  update, copy_into, copy_ca, check_ca, copy_url, apply_options, own_transport, ensure_transport,
  construct, stamped, handed_out, ctx_create,
}
use encedo_hem_c_api.Options.{
  url_is_valid, Options, if_positive, wants_ca, zero_ctx, default_ctx, with_timeouts, with_flags,
  given, if_given, opt_has,
}

-- The settings of a context that is fit for use.
abbrev pub IsConfigured : Ctx → Type 0
IsConfigured c =
    (0 < c.connect_timeout_ms)
    × (0 < c.total_timeout_ms)
    × (0 < c.confirm_timeout_ms)
    × (wants_ca c.tls_mode c.ca_file ≡ false)
    × (c.in_checkin ≡ false)
    × (c.cert_refreshed ≡ false)
    × (c.auth ≡ none)

-- And with a transport: the caller's, which is borrowed, or one that the context owns.
abbrev pub IsConnected : Option ℕ → Ctx → Type 0
IsConnected none c = (c.transport ≢ none) × (c.owns_transport ≡ true)
IsConnected (some t) c = (c.transport ≡ some t) × (c.owns_transport ≡ false)

abbrev pub caller_transport : Option Options → Option ℕ
caller_transport none = none
caller_transport (some o) = given (leb 48 o.abi_size) o.transport

-- On the way there: the CA file may still be missing.
abbrev IsStarted : Ctx → Type 0
IsStarted c =
    (0 < c.connect_timeout_ms)
    × (0 < c.total_timeout_ms)
    × (0 < c.confirm_timeout_ms)
    × (c.in_checkin ≡ false)
    × (c.cert_refreshed ≡ false)
    × (c.auth ≡ none)

abbrev IsBorrowing : Option ℕ → Ctx → Type 0
IsBorrowing t c = (c.transport ≡ t) × (c.owns_transport ≡ false)

if_given-none : (x : Option ℕ) → if_given x none ≡ x
if_given-none none = refl
if_given-none (some t) = refl

if_positive-pos : (b : Bool) (v : ℤ) (d : ℕ) → 0 < d → 0 < if_positive b v d
if_positive-pos b v d h = ground arith

-- A step keeps a condition on the context, whether it ends well or not.
module _ ⦃E : Env⦄ where
  copy_into-Post :
      (P : Ctx → Type 0) (f : Ctx → Ctx) (s : State E.World)
      → P (f s.ctx)
      → Post (λ u c. P c) (copy_into f s)
  copy_into-Post P f s h = elim (Bool-cases (E.alloc s.world).0) [
    | inl room ↦ rw room h
    | inr full ↦ rw full tt
  ]

  pub copy_ca-Post :
      (P : Ctx → Type 0) (file : Option Bytes) (s : State E.World)
      → P s.ctx
      → ((f : Bytes) → P (record (s.ctx) { ca_file = some f }))
      → Post (λ u c. P c) (copy_ca file s)
  copy_ca-Post P none s h k = h
  copy_ca-Post P (some f) s h k = copy_into-Post P (λ c. record c { ca_file = some f }) s (k f)

  check_ca-Post :
      (t : Option ℕ) (s : State E.World)
      → IsStarted s.ctx × IsBorrowing t s.ctx
      → Post (λ u c. IsConfigured c × IsBorrowing t c) (check_ca s)
  check_ca-Post t s h = elim (Bool-cases (wants_ca s.ctx.tls_mode s.ctx.ca_file)) [
    | inl missing ↦ rw missing tt
    | inr fine ↦ rw fine (ground (arith, h))
  ]

  abbrev Started : Option ℕ → Unit {0} → Ctx → Type 0
  Started t u c = IsStarted c × IsBorrowing t c

  with_flags-Started :
      (o : Options) (s : State E.World)
      → IsStarted s.ctx × IsBorrowing none s.ctx
      → Started (given (leb 48 o.abi_size) o.transport) tt (with_flags o s.ctx)
  with_flags-Started o s h = ground (
    arith,
    h,
    if_given-none (given (leb 48 o.abi_size) o.transport),
    if_positive-pos (leb 96 o.abi_size) o.confirm_timeout_ms s.ctx.confirm_timeout_ms,
  )

  apply_options-Post :
      (opts : Option Options) (s : State E.World)
      → s.ctx ≡ zero_ctx
      → Post (λ u c. IsConfigured c × IsBorrowing (caller_transport opts) c) (apply_options opts s)
  unfolding apply_options
  apply_options-Post none s e = elim (Bool-cases (E.alloc s.world).0) [
    | inl room ↦ rw (room, e) (ground arith)
    | inr full ↦ rw full tt
  ]
  apply_options-Post (some o) s e =
      let t = caller_transport (some o) in
      let W = λ (u : Unit {0}) (c : Ctx). IsConfigured c × IsBorrowing t c in
      let s1 = record s { ctx = with_timeouts o (default_ctx s.ctx) } in
      let base : Started none tt s1.ctx = rw e (
        (
          if_positive-pos (opt_has o 16) o.connect_timeout_ms 10000 (omega arith),
          if_positive-pos (opt_has o 24) o.total_timeout_ms 30000 (omega arith),
          omega arith,
          refl,
          refl,
          refl,
        ),
        (refl, refl),
      ) in
      after_given W (Started none) (copy_ca (given (opt_has o 40) o.ca_file) s1)
        (λ u. update (with_flags o) >> (copy_url o >> check_ca))
        (copy_ca-Post (Started none tt) (given (opt_has o 40) o.ca_file) s1 base (λ f. base))
        λ u s2 h.
          let s3 = record s2 { ctx = with_flags o s2.ctx } in
          after_given W (Started t) (copy_url o s3) (λ u'. check_ca)
            (copy_into-Post (Started t tt) _ s3 (with_flags-Started o s2 h))
            λ u' s4 k. check_ca-Post t s4 k

  kept-Post :
      (P : Ctx → Type 0) (r : Result (Unit {0}) × State E.World) → P r.1.ctx → Post (λ u c. P c) r
  kept-Post P (ok u, s) h = h
  kept-Post P (err rc, s) h = tt

  own_transport-Post :
      (t : Option ℕ) (s : State E.World)
      → IsConfigured s.ctx
      → Post (λ u c. IsConfigured c × IsConnected none c) (own_transport t s)
  own_transport-Post none s h = tt
  own_transport-Post (some t) s h = (h, (λ e. cc, refl))

  -- The built-in transport comes with its context.
  ensure_transport-Post :
      (t : Option ℕ) (s : State E.World)
      → IsConfigured s.ctx × IsBorrowing t s.ctx
      → Post (λ u c. IsConfigured c × IsConnected t c) (ensure_transport t s)
  ensure_transport-Post (some t) s h = h
  ensure_transport-Post none s h =
      let W = λ (u : Unit {0}) (c : Ctx). IsConfigured c × IsConnected none c in
      let same = (global_init-again s).0 in
      after_given W (λ u c. IsConfigured c) (global_init s) _
        (kept-Post IsConfigured (global_init s) (rw same h.0))
        λ u s1 k. own_transport-Post _ (record s1 { world = _ }) k

  ensure_transport-at :
      (t t' : Option ℕ) (s : State E.World)
      → t' ≡ t
      → IsConfigured s.ctx × IsBorrowing t s.ctx
      → Post (λ u c. IsConfigured c × IsConnected t c) (ensure_transport t' s)
  ensure_transport-at t t' s e h = rw e (ensure_transport-Post t s h)

  construct-Post :
      (url : Bytes) (opts : Option Options) (s : State E.World)
      → s.ctx ≡ zero_ctx
      → Post (λ u c. IsConfigured c × IsConnected (caller_transport opts) c) (construct url opts s)
  unfolding construct
  construct-Post url opts s e =
      let t = caller_transport opts in
      let V = λ (u : Unit {0}) (c : Ctx). IsConfigured c × IsBorrowing t c in
      let W = λ (u : Unit {0}) (c : Ctx). IsConfigured c × IsConnected t c in
      after_given W V (apply_options opts s) _ (apply_options-Post opts s e) λ u s1 h.
        after_given W V (copy_into (λ c. record c { url = url }) s1) _
          (copy_into-Post (V tt) (λ c. record c { url = url }) s1 h)
          λ u' s2 k. ensure_transport-at t s2.ctx.transport s2 k.1.0 k

  -- A context that is handed out for a URL is configured, and has a transport.
  IsFit : Bytes → Option Options → Ctx → Ctx → Type 0
  IsFit url opts c c' =
      (url_is_valid url ≡ true) × IsConfigured c × IsConnected (caller_transport opts) c

  handed_out-IsFit :
      (url : Bytes) (opts : Option Options) (r : Result (Unit {0}) × State E.World)
      → url_is_valid url ≡ true
      → Post (λ u c. IsConfigured c × IsConnected (caller_transport opts) c) r
      → Post (IsFit url opts) (handed_out r)
  unfolding IsFit
  handed_out-IsFit url opts (ok u, s) v h = (v, h.0, h.1)
  handed_out-IsFit url opts (err rc, s) v h = tt

  ctx_create-Post :
      (url : Bytes) (opts : Option Options) (s : State E.World)
      → Post (IsFit url opts) (ctx_create url opts s)
  unfolding ctx_create
  ctx_create-Post url opts s = elim (Bool-cases (url_is_valid url)) [
    | inr bad ↦ rw bad tt
    | inl good ↦ elim (Bool-cases (stamped opts)) [
      | inr raw ↦ rw (good, raw) tt
      | inl fine ↦ elim (Bool-cases (E.alloc s.world).0) [
        | inr full ↦ rw (good, fine, full) tt
        | inl room ↦
            rw (good, fine, room)
              (handed_out-IsFit url opts _ good (construct-Post url opts _ refl))
      ]
    ]
  ]

  -- A context is created for a valid URL only, and then it is fit for use: its timeouts are
  -- positive, a mode that names a CA file has one, it has no session, is not in a check-in, and
  -- has a transport, which is the caller's and borrowed, or its own if the caller gave none.
  pub ctx_create-IsConfigured :
      (url : Bytes) (opts : Option Options) (c : Ctx) (s s' : State E.World)
      → ctx_create url opts s ≡ (ok c, s')
      → (url_is_valid url ≡ true) × IsConfigured c × IsConnected (caller_transport opts) c
  unfolding IsFit
  ctx_create-IsConfigured url opts c s s' h =
      post-ok (IsFit url opts) _ c s' (ctx_create-Post url opts s) h
