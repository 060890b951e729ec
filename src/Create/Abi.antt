-- ===== src/Create/Abi.antt =====
-- The options of src/context.c: their defaults, and the size that guards them.
use encedo_hem_c_api.Prelude.{
  ℕ, ◌≤◌, Bool, true, false, Option, none, some, Bytes, leb, ◌≡◌, refl, inl, inr, arith, Bool-cases,
}
use encedo_hem_c_api.Prelude.Int.{ℤ, pos}
use encedo_hem_c_api.Env.{Env, Result, ok, err}
use encedo_hem_c_api.Monad.{State, Prog, bind_result, ◌>>◌}
use encedo_hem_c_api.Context.{Ctx}
use encedo_hem_c_api.Monad.Post.{Post}
use encedo_hem_c_api.Create.Outcome.{copy_ca-Post}
use encedo_hem_c_api.Create.{
  apply_options, construct, ctx_create, copy_ca, copy_url, check_ca, update,
}
use encedo_hem_c_api.Options.{
  Options, options_init, options_size, if_has, if_positive, given, opt_has, zero_ctx, default_ctx,
  with_timeouts, with_flags, url_is_valid,
}

module _ ⦃E : Env⦄ where
  apply_options-options_init :
      (s : State E.World) (b : Bool)
      → s.ctx ≡ zero_ctx
      → (E.alloc s.world).0 ≡ b
      → apply_options none s ≡ apply_options (some options_init) s
  unfolding apply_options
  apply_options-options_init s true e h = ground (arith, e, h)
  apply_options-options_init s false e h = ground (arith, e, h)

  construct-options_init :
      (url : Bytes) (s : State E.World)
      → s.ctx ≡ zero_ctx
      → construct url none s ≡ construct url (some options_init) s
  unfolding construct
  construct-options_init url s e = rw (apply_options-options_init s (E.alloc s.world).0 e refl)

  -- A context created with no options is the one created with options that `ehem_options_init`
  -- has filled in, and so is all that its creation does, at every outcome.
  pub ctx_create-options_init :
      (url : Bytes) (s : State E.World)
      → ctx_create url none s ≡ ctx_create url (some options_init) s
  unfolding ctx_create
  ctx_create-options_init url s = elim (Bool-cases (url_is_valid url)) [
    | inr bad ↦ rw bad
    | inl good ↦ elim (Bool-cases (E.alloc s.world).0) [
      | inr full ↦ rw (good, full)
      | inl room ↦ rw (
        good,
        room,
        construct-options_init url (record s { ctx = zero_ctx; world = (E.alloc s.world).1 }) refl,
      )
    ]
  ]

-- The options as a caller of the present size would have to give them: a field that the given size
-- does not cover has its default.
abbrev pub completed : Options → Options
completed o = record {
  abi_size = options_size;
  connect_timeout_ms = if_has (opt_has o 16) o.connect_timeout_ms options_init.connect_timeout_ms;
  total_timeout_ms = if_has (opt_has o 24) o.total_timeout_ms options_init.total_timeout_ms;
  tls_mode = if_has (opt_has o 28) o.tls_mode options_init.tls_mode;
  ca_file = if_has (opt_has o 40) o.ca_file options_init.ca_file;
  transport = if_has (opt_has o 48) o.transport options_init.transport;
  no_auto_checkin = if_has (opt_has o 52) o.no_auto_checkin options_init.no_auto_checkin;
  checkin_url = if_has (opt_has o 64) o.checkin_url options_init.checkin_url;
  no_credential_retention =
      if_has (opt_has o 68) o.no_credential_retention options_init.no_credential_retention;
  request_pace_ms = if_has (opt_has o 80) o.request_pace_ms options_init.request_pace_ms;
  checkin_on_login = if_has (opt_has o 84) o.checkin_on_login options_init.checkin_on_login;
  confirm_timeout_ms = if_has (opt_has o 96) o.confirm_timeout_ms options_init.confirm_timeout_ms;
  confirm_notice = if_has (opt_has o 104) o.confirm_notice options_init.confirm_notice;
  confirm_notice_arg = if_has (opt_has o 112) o.confirm_notice_arg options_init.confirm_notice_arg;
}

positive-10000 :
    (h : Bool) (v : ℤ) → if_positive h v 10000 ≡ if_positive true (if_has h v (pos 10000)) 10000
positive-10000 true v = refl
positive-10000 false v = refl

positive-30000 :
    (h : Bool) (v : ℤ) → if_positive h v 30000 ≡ if_positive true (if_has h v (pos 30000)) 30000
positive-30000 true v = refl
positive-30000 false v = refl

positive-zero :
    (h : Bool) (v : ℤ) (d : ℕ) → if_positive h v d ≡ if_positive true (if_has h v (pos 0)) d
positive-zero true v d = refl
positive-zero false v d = refl

given-has : {A : Type 0} (h : Bool) (v : Option A) → given h v ≡ if_has h v none
given-has true v = refl
given-has false v = refl

with_timeouts-completed :
    (o : Options)
    → with_timeouts o (default_ctx zero_ctx) ≡ with_timeouts (completed o) (default_ctx zero_ctx)
with_timeouts-completed o = rw (
  positive-10000 (opt_has o 16) o.connect_timeout_ms,
  positive-30000 (opt_has o 24) o.total_timeout_ms,
  positive-zero (opt_has o 80) o.request_pace_ms 0,
)

-- The settings that are still at their defaults when the later fields are read.
abbrev IsPlain : Ctx → Type 0
IsPlain c =
    (c.no_auto_checkin ≡ false)
    × (c.no_credential_retention ≡ false)
    × (c.checkin_on_login ≡ false)
    × (c.confirm_notice ≡ none)
    × (c.confirm_notice_arg ≡ 0)

with_flags-completed :
    (o : Options) (c : Ctx) → IsPlain c → with_flags o c ≡ with_flags (completed o) c
with_flags-completed o c (a, b, d, e, f) = rw (
  a,
  b,
  d,
  e,
  f,
  given-has (opt_has o 48) o.transport,
  positive-zero (opt_has o 96) o.confirm_timeout_ms c.confirm_timeout_ms,
)

module _ ⦃E : Env⦄ where
  -- Two continuations that agree where the first step may end.
  bind_same :
      (P : Unit {0} → Ctx → Type 0) (r : Result (Unit {0}) × State E.World)
      (f g : Unit {0} → Prog (Unit {0}))
      → Post P r
      → ((u : Unit {0}) (s : State E.World) → P u s.ctx → f u s ≡ g u s)
      → bind_result r f ≡ bind_result r g
  bind_same P (ok u, s) f g p same = same u s p
  bind_same P (err rc, s) f g p same = refl

  -- What `apply_options` does behind the CA file.
  abbrev behind_ca : Options → Prog (Unit {0})
  behind_ca o = update (with_flags o) >> (copy_url o >> check_ca)

  behind_ca-completed :
      (o : Options) (s : State E.World) → IsPlain s.ctx → behind_ca o s ≡ behind_ca (completed o) s
  behind_ca-completed o s plain =
      rw (with_flags-completed o s.ctx plain, given-has (opt_has o 64) o.checkin_url)

  apply_options-completed :
      (o : Options) (s : State E.World)
      → s.ctx ≡ zero_ctx
      → apply_options (some o) s ≡ apply_options (some (completed o)) s
  unfolding apply_options
  apply_options-completed o s e =
      let s1 = record s { ctx = with_timeouts (completed o) (default_ctx zero_ctx) } in
      let file = if_has (opt_has o 40) o.ca_file none in
      rw (e, with_timeouts-completed o, given-has (opt_has o 40) o.ca_file)
        (bind_same (λ u. IsPlain) (copy_ca file s1) (λ u. behind_ca o)
          (λ u. behind_ca (completed o))
          (copy_ca-Post IsPlain file s1 (refl, refl, refl, refl, refl)
            (λ f. (refl, refl, refl, refl, refl)))
          (λ u s2 plain. behind_ca-completed o s2 plain))

  construct-completed :
      (url : Bytes) (o : Options) (s : State E.World)
      → s.ctx ≡ zero_ctx
      → construct url (some o) s ≡ construct url (some (completed o)) s
  unfolding construct
  construct-completed url o s e = rw (apply_options-completed o s e)

  -- The guard on the size of the options is complete. Options of any size that is accepted (8
  -- bytes at least, for the size itself) make the same context, by the same steps and with the
  -- same failures, as options of the full size in which every field beyond the given size has
  -- its default: nothing that stands there is read.
  pub ctx_create-completed :
      (url : Bytes) (o : Options) (s : State E.World)
      → 8 ≤ o.abi_size
      → ctx_create url (some o) s ≡ ctx_create url (some (completed o)) s
  unfolding ctx_create
  ctx_create-completed url o s size =
      let begun = record s { ctx = zero_ctx; world = (E.alloc s.world).1 } in
      let fine : leb 8 o.abi_size ≡ true = ground arith in
      elim (Bool-cases (url_is_valid url)) [
        | inr bad ↦ rw bad
        | inl good ↦ elim (Bool-cases (E.alloc s.world).0) [
          | inr full ↦ rw (good, fine, full)
          | inl room ↦ rw (good, fine, room, construct-completed url o begun refl)
        ]
      ]
