-- ===== src/Session/Outcome.antt =====
-- What a login, a mobile login and a logout (src/proto_auth.c) leave behind.
use encedo_hem_c_api.Prelude.{
  Bool, true, false, not, Option, none, some, [], Bytes, ◌≡◌, ◌⊎◌, inl, inr, arith, Bool-cases,
  Option-cases,
}
use encedo_hem_c_api.Rc.{nomem}
use encedo_hem_c_api.Env.{Env, Result, ok, err}
use encedo_hem_c_api.Context.{Ctx, Auth, no_error, clear_error}
use encedo_hem_c_api.Context.Fail.{fail}
use encedo_hem_c_api.Session.{zeroed, ensure_auth, login, login_mobile}
use encedo_hem_c_api.Monad.{State}

-- The two ends of a login: the session `a` is in place and the error cleared, or memory has run
-- out and whatever session there was stands. Nothing else of the context changes.
abbrev pub IsLogin : Auth → Ctx → Result (Unit {0}) → Ctx → Type 0
IsLogin a c r c' =
    ((r ≡ ok tt) × (c' ≡ record c { auth = some a; last_error = no_error }))
    ⊎ ((r ≡ err nomem) × (c' ≡ record c { last_error = c'.last_error }))

-- `calloc` clears the flag, and a mobile login does not write it.
abbrev pub retain_of : Option Auth → Bool
retain_of none = false
retain_of (some a) = a.retain

module _ ⦃E : Env⦄ where
  -- The session, made where there is none; or the failure, where there was none.
  ensure_auth-cases :
      (s : State E.World)
      → ((a : Auth) × (w : E.World) × (a.retain ≡ retain_of s.ctx.auth)
          × (ensure_auth s
              ≡ (ok a, record s { ctx = record (s.ctx) { auth = some a }; world = w })))
        ⊎ ((s' : State E.World) × (ensure_auth s ≡ (err nomem, s'))
            × (s'.ctx ≡ record (s.ctx) { last_error = s'.ctx.last_error }))
  unfolding ensure_auth fail
  ensure_auth-cases s = elim (Option-cases s.ctx.auth) [
    | inr (a, there) ↦ inl (a, s.world, ground arith, ground arith)
    | inl fresh ↦ elim (Bool-cases (E.alloc s.world).0) [
      | inl room ↦ inl (zeroed, (E.alloc s.world).1, ground arith, ground arith)
      | inr full ↦ inr ((ensure_auth s).1, ground arith, ground arith)
    ]
  ]

  -- A login with a passphrase starts a session with that passphrase, no name and no tokens, which
  -- keeps the passphrase unless the context says otherwise; or it fails for want of memory, and
  -- then a session that was there is untouched.
  pub login-IsLogin :
      (passphrase : Bytes) (s : State E.World)
      → IsLogin
          (record {
            passphrase = some passphrase;
            retain = not s.ctx.no_credential_retention;
            username = none;
            mobile = false;
            cache = [];
          })
          s.ctx
          (login (some passphrase) s).0
          (login (some passphrase) s).1.ctx
  unfolding login clear_error fail
  login-IsLogin passphrase s =
      let cleared = record s { ctx = clear_error s.ctx; world = (E.alloc s.world).1 } in
      elim (Bool-cases (E.alloc s.world).0) [
        | inr full ↦ inr (ground arith, ground arith)
        | inl copied ↦ elim (ensure_auth-cases cleared) [
          | inl (a, w, kept, there) ↦ inl (ground arith, ground arith)
          | inr (s', none_made, same) ↦ inr (ground arith, ground arith)
        ]
      ]

  -- A mobile login starts a session with no passphrase, no name and no tokens, and leaves the
  -- flag that says whether to keep a passphrase as it was; or it fails for want of memory.
  pub login_mobile-IsLogin :
      (s : State E.World)
      → IsLogin
          (record {
            passphrase = none;
            retain = retain_of s.ctx.auth;
            username = none;
            mobile = true;
            cache = [];
          })
          s.ctx
          (login_mobile s).0
          (login_mobile s).1.ctx
  unfolding login_mobile clear_error
  login_mobile-IsLogin s =
      let cleared = record s { ctx = clear_error s.ctx } in
      elim (ensure_auth-cases cleared) [
        | inl (a, w, kept, there) ↦ inl (ground arith, ground arith)
        | inr (s', none_made, same) ↦ inr (ground arith, ground arith)
      ]
