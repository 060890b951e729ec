-- ===== src/Session.antt =====
-- src/proto_auth.c, the session's life: login, mobile login, logout, and what drops a token.
-- Freed memory is gone from the model, and scrubbing it first leaves no trace there.
pub mod Outcome
mod Tests
use encedo_hem_c_api.Prelude.{
  ℕ, Bool, true, false, not, Option, none, some, List, [], Bytes, codes, if◌then◌else◌,
}
use encedo_hem_c_api.Rc.{Rc, arg, nomem}
use encedo_hem_c_api.Env.{Env, Result, ok, err}
use encedo_hem_c_api.Context.{Ctx, Auth, TokenEntry, clear_error}
use encedo_hem_c_api.Context.Fail.{fail}
use encedo_hem_c_api.Cache.{unlink}
use encedo_hem_c_api.Monad.{State, Prog, alloc, get_ctx, put_ctx, return, throw, ◌>>=◌, ◌>>◌}

-- What `calloc` gives for the auth state.
abbrev pub zeroed : Auth
zeroed = record { passphrase = none; retain = false; username = none; mobile = false; cache = [] }

abbrev pub scrub_passphrase : Auth → Auth
scrub_passphrase a = record a { passphrase = none }

abbrev pub cache_clear : Auth → Auth
cache_clear a = record a { cache = [] }

-- `ehem_auth_invalidate` on the auth state: one scope, or all for a NULL scope.
unfoldable pub invalidate_in : Option Bytes → Option Auth → Option Auth
invalidate_in scope none = none
invalidate_in none (some a) = some (cache_clear a)
invalidate_in (some scope) (some a) = some (record a { cache = unlink a.cache scope })

abbrev pub is_mobile : Option Auth → Bool
is_mobile none = false
is_mobile (some a) = a.mobile

unfoldable pub auth_is_mobile : Ctx → Bool
auth_is_mobile ctx = is_mobile ctx.auth

module _ ⦃E : Env⦄ where
  abbrev pub set_auth : Option Auth → Prog (Unit {0})
  set_auth a = do ctx ← get_ctx; put_ctx (record ctx { auth = a })

  abbrev pub auth_or_new : Option Auth → Prog Auth
  auth_or_new (some a) = return a
  auth_or_new none = do
    room ← alloc
    if room
        then (do set_auth (some zeroed); return zeroed)
        else fail nomem 0 none (codes "out of memory")

  -- `if (ctx->auth == NULL) ctx->auth = calloc(…)`
  unfoldable pub ensure_auth : Prog Auth
  ensure_auth = do ctx ← get_ctx; auth_or_new ctx.auth

  unfoldable pub auth_invalidate : Option Bytes → Prog (Unit {0})
  unfolding invalidate_in
  auth_invalidate scope = do ctx ← get_ctx; set_auth (invalidate_in scope ctx.auth)

  -- The copy of the passphrase is made first, so that a failure leaves any prior session as it is.
  login_with : Bytes → Prog (Unit {0})
  unfolding fail ensure_auth clear_error
  login_with passphrase = do
    ctx ← get_ctx
    put_ctx (clear_error ctx)
    copy ← alloc
    if copy
        then (do
          a ← ensure_auth
          c ← get_ctx
          set_auth (
              some (record (scrub_passphrase (cache_clear a)) {
                username = none;
                passphrase = some passphrase;
                retain = not c.no_credential_retention;
                mobile = false;
              })))
        else fail nomem 0 none (codes "out of memory")

  unfoldable pub login : Option Bytes → Prog (Unit {0})
  unfolding login_with
  login none = throw arg
  login (some passphrase) = login_with passphrase

  unfoldable pub login_mobile : Prog (Unit {0})
  unfolding ensure_auth clear_error
  login_mobile = do
    ctx ← get_ctx
    put_ctx (clear_error ctx)
    a ← ensure_auth
    set_auth (some (record (scrub_passphrase (cache_clear a)) { username = none; mobile = true }))

  unfoldable pub logout : Prog (Unit {0})
  unfolding clear_error
  logout = do ctx ← get_ctx; put_ctx (clear_error ctx); set_auth none
