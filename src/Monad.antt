-- ===== src/Monad.antt =====
-- The calling convention of the C code: a function acts on the context, the process-wide flag of
-- src/context.c and the world outside, and returns a value or a result code.
pub mod Post
use encedo_hem_c_api.Prelude.{Bool}
use encedo_hem_c_api.Rc.{Rc}
use encedo_hem_c_api.Env.{Env, Result, ok, err}
use encedo_hem_c_api.Context.{Ctx}

-- `g_global_ready` is the only state of the library that no context holds.
pub record State (W : Type 0) : Type 0 where
  pub ctx : Ctx
  pub global_ready : Bool
  pub world : W

abbrev pub M : Type 0 → Type 0 → Type 0
M W A = State W → Result A × State W

abbrev pub return : {W A : Type 0} → A → M W A
return a s = (ok a, s)

abbrev pub throw : {W A : Type 0} → Rc → M W A
throw rc s = (err rc, s)

-- `rc = f(…); if (rc != EHEM_OK) return rc;`
abbrev pub bind_result : {W A B : Type 0} → Result A × State W → (A → M W B) → Result B × State W
bind_result (ok a, s) f = f a s
bind_result (err rc, s) f = (err rc, s)

infixl 5 ◌>>=◌ ◌>>◌
abbrev pub ◌>>=◌ : {W A B : Type 0} → M W A → (A → M W B) → M W B
(m >>= f) s = bind_result (m s) f

abbrev pub ◌>>◌ : {W B : Type 0} → M W (Unit {0}) → M W B → M W B
(m >> k) s = bind_result (m s) (λ _. k)

-- `rc = f(…);`, and the code goes on with either outcome.
abbrev pub attempt : {W A : Type 0} → M W A → M W (Result A)
attempt m s = let (r, s') = m s in (ok r, s')

abbrev pub get_ctx : {W : Type 0} → M W Ctx
get_ctx s = (ok s.ctx, s)

abbrev pub put_ctx : {W : Type 0} → Ctx → M W (Unit {0})
put_ctx c s = (ok tt, record s { ctx = c })

-- A call out of the library that gives a value.
abbrev pub outside : {W A : Type 0} → (W → A × W) → M W A
outside f s = let (a, w) = f s.world in (ok a, record s { world = w })

-- One that gives a value or a result code.
abbrev pub outside_result : {W A : Type 0} → (W → Result A × W) → M W A
outside_result f s = let (r, w) = f s.world in (r, record s { world = w })

module _ ⦃E : Env⦄ where
  abbrev pub Prog : Type 0 → Type 0
  Prog A = M E.World A

  abbrev pub alloc : Prog Bool
  alloc = outside E.alloc
