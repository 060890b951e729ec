-- ===== src/Monad/Post.antt =====
-- Programs whose result, where there is one, satisfies a condition together with the context they
-- leave behind.
use encedo_hem_c_api.Prelude.{ℕ, Bool, true, false, Option, none, some, Bytes, ◌≡◌, if◌then◌else◌}
use encedo_hem_c_api.Rc.{Rc}
use encedo_hem_c_api.Env.{Env, Result, ok, err}
use encedo_hem_c_api.Context.{Ctx}
use encedo_hem_c_api.Context.Fail.{fail}
use encedo_hem_c_api.Monad.{State, Prog, attempt, ◌>>=◌, bind_result}

-- The condition on a result code is none.
abbrev pub OnOk : {A : Type 0} → (A → Ctx → Type 0) → Result A → Ctx → Type 0
OnOk P (ok a) c = P a c
OnOk P (err rc) c = Unit {0}

module _ ⦃E : Env⦄ where
  abbrev pub Post : {A : Type 0} → (A → Ctx → Type 0) → Result A × State E.World → Type 0
  Post P (r, s) = OnOk P r s.ctx

  pub record Gives {A : Type 0} (P : A → Ctx → Type 0) (m : Prog A) : Type 0 where
    pub holds : (s : State E.World) → Post P (m s)

  module _ {A : Type 0} (P : A → Ctx → Type 0) where
    pub Gives-fail :
        (rc : Rc) (status : ℕ) (payload : Option Bytes) (message : Bytes)
        → Gives P (fail rc status payload message)
    unfolding fail
    Gives-fail rc status none message = record { holds = λ s. tt }
    Gives-fail rc status (some p) message = record { holds = λ s. tt }

    pub Gives-attempt : {m : Prog A} → Gives P m → Gives (OnOk P) (attempt m)
    Gives-attempt p = record { holds = λ s. p.holds s }

    pub Gives-if : (b : Bool) {m n : Prog A} → Gives P m → Gives P n → Gives P (if b then m else n)
    Gives-if true p q = p
    Gives-if false p q = q

    pub Gives-option :
        {C : Type 0} (o : Option C) {n : Prog A} {f : C → Prog A}
        → Gives P n
        → ((c : C) → Gives P (f c))
        → Gives P (elim o [ none ↦ n | some c ↦ f c ])
    Gives-option none p q = p
    Gives-option (some c) p q = q c

    pub Gives-result :
        {C : Type 0} (r : Result C) {n : Rc → Prog A} {f : C → Prog A}
        → ((rc : Rc) → Gives P (n rc))
        → ((c : C) → Gives P (f c))
        → Gives P (elim r [ err rc ↦ n rc | ok c ↦ f c ])
    Gives-result (err rc) p q = p rc
    Gives-result (ok c) p q = q c

    after_any :
        {B : Type 0} (r : Result B × State E.World) (f : B → Prog A)
        → ((b : B) → Gives P (f b))
        → Post P (bind_result r f)
    after_any (ok b, s) f q = (q b).holds s
    after_any (err rc, s) f q = tt

    -- What stands behind the last step holds, whatever the steps before it gave.
    pub Gives-bind :
        {B : Type 0} (m : Prog B) (f : B → Prog A) → ((b : B) → Gives P (f b)) → Gives P (m >>= f)
    Gives-bind m f q = record { holds = λ s. after_any (m s) f q }

    pub after_given :
        {B : Type 0} (Q : B → Ctx → Type 0) (r : Result B × State E.World) (f : B → Prog A)
        → Post Q r
        → ((b : B) (s : State E.World) → Q b s.ctx → Post P (f b s))
        → Post P (bind_result r f)
    after_given Q (ok b, s) f p q = q b s p
    after_given Q (err rc, s) f p q = tt

    pub Gives-bind_with :
        {B : Type 0} {Q : B → Ctx → Type 0} {m : Prog B} (f : B → Prog A)
        → Gives Q m
        → ((b : B) (s : State E.World) → Q b s.ctx → Post P (f b s))
        → Gives P (m >>= f)
    Gives-bind_with {Q = Q} {m = m} f p q = record {
      holds = λ s. after_given Q (m s) f (p.holds s) q;
    }

  -- What `Gives` says of a run that ends with a result.
  pub post-ok :
      {A : Type 0} (P : A → Ctx → Type 0) (r : Result A × State E.World) (a : A)
      (s' : State E.World)
      → Post P r
      → r ≡ (ok a, s')
      → P a s'.ctx
  post-ok P r a s' p h = rw h at p
