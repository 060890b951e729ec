-- ===== src/Token/Budget/Left.antt =====
-- Requests that are paid for in advance: what a program leaves of its budget, by its value. So the
-- two recoveries of src/proto_auth.c, which share one check-in, are counted once.
use encedo_hem_c_api.Prelude.{ℕ, ◌+◌, ◌≤◌, Bool, if◌then◌else◌, true, false, arith}
use encedo_hem_c_api.Env.{Env, Result, ok, err}
use encedo_hem_c_api.Monad.{State, Prog, return, ◌>>=◌, bind_result}
use encedo_hem_c_api.Request.Budget.{SendCount, Sends}

-- What is left at a result: nothing at a result code.
abbrev pub left_of : {A : Type 0} → (A → ℕ) → Result A → ℕ
left_of left (ok a) = left a
left_of left (err rc) = 0

module _ ⦃E : Env⦄ (count : SendCount) (fits : ℕ → Type 0) where
  open count use {sends}

  -- The requests that are made, and those that are left, are at most `n`, and a timeout of a
  -- confirmation that fits is left so.
  pub record Leaves {A : Type 0} (n : ℕ) (left : A → ℕ) (m : Prog A) : Type 0 where
    pub covered :
        (s : State E.World)
        → fits s.ctx.confirm_timeout_ms
        → fits (m s).1.ctx.confirm_timeout_ms
          × (sends (m s).1.world + left_of left (m s).0 ≤ sends s.world + n)

  pub Leaves-return : {A : Type 0} {left : A → ℕ} (a : A) → Leaves (left a) left (return a)
  Leaves-return a = record { covered = λ s h. (h, omega arith) }

  pub Leaves-bind :
      {A B : Type 0} {k n : ℕ} {left : B → ℕ} {m : Prog A} {f : A → Prog B}
      → Sends count fits k m
      → ((a : A) → Leaves n left (f a))
      → Leaves (k + n) left (m >>= f)
  Leaves-bind {A = A} {k = k} {n = n} {left = left} {m = m} {f = f} first rest = record {
    covered = λ s h. after (m s) s.world (first.bound s h);
  }
    where
      after :
          (r : Result A × State E.World) (w : E.World)
          → fits r.1.ctx.confirm_timeout_ms × (sends r.1.world ≤ sends w + k)
          → fits (bind_result r f).1.ctx.confirm_timeout_ms
            × (sends (bind_result r f).1.world + left_of left (bind_result r f).0
                ≤ sends w + (k + n))
      after (ok a, s) w (t, h) = let p = (rest a).covered s t in (p.0, omega (arith, p.1, h))
      after (err rc, s) w (t, h) = (t, omega arith)

  pub Leaves-then :
      {A B : Type 0} {n : ℕ} {left : A → ℕ} {left' : B → ℕ} {m : Prog A} {f : A → Prog B}
      → Leaves n left m
      → ((a : A) → Leaves (left a) left' (f a))
      → Leaves n left' (m >>= f)
  Leaves-then {A = A} {n = n} {left = left} {left' = left'} {m = m} {f = f} first rest = record {
    covered = λ s h. after (m s) s.world (first.covered s h);
  }
    where
      after :
          (r : Result A × State E.World) (w : E.World)
          → fits r.1.ctx.confirm_timeout_ms × (sends r.1.world + left_of left r.0 ≤ sends w + n)
          → fits (bind_result r f).1.ctx.confirm_timeout_ms
            × (sends (bind_result r f).1.world + left_of left' (bind_result r f).0 ≤ sends w + n)
      after (ok a, s) w (t, h) = let p = (rest a).covered s t in (p.0, omega (arith, p.1, h))
      after (err rc, s) w (t, h) = (t, omega arith)

  pub Leaves-spend :
      {A B : Type 0} {n : ℕ} {left : A → ℕ} {m : Prog A} {f : A → Prog B}
      → Leaves n left m
      → ((a : A) → Sends count fits (left a) (f a))
      → Sends count fits n (m >>= f)
  Leaves-spend {A = A} {n = n} {left = left} {m = m} {f = f} first rest = record {
    bound = λ s h. after (m s) s.world (first.covered s h);
  }
    where
      after :
          (r : Result A × State E.World) (w : E.World)
          → fits r.1.ctx.confirm_timeout_ms × (sends r.1.world + left_of left r.0 ≤ sends w + n)
          → fits (bind_result r f).1.ctx.confirm_timeout_ms
            × (sends (bind_result r f).1.world ≤ sends w + n)
      after (ok a, s) w (t, h) = let p = (rest a).bound s t in (p.0, omega (arith, p.1, h))
      after (err rc, s) w (t, h) = (t, omega arith)

  pub Leaves-le :
      {A : Type 0} {a b : ℕ} {left : A → ℕ} {m : Prog A} → Leaves a left m → a ≤ b → Leaves b left m
  Leaves-le p le = record {
    covered = λ s h. let q = p.covered s h in (q.0, omega (arith, q.1, le));
  }

  pub Leaves-test :
      {A : Type 0} {n : ℕ} {left : A → ℕ} (test : State E.World → Bool)
      (m k : State E.World → Prog A)
      → ((s : State E.World) → Leaves n left (m s))
      → ((s : State E.World) → Leaves n left (k s))
      → Leaves n left (λ s. if test s then m s s else k s s)
  Leaves-test {A = A} {n = n} {left = left} test m k p q = record {
    covered =
        λ s h. either (test s) (m s s) (k s s) s.world ((p s).covered s h) ((q s).covered s h);
  }
    where
      either :
          (b : Bool) (x y : Result A × State E.World) (w : E.World)
          → fits x.1.ctx.confirm_timeout_ms × (sends x.1.world + left_of left x.0 ≤ sends w + n)
          → fits y.1.ctx.confirm_timeout_ms × (sends y.1.world + left_of left y.0 ≤ sends w + n)
          → fits (if b then x else y).1.ctx.confirm_timeout_ms
            × (sends (if b then x else y).1.world + left_of left (if b then x else y).0
                ≤ sends w + n)
      either true x y w p q = p
      either false x y w p q = q

  pub Leaves-if :
      {A : Type 0} {n : ℕ} {left : A → ℕ} {m k : Prog A} (b : Bool)
      → Leaves n left m
      → Leaves n left k
      → Leaves n left (if b then m else k)
  Leaves-if true p q = p
  Leaves-if false p q = q
