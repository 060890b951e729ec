-- ===== src/Binding/Refused.antt =====
-- Calls that refuse their arguments before they do anything.
use encedo_hem_c_api.Prelude.{Bool, true, false, ◌&&◌, Bytes, ◌≡◌, refl}
use encedo_hem_c_api.Rc.{arg}
use encedo_hem_c_api.Env.{Env, Result, ok, err}
use encedo_hem_c_api.Context.{clear_error}
use encedo_hem_c_api.Context.Fail.{fail}
use encedo_hem_c_api.Monad.{State, Prog, ◌>>◌, bind_result}
use encedo_hem_c_api.Binding.{require}

module _ ⦃E : Env⦄ where
  -- Refused, and nothing outside has been touched: no request, and no memory either.
  abbrev pub IsRefused : {A : Type 0} → State E.World → Result A × State E.World → Type 0
  IsRefused s r = (r.0 ≡ err arg) × (r.1.world ≡ s.world)

  pub IsRefused-bind :
      {A B : Type 0} (s : State E.World) (r : Result A × State E.World) (f : A → Prog B)
      → IsRefused s r
      → IsRefused s (bind_result r f)
  IsRefused-bind s (ok a, s') f (h, k) = cc
  IsRefused-bind s (err rc, s') f (h, k) = (cc, k)

  -- Whether a check passes, which does nothing then.
  pub record Checks (b : Bool) (m : Prog (Unit {0})) : Type 0 where
    pub passes : b ≡ true → (s : State E.World) → m s ≡ (ok tt, s)
    pub refuses : b ≡ false → (s : State E.World) → IsRefused s (m s)

  pub Checks-require : (b : Bool) (message : Bytes) → Checks b (require b message)
  unfolding fail
  Checks-require true message = record { passes = λ h s. refl; refuses = λ h s. cc }
  Checks-require false message = record { passes = λ h s. cc; refuses = λ h s. (refl, refl) }

  pub IsRefused-then :
      {A : Type 0} {b : Bool} {m : Prog (Unit {0})} (n : Prog A) (s : State E.World)
      → Checks b m
      → b ≡ false
      → IsRefused s ((m >> n) s)
  IsRefused-then {m = m} n s c h = IsRefused-bind s (m s) (λ _. n) (c.refuses h s)

  pub Checks-then :
      (a b : Bool) (m n : Prog (Unit {0})) → Checks a m → Checks b n → Checks (a && b) (m >> n)
  Checks-then true b m n p q = record {
    passes = λ h s. rw (p.passes refl s) (q.passes h s);
    refuses = λ h s. rw (p.passes refl s) (q.refuses h s);
  }
  Checks-then false b m n p q = record {
    passes = λ h s. cc;
    refuses = λ h s. IsRefused-then n s p refl;
  }

  -- The second check of two in a row.
  pub IsRefused-second :
      {A : Type 0} (a b : Bool) {m n : Prog (Unit {0})} (rest : Prog A) (s : State E.World)
      → Checks a m
      → Checks b n
      → (a && b) ≡ false
      → IsRefused s ((m >> (n >> rest)) s)
  IsRefused-second true b rest s p q h = rw (p.passes refl s) (IsRefused-then rest s q h)
  IsRefused-second false b {n = n} rest s p q h = IsRefused-then (n >> rest) s p refl

  abbrev pub cleared : State E.World → State E.World
  cleared s = record s { ctx = clear_error s.ctx }
