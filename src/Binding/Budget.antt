-- ===== src/Binding/Budget.antt =====
-- The steps of the bindings that make no request.
use encedo_hem_c_api.Prelude.{
  ℕ, Bool, true, false, Option, none, some, List, [], ◌∷◌, ◌++◌, Bytes, All, arith,
}
use encedo_hem_c_api.Rc.{arg, nomem, protocol}
use encedo_hem_c_api.Env.{Env}
use encedo_hem_c_api.Context.{clear_error}
use encedo_hem_c_api.Monad.{Prog}
use encedo_hem_c_api.Binding.{
  require, or_nomem, dup_str, copy_field, required, optional_field, some_body, body_with,
  clear_last_error,
}
use encedo_hem_c_api.Request.Budget.{SendCount, Sends, Sends-bind, Sends-return, Sends-fail}
use encedo_hem_c_api.Token.Budget.{
  LocalCount, Sends-alloc, Sends-fields, Sends-new_object, Sends-print_all, Sends-string_field,
}

module _ ⦃E : Env⦄ (count : SendCount) (fits : ℕ → Type 0) (local : LocalCount count) where
  pub Sends-require : (b : Bool) (message : Bytes) → Sends count fits 0 (require b message)
  Sends-require true message = Sends-return count fits tt
  Sends-require false message = Sends-fail count fits arg 0 none message

  pub Sends-or_nomem : {A : Type 0} (b : Bool) (a : A) → Sends count fits 0 (or_nomem b a)
  Sends-or_nomem true a = Sends-return count fits a
  Sends-or_nomem false a = Sends-fail count fits nomem 0 none _

  pub Sends-dup_str : (s : Bytes) → Sends count fits 0 (dup_str s)
  unfolding dup_str
  Sends-dup_str s = Sends-bind count fits (Sends-alloc count fits local) λ b. Sends-or_nomem b s

  Sends-copy_field :
      (what lacks key : Bytes) (o : Option Bytes) → Sends count fits 0 (copy_field what lacks key o)
  Sends-copy_field what lacks key none = Sends-fail count fits protocol 200 none _
  Sends-copy_field what lacks key (some s) = Sends-dup_str s

  pub Sends-required :
      (lacks : Bytes) (root : E.Node) (what key : Bytes)
      → Sends count fits 0 (required lacks root what key)
  Sends-required lacks root what key = Sends-copy_field what lacks key _

  Sends-some_body : (o : Option Bytes) → Sends count fits 0 (some_body o)
  Sends-some_body none = Sends-fail count fits nomem 0 none _
  Sends-some_body (some b) = Sends-return count fits b

  abbrev pub AreLocal : List (Option E.Node → Prog (Option E.Node)) → Type 0
  AreLocal adds = All (λ add. (o : Option E.Node) → Sends count fits 0 (add o)) adds

  pub AreLocal-append :
      (xs ys : List (Option E.Node → Prog (Option E.Node)))
      → AreLocal xs
      → AreLocal ys
      → AreLocal (xs ++ ys)
  AreLocal-append [] ys h k = k
  AreLocal-append (x ∷ xs) ys h k = (h.0, AreLocal-append xs ys h.1 k)

  pub AreLocal-optional : (key : Bytes) (v : Option Bytes) → AreLocal (optional_field key v)
  AreLocal-optional key none = tt
  AreLocal-optional key (some v) = (Sends-string_field count fits local key v, tt)

  pub Sends-body_with :
      (adds : List (Option E.Node → Prog (Option E.Node)))
      → AreLocal adds
      → Sends count fits 0 (body_with adds)
  unfolding body_with
  Sends-body_with adds h =
      Sends-bind count fits
        (Sends-bind count fits (Sends-new_object count fits local) λ obj.
          Sends-bind count fits (Sends-fields count fits local adds obj h)
            (Sends-print_all count fits local))
        Sends-some_body

  pub Sends-clear : Sends count fits 0 clear_last_error
  unfolding clear_error
  Sends-clear = record { bound = λ s h. (h, omega arith) }
