-- ===== src/Crypto/Pqc/Refused.antt =====
-- The post-quantum calls of src/proto_crypto.c on arguments that they refuse.
use encedo_hem_c_api.Prelude.{Bool, false, ◌&&◌, Option, none, some, Bytes, codes, ◌≡◌}
use encedo_hem_c_api.Env.{Env}
use encedo_hem_c_api.Base64.{Slice}
use encedo_hem_c_api.Send.{is_kid_hex}
use encedo_hem_c_api.Binding.{body_with}
use encedo_hem_c_api.Binding.Refused.{
  IsRefused, IsRefused-bind, Checks, Checks-require, Checks-then, IsRefused-then, cleared,
}
use encedo_hem_c_api.Monad.{Prog, State, ◌>>=◌}
use encedo_hem_c_api.Crypto.{sized, sign_msg_max, sig_ctx_ok}
use encedo_hem_c_api.Crypto.Pqc.{
  sig_ok, check_mldsa, mldsa_fields, mldsa_build, mldsa_sign, mldsa_verify, mlkem_encaps,
  mlkem_decaps,
}

module _ ⦃E : Env⦄ where
  module _ (what kid msg : Bytes) (sig : Option Bytes) (sig_ctx : Slice) where
    abbrev mldsa_ok : Bool
    mldsa_ok = is_kid_hex kid && (sized sign_msg_max msg && (sig_ok sig && sig_ctx_ok sig_ctx))

    Checks-mldsa : Checks mldsa_ok (check_mldsa what kid msg sig sig_ctx)
    unfolding check_mldsa
    Checks-mldsa = Checks-then (is_kid_hex kid) _ _ _ (Checks-require (is_kid_hex kid) _) (
        Checks-then (sized sign_msg_max msg) _ _ _ (Checks-require (sized sign_msg_max msg) _) (
          Checks-then (sig_ok sig) (sig_ctx_ok sig_ctx) _ _ (Checks-require (sig_ok sig) _)
            (Checks-require (sig_ctx_ok sig_ctx) _)))

    IsRefused-build :
        {A : Type 0} (rest : Bytes → Prog A) (s : State E.World)
        → mldsa_ok ≡ false
        → IsRefused s ((mldsa_build what kid msg sig sig_ctx >>= rest) s)
    unfolding mldsa_build
    IsRefused-build rest s h =
        IsRefused-bind s (mldsa_build what kid msg sig sig_ctx s) rest
          (IsRefused-then (body_with (mldsa_fields what kid msg sig sig_ctx)) s Checks-mldsa h)

  -- Where an argument is out of bounds, nothing is signed: EHEM_ERR_ARG, and no request.
  mldsa_sign-IsRefused :
      (kid msg : Bytes) (sig_ctx : Slice) (s : State E.World)
      → mldsa_ok (codes "crypto/mldsa/sign") kid msg none sig_ctx ≡ false
      → IsRefused s (mldsa_sign kid msg sig_ctx s)
  unfolding mldsa_sign
  mldsa_sign-IsRefused kid msg sig_ctx s h =
      IsRefused-build (codes "crypto/mldsa/sign") kid msg none sig_ctx _ (cleared s) h

  -- Nor is a signature verified.
  mldsa_verify-IsRefused :
      (kid msg sig : Bytes) (sig_ctx : Slice) (s : State E.World)
      → mldsa_ok (codes "crypto/mldsa/verify") kid msg (some sig) sig_ctx ≡ false
      → IsRefused s (mldsa_verify kid msg sig_ctx sig s)
  unfolding mldsa_verify
  mldsa_verify-IsRefused kid msg sig sig_ctx s h =
      IsRefused-build (codes "crypto/mldsa/verify") kid msg (some sig) sig_ctx _ (cleared s) h

  -- Without a valid key id nothing is encapsulated.
  mlkem_encaps-IsRefused :
      (kid : Bytes) (s : State E.World) → is_kid_hex kid ≡ false → IsRefused s (mlkem_encaps kid s)
  unfolding mlkem_encaps
  mlkem_encaps-IsRefused kid s h =
      IsRefused-then _ (cleared s) (Checks-require (is_kid_hex kid) _) h

  -- Nor is anything decapsulated.
  mlkem_decaps-IsRefused :
      (kid ct : Bytes) (s : State E.World)
      → is_kid_hex kid ≡ false
      → IsRefused s (mlkem_decaps kid ct s)
  unfolding mlkem_decaps
  mlkem_decaps-IsRefused kid ct s h =
      IsRefused-then _ (cleared s) (Checks-require (is_kid_hex kid) _) h
