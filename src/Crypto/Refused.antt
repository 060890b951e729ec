-- ===== src/Crypto/Refused.antt =====
-- The calls of src/proto_crypto.c on arguments that they refuse.
use encedo_hem_c_api.Prelude.{
  Bool, true, false, not, ◌&&◌, ◌||◌, Option, Bytes, codes, length, leb, ◌≡◌, refl, arith,
}
use encedo_hem_c_api.Env.{Env}
use encedo_hem_c_api.Base64.{Slice}
use encedo_hem_c_api.Monad.{State}
use encedo_hem_c_api.Send.{is_kid_hex}
use encedo_hem_c_api.Binding.Refused.{
  IsRefused, Checks, Checks-require, Checks-then, IsRefused-then, cleared,
}
use encedo_hem_c_api.Crypto.{
  sized, sign_msg_max, verify_sig_max, sig_ctx_ok, is_given, is_present, ext_kid_ok, pubkey_ok,
  non_empty_alg, check_sign, check_verify, check_peer_args, check_ecdh, sign, verify_signature,
  ecdh,
}

-- Exactly one peer, and that one well-formed.
abbrev pub peer_ok : Option Bytes → Slice → Bool
peer_ok ext_kid pubkey =
    not (is_present ext_kid && is_given pubkey)
    && ((is_present ext_kid || (is_given pubkey || false))
        && (ext_kid_ok ext_kid && pubkey_ok pubkey))

module _ ⦃E : Env⦄ where
  Checks-sign :
      (kid alg msg : Bytes) (sig_ctx : Slice)
      → Checks
          (is_kid_hex kid && (leb 1 (length alg) && (sized sign_msg_max msg && sig_ctx_ok sig_ctx)))
          (check_sign kid alg msg sig_ctx)
  unfolding check_sign
  Checks-sign kid alg msg sig_ctx =
      Checks-then (is_kid_hex kid) _ _ _ (Checks-require (is_kid_hex kid) _) (
        Checks-then (leb 1 (length alg)) _ _ _ (Checks-require (leb 1 (length alg)) _) (
          Checks-then (sized sign_msg_max msg) (sig_ctx_ok sig_ctx) _ _
            (Checks-require (sized sign_msg_max msg) _) (Checks-require (sig_ctx_ok sig_ctx) _)))

  Checks-verify :
      (kid alg msg sig : Bytes) (sig_ctx : Slice)
      → Checks
          (is_kid_hex kid
            && (leb 1 (length alg)
                && (sized sign_msg_max msg && (sized verify_sig_max sig && sig_ctx_ok sig_ctx))))
          (check_verify kid alg msg sig_ctx sig)
  unfolding check_verify
  Checks-verify kid alg msg sig sig_ctx =
      Checks-then (is_kid_hex kid) _ _ _ (Checks-require (is_kid_hex kid) _) (
        Checks-then (leb 1 (length alg)) _ _ _ (Checks-require (leb 1 (length alg)) _) (
          Checks-then (sized sign_msg_max msg) _ _ _ (Checks-require (sized sign_msg_max msg) _) (
            Checks-then (sized verify_sig_max sig) (sig_ctx_ok sig_ctx) _ _
              (Checks-require (sized verify_sig_max sig) _)
              (Checks-require (sig_ctx_ok sig_ctx) _))))

  Checks-peer :
      (what : Bytes) (ext_kid : Option Bytes) (pubkey : Slice)
      → Checks (peer_ok ext_kid pubkey) (check_peer_args what ext_kid pubkey false)
  unfolding check_peer_args
  Checks-peer what ext_kid pubkey =
      Checks-then (not (is_present ext_kid && is_given pubkey)) _ _ _
        (Checks-require (not (is_present ext_kid && is_given pubkey)) _)
        (Checks-then (is_present ext_kid || (is_given pubkey || false)) _ _ _
          (Checks-require (is_present ext_kid || (is_given pubkey || false)) _)
          (Checks-then (ext_kid_ok ext_kid) (pubkey_ok pubkey) _ _
            (Checks-require (ext_kid_ok ext_kid) _) (Checks-require (pubkey_ok pubkey) _)))

  Checks-ecdh :
      (kid : Bytes) (ext_kid alg : Option Bytes) (pubkey : Slice)
      → Checks
          (is_kid_hex kid && (peer_ok ext_kid pubkey && non_empty_alg alg))
          (check_ecdh kid ext_kid pubkey alg)
  unfolding check_ecdh
  Checks-ecdh kid ext_kid alg pubkey =
      Checks-then (is_kid_hex kid) _ _ _ (Checks-require (is_kid_hex kid) _) (
        Checks-then (peer_ok ext_kid pubkey) (non_empty_alg alg) _ _
          (Checks-peer (codes "crypto/ecdh") ext_kid pubkey) (Checks-require (non_empty_alg alg) _))

  third : (a b c d : Bool) → c ≡ false → (a && (b && (c && d))) ≡ false
  third true true c d h = ground (arith, h)
  third true false c d h = refl
  third false b c d h = refl

  second : (a b c : Bool) → b ≡ false → (a && (b && c)) ≡ false
  second true b c h = ground (arith, h)
  second false b c h = refl

  -- Where the message is empty or longer than 2048 bytes, neither a signature is asked for nor one
  -- verified, and without exactly one well-formed peer no key is agreed on, whatever the other
  -- arguments: the calls give EHEM_ERR_ARG, and the world outside is as before, so that no request
  -- has been sent.
  pub input-IsRefused :
      (kid alg msg sig : Bytes) (sig_ctx pubkey : Slice) (ext_kid ecdh_alg : Option Bytes)
      (s : State E.World)
      → sized sign_msg_max msg ≡ false
      → peer_ok ext_kid pubkey ≡ false
      → IsRefused s (sign kid alg msg sig_ctx s)
        × IsRefused s (verify_signature kid alg msg sig_ctx sig s)
        × IsRefused s (ecdh kid ext_kid pubkey ecdh_alg s)
  unfolding sign verify_signature ecdh
  input-IsRefused kid alg msg sig sig_ctx pubkey ext_kid ecdh_alg s h p = (
    IsRefused-then _ (cleared s) (Checks-sign kid alg msg sig_ctx) (
        third (is_kid_hex kid) (leb 1 (length alg)) (sized sign_msg_max msg) (sig_ctx_ok sig_ctx)
          h),
    IsRefused-then _ (cleared s) (Checks-verify kid alg msg sig sig_ctx) (
        third (is_kid_hex kid) (leb 1 (length alg)) (sized sign_msg_max msg)
          (sized verify_sig_max sig && sig_ctx_ok sig_ctx) h),
    IsRefused-then _ (cleared s) (Checks-ecdh kid ext_kid ecdh_alg pubkey)
        (second (is_kid_hex kid) (peer_ok ext_kid pubkey) (non_empty_alg ecdh_alg) p),
  )
