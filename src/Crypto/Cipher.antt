-- ===== src/Crypto/Cipher.antt =====
-- src/proto_crypto.c: encryption and decryption, and the arguments that both refuse.
use encedo_hem_c_api.Prelude.{
  ℕ, zero, suc, Bool, true, false, ◌&&◌, Option, none, some, List, [], ◌∷◌, ◌++◌, Bytes, codes,
  length, leb, ◌==◌, if◌then◌else◌, decimal, ◌≡◌,
}
use encedo_hem_c_api.Rc.{protocol}
use encedo_hem_c_api.Env.{Env, post}
use encedo_hem_c_api.Base64.{Slice, null, bytes, b64_std_decode}
use encedo_hem_c_api.Context.Fail.{fail}
use encedo_hem_c_api.Ejwt.{string_field}
use encedo_hem_c_api.Json.{json_get_string}
use encedo_hem_c_api.Send.{is_kid_hex}
use encedo_hem_c_api.Device.{device_json}
use encedo_hem_c_api.Binding.{b64_field, b64_given, body_with, clear_last_error, or_nomem, require}
use encedo_hem_c_api.Binding.Refused.{
  IsRefused, IsRefused-bind, Checks, Checks-require, Checks-then, IsRefused-then, cleared,
}
use encedo_hem_c_api.Crypto.Peer.{peer_fits, Checks-peer}
use encedo_hem_c_api.Monad.{Prog, State, alloc, return, ◌>>=◌, ◌>>◌}
use encedo_hem_c_api.Crypto.{sized, contents, use_scope, check_peer_args, peer_fields, blob_of}

abbrev pub cipher_msg_max : ℕ
cipher_msg_max = 2048

abbrev pub cipher_ct_max : ℕ
cipher_ct_max = 2064

abbrev pub cipher_aad_max : ℕ
cipher_aad_max = 16

abbrev pub cipher_iv_len : ℕ
cipher_iv_len = 16

abbrev pub cipher_tag_len : ℕ
cipher_tag_len = 16

abbrev pub cipher_hkdf_ctx_max : ℕ
cipher_hkdf_ctx_max = 64

pub record Ciphertext : Type 0 where
  pub ciphertext : Bytes
  pub iv : Option Bytes
  pub tag : Option Bytes

-- Not given at all, or of exactly this length.
abbrev pub exact_or_none : ℕ → Slice → Bool
exact_or_none size (null zero) = true
exact_or_none size (null (suc n)) = false
exact_or_none size (bytes b) = length b == size

abbrev pub at_most : ℕ → Slice → Bool
at_most max (null zero) = true
at_most max (null (suc n)) = false
at_most max (bytes b) = leb (length b) max

module _ ⦃E : Env⦄ where
  -- A field for a buffer that is not NULL, whatever its length.
  abbrev pub unless_null : Bytes → Slice → List (Option E.Node → Prog (Option E.Node))
  unless_null key (null n) = []
  unless_null key (bytes b) = b64_field key b ∷ []

  module _ (what kid alg msg : Bytes) (msg_max : ℕ) (iv tag aad : Slice) (ext_kid : Option Bytes)
      (pubkey hkdf_ctx : Slice) where
    unfoldable pub check_cipher : Prog (Unit {0})
    check_cipher = do
      require (is_kid_hex kid) (what ++ codes ": kid must be exactly 32 hex chars")
      require (length alg == 10) (what ++ codes ": alg must be one of the 10-char AES selectors")
      require (sized msg_max msg)
          (what ++ codes ": msg must be 1.." ++ decimal msg_max ++ codes " bytes")
      require (exact_or_none cipher_iv_len iv)
          (what ++ codes ": iv must be exactly 16 bytes when given")
      require (exact_or_none cipher_tag_len tag)
          (what ++ codes ": tag must be exactly 16 bytes when given")
      require (at_most cipher_aad_max aad) (what ++ codes ": aad must be at most 16 bytes")
      check_peer_args what ext_kid pubkey true
      require (at_most cipher_hkdf_ctx_max hkdf_ctx)
          (what ++ codes ": hkdf_ctx must be at most 64 bytes")

    abbrev cipher_fields : List (Option E.Node → Prog (Option E.Node))
    cipher_fields =
        (string_field (codes "kid") kid
          ∷ b64_field (codes "msg") msg
          ∷ string_field (codes "alg") alg
          ∷ unless_null (codes "iv") iv)
        ++ (unless_null (codes "tag") tag
            ++ (b64_given (codes "aad") (contents aad)
                ++ (peer_fields ext_kid pubkey ++ b64_given (codes "ctx") (contents hkdf_ctx))))

    unfoldable pub cipher_build : Prog Bytes
    cipher_build = do check_cipher; body_with cipher_fields

    abbrev cipher_ok : Bool
    cipher_ok =
        is_kid_hex kid
        && (length alg == 10
            && (sized msg_max msg
                && (exact_or_none cipher_iv_len iv
                    && (exact_or_none cipher_tag_len tag
                        && (at_most cipher_aad_max aad
                            && (peer_fits ext_kid pubkey
                                && at_most cipher_hkdf_ctx_max hkdf_ctx))))))

    Checks-cipher : Checks cipher_ok check_cipher
    unfolding check_cipher
    Checks-cipher = Checks-then (is_kid_hex kid) _ _ _ (Checks-require (is_kid_hex kid) _) (
        Checks-then (length alg == 10) _ _ _ (Checks-require (length alg == 10) _) (
          Checks-then (sized msg_max msg) _ _ _ (Checks-require (sized msg_max msg) _) (
            Checks-then (exact_or_none cipher_iv_len iv) _ _ _
              (Checks-require (exact_or_none cipher_iv_len iv) _)
              (Checks-then (exact_or_none cipher_tag_len tag) _ _ _
                (Checks-require (exact_or_none cipher_tag_len tag) _)
                (Checks-then (at_most cipher_aad_max aad) _ _ _
                  (Checks-require (at_most cipher_aad_max aad) _)
                  (Checks-then (peer_fits ext_kid pubkey) (at_most cipher_hkdf_ctx_max hkdf_ctx) _ _
                    (Checks-peer what ext_kid pubkey)
                    (Checks-require (at_most cipher_hkdf_ctx_max hkdf_ctx) _)))))))

    IsRefused-build :
        {A : Type 0} (rest : Bytes → Prog A) (s : State E.World)
        → cipher_ok ≡ false
        → IsRefused s ((cipher_build >>= rest) s)
    unfolding cipher_build
    IsRefused-build rest s h =
        IsRefused-bind s (cipher_build s) rest
          (IsRefused-then (body_with cipher_fields) s Checks-cipher h)

  abbrev pub field_of : ℕ → Option Bytes → Option (Option Bytes)
  field_of want none = none
  field_of want (some raw) = if length raw == want then some (some raw) else none

  -- A field that may be missing or empty; none where it is there and malformed.
  abbrev pub fixed_field : ℕ → Option Bytes → Option (Option Bytes)
  fixed_field want none = some none
  fixed_field want (some []) = some none
  fixed_field want (some (c ∷ cs)) = field_of want (b64_std_decode (bytes (c ∷ cs)) (some 32))

  abbrev pub decode_fixed_field : E.Node → Bytes → ℕ → Option (Option Bytes)
  decode_fixed_field root name want = fixed_field want (json_get_string (some root) (some name))

  abbrev pub whole_ciphertext :
      Bytes → Option (Option Bytes) → Option (Option Bytes) → Prog Ciphertext
  whole_ciphertext ciphertext (some iv) (some tag) =
      return (record { ciphertext = ciphertext; iv = iv; tag = tag })
  whole_ciphertext ciphertext _ _ =
      fail protocol 200 none (codes "crypto/cipher/encrypt: malformed response field")

  -- `ehem_encrypt`
  unfoldable pub encrypt :
      Bytes → Bytes → Bytes → Slice → Option Bytes → Slice → Slice → Prog Ciphertext
  encrypt kid alg msg aad ext_kid pubkey hkdf_ctx = do
    clear_last_error
    body ←
        cipher_build (codes "crypto/cipher/encrypt") kid alg msg cipher_msg_max (null 0) (null 0)
          aad ext_kid pubkey hkdf_ctx
    root ← device_json post (codes "/api/crypto/cipher/encrypt") (some body) (some (use_scope kid))
    ciphertext ←
        blob_of (codes "crypto/cipher/encrypt: response missing 'ciphertext'")
          (codes "crypto/cipher/encrypt: malformed response field")
          (json_get_string (some root) (some (codes "ciphertext")))
    whole_ciphertext ciphertext (decode_fixed_field root (codes "iv") cipher_iv_len)
        (decode_fixed_field root (codes "tag") cipher_tag_len)

  abbrev plaintext_or : Option Bytes → Prog Bytes
  plaintext_or none =
      fail protocol 200 none (codes "crypto/cipher/decrypt: 'plaintext' is not valid base64")
  plaintext_or (some raw) = return raw

  abbrev decoded_plaintext : Bytes → Prog Bytes
  decoded_plaintext [] = return []
  decoded_plaintext (c ∷ cs) =
      plaintext_or (b64_std_decode (bytes (c ∷ cs)) (some (length (c ∷ cs))))

  -- An empty plaintext is legal.
  abbrev plaintext_of : Option Bytes → Prog Bytes
  plaintext_of none =
      fail protocol 200 none (codes "crypto/cipher/decrypt: response missing 'plaintext'")
  plaintext_of (some s) = do
    result ← alloc
    or_nomem result tt
    buffer ← alloc
    or_nomem buffer tt
    decoded_plaintext s

  -- `ehem_decrypt`
  unfoldable decrypt :
      Bytes → Bytes → Bytes → Slice → Slice → Slice → Option Bytes → Slice → Slice → Prog Bytes
  decrypt kid alg msg iv tag aad ext_kid pubkey hkdf_ctx = do
    clear_last_error
    body ←
        cipher_build (codes "crypto/cipher/decrypt") kid alg msg cipher_ct_max iv tag aad ext_kid
          pubkey hkdf_ctx
    root ← device_json post (codes "/api/crypto/cipher/decrypt") (some body) (some (use_scope kid))
    plaintext_of (json_get_string (some root) (some (codes "plaintext")))

  -- An encryption on arguments of which one is out of bounds gives EHEM_ERR_ARG and sends no request.
  encrypt-IsRefused :
      (kid alg msg : Bytes) (aad pubkey hkdf_ctx : Slice) (ext_kid : Option Bytes)
      (s : State E.World)
      → cipher_ok
          (codes "crypto/cipher/encrypt")
          kid
          alg
          msg
          cipher_msg_max
          (null 0)
          (null 0)
          aad
          ext_kid
          pubkey
          hkdf_ctx
        ≡ false
      → IsRefused s (encrypt kid alg msg aad ext_kid pubkey hkdf_ctx s)
  unfolding encrypt
  encrypt-IsRefused kid alg msg aad pubkey hkdf_ctx ext_kid s h =
      IsRefused-build (codes "crypto/cipher/encrypt") kid alg msg cipher_msg_max (null 0) (null 0)
        aad ext_kid pubkey hkdf_ctx _ (cleared s) h

  -- A decryption likewise, for which a ciphertext may be one block longer.
  decrypt-IsRefused :
      (kid alg msg : Bytes) (iv tag aad pubkey hkdf_ctx : Slice) (ext_kid : Option Bytes)
      (s : State E.World)
      → cipher_ok
          (codes "crypto/cipher/decrypt")
          kid
          alg
          msg
          cipher_ct_max
          iv
          tag
          aad
          ext_kid
          pubkey
          hkdf_ctx
        ≡ false
      → IsRefused s (decrypt kid alg msg iv tag aad ext_kid pubkey hkdf_ctx s)
  unfolding decrypt
  decrypt-IsRefused kid alg msg iv tag aad pubkey hkdf_ctx ext_kid s h =
      IsRefused-build (codes "crypto/cipher/decrypt") kid alg msg cipher_ct_max iv tag aad ext_kid
        pubkey hkdf_ctx _ (cleared s) h
