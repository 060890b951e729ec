-- ===== src/Crypto/Wrap.antt =====
-- src/proto_crypto.c: key wrapping and unwrapping, and the arguments that both refuse.
use encedo_hem_c_api.Prelude.{
  ℕ, Bool, true, false, ◌&&◌, ◌||◌, Option, none, some, List, [], ◌∷◌, ◌++◌, Bytes, codes, length,
  bytes_eq, ◌≡◌,
}
use encedo_hem_c_api.Rc.{protocol}
use encedo_hem_c_api.Env.{Env, post}
use encedo_hem_c_api.Base64.{Slice, null, bytes, b64_std_decode}
use encedo_hem_c_api.Context.Fail.{fail}
use encedo_hem_c_api.Ejwt.{string_field}
use encedo_hem_c_api.Json.{json_get_string}
use encedo_hem_c_api.Send.{is_kid_hex}
use encedo_hem_c_api.Device.{device_json}
use encedo_hem_c_api.Binding.{
  b64_field, b64_given, body_with, clear_last_error, optional_field, or_nomem, require,
}
use encedo_hem_c_api.Binding.Refused.{
  IsRefused, IsRefused-bind, Checks, Checks-require, Checks-then, IsRefused-then, cleared,
}
use encedo_hem_c_api.Crypto.Peer.{peer_fits, Checks-peer}
use encedo_hem_c_api.Crypto.Cipher.{exact_or_none, at_most, unless_null, cipher_hkdf_ctx_max}
use encedo_hem_c_api.Monad.{Prog, State, alloc, ◌>>=◌, ◌>>◌}
use encedo_hem_c_api.Crypto.{sized, contents, use_scope, check_peer_args, peer_fields, decoded_or}

abbrev wrap_iv_len : ℕ
wrap_iv_len = 8

abbrev wrap_msg_max : ℕ
wrap_msg_max = 2048

abbrev wrap_msg_ok : Slice → Bool
wrap_msg_ok (null n) = false
wrap_msg_ok (bytes b) = sized wrap_msg_max b

abbrev wrap_alg_ok : Option Bytes → Bool
wrap_alg_ok none = true
wrap_alg_ok (some alg) =
    bytes_eq alg (codes "AES128")
    || (bytes_eq alg (codes "AES192") || bytes_eq alg (codes "AES256"))

module _ ⦃E : Env⦄ where
  abbrev wrapped_data : Bytes → Bytes → Option Bytes → Prog Bytes
  wrapped_data missing malformed none = fail protocol 200 none missing
  wrapped_data missing malformed (some []) = fail protocol 200 none missing
  wrapped_data missing malformed (some (c ∷ cs)) = do
    buffer ← alloc
    or_nomem buffer tt
    decoded_or malformed (b64_std_decode (bytes (c ∷ cs)) (some (length (c ∷ cs))))

  abbrev wrap_request : Bytes → Bytes → Bytes → Bytes → Prog Bytes
  wrap_request path scope body resp_field = do
    root ← device_json post path (some body) (some scope)
    wrapped_data (path ++ codes ": response missing '" ++ resp_field ++ codes "'")
        (path ++ codes ": '" ++ resp_field ++ codes "' is not valid base64")
        (json_get_string (some root) (some resp_field))

  module _ (what kid : Bytes) (alg : Option Bytes) (msg : Slice) (ext_kid : Option Bytes)
      (pubkey hkdf_ctx iv : Slice) where
    unfoldable check_wrap : Prog (Unit {0})
    check_wrap = do
      require (is_kid_hex kid) (what ++ codes ": kid must be exactly 32 hex chars")
      require (wrap_msg_ok msg) (what ++ codes ": msg must be 1..2048 bytes")
      require (wrap_alg_ok alg) (what ++ codes ": alg must be AES128, AES192 or AES256")
      check_peer_args what ext_kid pubkey true
      require (at_most cipher_hkdf_ctx_max hkdf_ctx)
          (what ++ codes ": hkdf_ctx must be at most 64 bytes")
      require (exact_or_none wrap_iv_len iv)
          (what ++ codes ": iv must be exactly 8 bytes when given")

    abbrev wrap_fields : List (Option E.Node → Prog (Option E.Node))
    wrap_fields =
        (string_field (codes "kid") kid
          ∷ b64_field (codes "msg") (contents msg)
          ∷ optional_field (codes "alg") alg)
        ++ (peer_fields ext_kid pubkey
            ++ (b64_given (codes "ctx") (contents hkdf_ctx) ++ unless_null (codes "iv") iv))

    unfoldable build_wrap_body : Prog Bytes
    build_wrap_body = do check_wrap; body_with wrap_fields

    abbrev wrap_ok : Bool
    wrap_ok =
        is_kid_hex kid
        && (wrap_msg_ok msg
            && (wrap_alg_ok alg
                && (peer_fits ext_kid pubkey
                    && (at_most cipher_hkdf_ctx_max hkdf_ctx && exact_or_none wrap_iv_len iv))))

    Checks-wrap : Checks wrap_ok check_wrap
    unfolding check_wrap
    Checks-wrap = Checks-then (is_kid_hex kid) _ _ _ (Checks-require (is_kid_hex kid) _) (
        Checks-then (wrap_msg_ok msg) _ _ _ (Checks-require (wrap_msg_ok msg) _) (
          Checks-then (wrap_alg_ok alg) _ _ _ (Checks-require (wrap_alg_ok alg) _) (
            Checks-then (peer_fits ext_kid pubkey) _ _ _ (Checks-peer what ext_kid pubkey) (
              Checks-then (at_most cipher_hkdf_ctx_max hkdf_ctx) (exact_or_none wrap_iv_len iv) _ _
                (Checks-require (at_most cipher_hkdf_ctx_max hkdf_ctx) _)
                (Checks-require (exact_or_none wrap_iv_len iv) _)))))

    IsRefused-build :
        {A : Type 0} (rest : Bytes → Prog A) (s : State E.World)
        → wrap_ok ≡ false
        → IsRefused s ((build_wrap_body >>= rest) s)
    unfolding build_wrap_body
    IsRefused-build rest s h =
        IsRefused-bind s (build_wrap_body s) rest
          (IsRefused-then (body_with wrap_fields) s Checks-wrap h)

  -- `ehem_wrap`
  unfoldable wrap : Bytes → Option Bytes → Slice → Option Bytes → Slice → Slice → Slice → Prog Bytes
  wrap kid alg msg ext_kid pubkey hkdf_ctx iv = do
    clear_last_error
    body ← build_wrap_body (codes "crypto/cipher/wrap") kid alg msg ext_kid pubkey hkdf_ctx iv
    w ← alloc
    or_nomem w tt
    wrap_request (codes "/api/crypto/cipher/wrap") (use_scope kid) body (codes "wrapped")

  -- `ehem_unwrap`
  unfoldable unwrap :
      Bytes → Option Bytes → Slice → Option Bytes → Slice → Slice → Slice → Prog Bytes
  unwrap kid alg msg ext_kid pubkey hkdf_ctx iv = do
    clear_last_error
    body ← build_wrap_body (codes "crypto/cipher/unwrap") kid alg msg ext_kid pubkey hkdf_ctx iv
    u ← alloc
    or_nomem u tt
    wrap_request (codes "/api/crypto/cipher/unwrap") (use_scope kid) body (codes "unwrapped")

  -- A key is neither wrapped nor unwrapped where an argument is out of bounds: both calls give
  -- EHEM_ERR_ARG, and no request has been sent.
  wrap-IsRefused :
      (kid : Bytes) (alg ext_kid : Option Bytes) (msg pubkey hkdf_ctx iv : Slice)
      (s : State E.World)
      → wrap_ok (codes "crypto/cipher/wrap") kid alg msg ext_kid pubkey hkdf_ctx iv ≡ false
      → IsRefused s (wrap kid alg msg ext_kid pubkey hkdf_ctx iv s)
        × IsRefused s (unwrap kid alg msg ext_kid pubkey hkdf_ctx iv s)
  unfolding wrap unwrap
  wrap-IsRefused kid alg ext_kid msg pubkey hkdf_ctx iv s h = (
    IsRefused-build (codes "crypto/cipher/wrap") kid alg msg ext_kid pubkey hkdf_ctx iv _
        (cleared s) h,
    IsRefused-build (codes "crypto/cipher/unwrap") kid alg msg ext_kid pubkey hkdf_ctx iv _
        (cleared s) h,
  )
