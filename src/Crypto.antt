-- ===== src/Crypto.antt =====
-- src/proto_crypto.c: signatures and the key agreement. A buffer that may be NULL is a `Slice`.
pub mod Cipher
pub mod Hmac
pub mod Peer
pub mod Pqc
pub mod Random
pub mod Wrap
pub mod Refused
mod Tests
use encedo_hem_c_api.Prelude.{
  ℕ, zero, suc, Bool, true, false, not, ◌&&◌, ◌||◌, Option, none, some, List, [], ◌∷◌, ◌++◌, Bytes,
  codes, length, leb, ◌==◌, if◌then◌else◌,
}
use encedo_hem_c_api.Rc.{Rc, protocol}
use encedo_hem_c_api.Env.{Env, Result, ok, err, post}
use encedo_hem_c_api.Base64.{Slice, null, bytes, b64_std_decode}
use encedo_hem_c_api.Context.{Ctx}
use encedo_hem_c_api.Context.Fail.{fail}
use encedo_hem_c_api.Ejwt.{string_field}
use encedo_hem_c_api.Json.{json_get_string}
use encedo_hem_c_api.Send.{is_kid_hex}
use encedo_hem_c_api.Device.{device_json, device_raw}
use encedo_hem_c_api.Binding.{
  b64_field, b64_given, body_with, clear_last_error, optional_field, or_nomem, require,
}
use encedo_hem_c_api.Monad.{Prog, alloc, attempt, get_ctx, return, throw, ◌>>=◌, ◌>>◌}

abbrev pub sign_msg_max : ℕ
sign_msg_max = 2048

abbrev pub sign_sig_ctx_max : ℕ
sign_sig_ctx_max = 255

abbrev pub verify_sig_max : ℕ
verify_sig_max = 148

abbrev pub ecdh_pubkey_max : ℕ
ecdh_pubkey_max = 67

abbrev pub sized : ℕ → Bytes → Bool
sized max b = leb 1 (length b) && leb (length b) max

-- A NULL context of a signature has no length.
unfoldable pub sig_ctx_ok : Slice → Bool
sig_ctx_ok (null zero) = true
sig_ctx_ok (null (suc n)) = false
sig_ctx_ok (bytes b) = leb (length b) sign_sig_ctx_max

-- What `sig_ctx != NULL && sig_ctx_len > 0` lets through, as of a public key.
abbrev pub contents : Slice → Bytes
contents (null n) = []
contents (bytes b) = b

abbrev pub is_given : Slice → Bool
is_given (null zero) = false
is_given (null (suc n)) = true
is_given (bytes b) = true

abbrev pub is_present : Option Bytes → Bool
is_present none = false
is_present (some s) = true

abbrev pub ext_kid_ok : Option Bytes → Bool
ext_kid_ok none = true
ext_kid_ok (some kid) = is_kid_hex kid

abbrev pub pubkey_ok : Slice → Bool
pubkey_ok (null zero) = true
pubkey_ok (null (suc n)) = false
pubkey_ok (bytes b) = sized ecdh_pubkey_max b

abbrev pub non_empty_alg : Option Bytes → Bool
non_empty_alg none = true
non_empty_alg (some alg) = leb 1 (length alg)

abbrev pub use_scope : Bytes → Bytes
use_scope kid = codes "keymgmt:use:" ++ kid

module _ ⦃E : Env⦄ where
  -- At most one peer, and one at least where a peer is required.
  unfoldable pub check_peer_args : Bytes → Option Bytes → Slice → Bool → Prog (Unit {0})
  check_peer_args what ext_kid pubkey allow_none = do
    require (not (is_present ext_kid && is_given pubkey))
        (what ++ codes ": give either ext_kid or pubkey, not both")
    require (is_present ext_kid || (is_given pubkey || allow_none))
        (what ++ codes ": a peer is required (ext_kid or pubkey)")
    require (ext_kid_ok ext_kid) (what ++ codes ": ext_kid must be exactly 32 hex chars")
    require (pubkey_ok pubkey) (what ++ codes ": pubkey must be 1..67 bytes")

  abbrev pub peer_fields : Option Bytes → Slice → List (Option E.Node → Prog (Option E.Node))
  peer_fields ext_kid pubkey =
      optional_field (codes "ext_kid") ext_kid ++ b64_given (codes "pubkey") (contents pubkey)

  abbrev pub decoded_or : Bytes → Option Bytes → Prog Bytes
  decoded_or message none = fail protocol 200 none message
  decoded_or message (some []) = fail protocol 200 none message
  decoded_or message (some (c ∷ cs)) = return (c ∷ cs)

  -- A blob in a reply: there, and valid base64 of at least one byte.
  abbrev pub blob_of : Bytes → Bytes → Option Bytes → Prog Bytes
  blob_of missing malformed none = fail protocol 200 none missing
  blob_of missing malformed (some []) = fail protocol 200 none missing
  blob_of missing malformed (some (c ∷ cs)) = do
    result ← alloc
    or_nomem result tt
    buffer ← alloc
    or_nomem buffer tt
    decoded_or malformed (b64_std_decode (bytes (c ∷ cs)) (some (length (c ∷ cs))))

  unfoldable pub check_sign : Bytes → Bytes → Bytes → Slice → Prog (Unit {0})
  check_sign kid alg msg sig_ctx = do
    require (is_kid_hex kid) (codes "crypto/sign: kid must be exactly 32 hex chars")
    require (leb 1 (length alg)) (codes "crypto/sign: alg must be non-empty")
    require (sized sign_msg_max msg)
        (codes "crypto/sign: msg must be 1..2048 bytes (the device rejects an empty message)")
    require (sig_ctx_ok sig_ctx) (codes "crypto/sign: sig_ctx must be at most 255 bytes")

  abbrev pub sign_fields :
      Bytes → Bytes → Bytes → Slice → List (Option E.Node → Prog (Option E.Node))
  sign_fields kid alg msg sig_ctx =
      string_field (codes "kid") kid
      ∷ b64_field (codes "msg") msg
      ∷ string_field (codes "alg") alg
      ∷ b64_given (codes "ctx") (contents sig_ctx)

  -- `ehem_sign`
  unfoldable pub sign : Bytes → Bytes → Bytes → Slice → Prog Bytes
  sign kid alg msg sig_ctx = do
    clear_last_error
    check_sign kid alg msg sig_ctx
    body ← body_with (sign_fields kid alg msg sig_ctx)
    root ← device_json post (codes "/api/crypto/exdsa/sign") (some body) (some (use_scope kid))
    blob_of (codes "crypto/sign: response missing 'sign'")
        (codes "crypto/sign: 'sign' is not valid base64")
        (json_get_string (some root) (some (codes "sign")))

  unfoldable pub check_verify : Bytes → Bytes → Bytes → Slice → Bytes → Prog (Unit {0})
  check_verify kid alg msg sig_ctx sig = do
    require (is_kid_hex kid) (codes "crypto/verify: kid must be exactly 32 hex chars")
    require (leb 1 (length alg)) (codes "crypto/verify: alg must be non-empty")
    require (sized sign_msg_max msg) (codes "crypto/verify: msg must be 1..2048 bytes")
    require (sized verify_sig_max sig) (codes "crypto/verify: sig must be 1..148 bytes")
    require (sig_ctx_ok sig_ctx) (codes "crypto/verify: sig_ctx must be at most 255 bytes")

  abbrev pub verify_fields :
      Bytes → Bytes → Bytes → Slice → Bytes → List (Option E.Node → Prog (Option E.Node))
  verify_fields kid alg msg sig_ctx sig =
      string_field (codes "kid") kid
      ∷ b64_field (codes "msg") msg
      ∷ b64_field (codes "sign") sig
      ∷ string_field (codes "alg") alg
      ∷ b64_given (codes "ctx") (contents sig_ctx)

  -- A valid signature is an empty reply of 200, which the request path takes for a failure.
  abbrev pub unless_valid : Rc → Ctx → Prog (Unit {0})
  unless_valid protocol ctx =
      if ctx.last_error.http_status == 200 then clear_last_error else throw protocol
  unless_valid rc ctx = throw rc

  abbrev pub valid_if_empty : Result Bytes → Prog (Unit {0})
  valid_if_empty (ok body) = clear_last_error
  valid_if_empty (err rc) = do ctx ← get_ctx; unless_valid rc ctx

  -- `ehem_verify`
  unfoldable pub verify_signature : Bytes → Bytes → Bytes → Slice → Bytes → Prog (Unit {0})
  verify_signature kid alg msg sig_ctx sig = do
    clear_last_error
    check_verify kid alg msg sig_ctx sig
    body ← body_with (verify_fields kid alg msg sig_ctx sig)
    r ←
        attempt
          (device_raw post (codes "/api/crypto/exdsa/verify") (some body) (some (use_scope kid)))
    valid_if_empty r

  unfoldable pub check_ecdh : Bytes → Option Bytes → Slice → Option Bytes → Prog (Unit {0})
  check_ecdh kid ext_kid pubkey alg = do
    require (is_kid_hex kid) (codes "crypto/ecdh: kid must be exactly 32 hex chars")
    check_peer_args (codes "crypto/ecdh") ext_kid pubkey false
    require (non_empty_alg alg) (codes "crypto/ecdh: alg must be non-empty when given")

  abbrev pub ecdh_fields :
      Bytes → Option Bytes → Slice → Option Bytes → List (Option E.Node → Prog (Option E.Node))
  ecdh_fields kid ext_kid pubkey alg =
      (string_field (codes "kid") kid ∷ peer_fields ext_kid pubkey)
      ++ optional_field (codes "alg") alg

  -- `ehem_ecdh`
  unfoldable pub ecdh : Bytes → Option Bytes → Slice → Option Bytes → Prog Bytes
  ecdh kid ext_kid pubkey alg = do
    clear_last_error
    check_ecdh kid ext_kid pubkey alg
    body ← body_with (ecdh_fields kid ext_kid pubkey alg)
    root ← device_json post (codes "/api/crypto/ecdh") (some body) (some (use_scope kid))
    blob_of (codes "crypto/ecdh: response missing 'ecdh'")
        (codes "crypto/ecdh: 'ecdh' is not valid base64")
        (json_get_string (some root) (some (codes "ecdh")))
