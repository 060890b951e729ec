-- ===== src/Crypto/Pqc.antt =====
-- src/proto_crypto.c: the post-quantum calls.
pub mod Refused
use encedo_hem_c_api.Prelude.{
  ℕ, Bool, true, false, not, ◌&&◌, ◌-◌, ◌+◌, ◌%◌, Option, none, some, List, [], ◌∷◌, ◌++◌, Bytes,
  codes, decimal, length, take, ◌==◌, if◌then◌else◌, ◌≡◌,
}
use encedo_hem_c_api.Rc.{Rc, protocol, device}
use encedo_hem_c_api.Env.{Env, Result, ok, err, post}
use encedo_hem_c_api.Base64.{
  Slice, bytes, size_mod, b64_std_encode, b64_std_encoded_len, b64_std_decode,
}
use encedo_hem_c_api.Context.Fail.{fail}
use encedo_hem_c_api.Ejwt.{string_field}
use encedo_hem_c_api.Json.{json_get_string}
use encedo_hem_c_api.Send.{is_kid_hex}
use encedo_hem_c_api.Device.{device_json, device_raw}
use encedo_hem_c_api.Binding.{
  add_encoded, b64_field, b64_given, body_with, clear_last_error, or_nomem, require,
}
use encedo_hem_c_api.Binding.Refused.{
  IsRefused, IsRefused-bind, Checks, Checks-require, Checks-then, IsRefused-then, cleared,
}
use encedo_hem_c_api.Monad.{Prog, State, alloc, attempt, get_ctx, return, throw, ◌>>=◌, ◌>>◌}
use encedo_hem_c_api.Crypto.{sized, sign_msg_max, sig_ctx_ok, contents, use_scope, blob_of}

abbrev pub pqc_alg_size : ℕ
pqc_alg_size = 16

abbrev pub mlkem_ss_len : ℕ
mlkem_ss_len = 32

abbrev pub mlkem_ct_max : ℕ
mlkem_ct_max = 1568

abbrev pub mldsa_sig_max : ℕ
mldsa_sig_max = 4627

pub record Encapsulated : Type 0 where
  pub alg : Bytes
  pub ss : Bytes
  pub ct : Bytes

pub record Secret : Type 0 where
  pub alg : Bytes
  pub ss : Bytes

pub record MldsaSignature : Type 0 where
  pub alg : Bytes
  pub sig : Bytes

abbrev pub truncated : Option Bytes → Bytes
truncated none = []
truncated (some alg) = take (pqc_alg_size - 1) alg

abbrev pub if_ss : Option Bytes → Option Bytes
if_ss none = none
if_ss (some raw) = if length raw == mlkem_ss_len then some raw else none

-- Through a buffer of four bytes more than the secret has.
abbrev pub ss_of : Option Bytes → Option Bytes
ss_of none = none
ss_of (some []) = none
ss_of (some (c ∷ cs)) = if_ss (b64_std_decode (bytes (c ∷ cs)) (some (mlkem_ss_len + 4)))

abbrev pub sig_ok : Option Bytes → Bool
sig_ok none = true
sig_ok (some sig) = sized mldsa_sig_max sig

module _ ⦃E : Env⦄ where
  abbrev pub copy_alg : E.Node → Bytes
  copy_alg root = truncated (json_get_string (some root) (some (codes "alg")))

  abbrev pub decode_ss : E.Node → Option Bytes
  decode_ss root = ss_of (json_get_string (some root) (some (codes "ss")))

  abbrev pub encapsulated : Bytes → Bytes → Option Bytes → Prog Encapsulated
  encapsulated alg ct none =
      fail protocol 200 none (codes "crypto/mlkem/encaps: malformed 'ct'/'ss'")
  encapsulated alg ct (some ss) = return (record { alg = alg; ss = ss; ct = ct })

  -- `ehem_mlkem_encaps`
  unfoldable pub mlkem_encaps : Bytes → Prog Encapsulated
  mlkem_encaps kid = do
    clear_last_error
    require (is_kid_hex kid) (codes "crypto/mlkem/encaps: kid must be exactly 32 hex chars")
    body ← body_with (string_field (codes "kid") kid ∷ [])
    root ←
        device_json post (codes "/api/crypto/pqc/mlkem/encaps") (some body) (some (use_scope kid))
    ct ←
        blob_of (codes "crypto/mlkem/encaps: response missing 'ct'")
          (codes "crypto/mlkem/encaps: malformed 'ct'/'ss'")
          (json_get_string (some root) (some (codes "ct")))
    encapsulated (copy_alg root) ct (decode_ss root)

  abbrev pub b64_dup : Bytes → Prog (Option Bytes)
  b64_dup raw = do
    room ← alloc
    return (
        if room
        then b64_std_encode (bytes raw) (some ((b64_std_encoded_len (length raw) + 1) % size_mod))
        else none)

  abbrev pub ct_behind : Option Bytes → Option E.Node → Prog (Option E.Node)
  ct_behind field none = return none
  ct_behind field (some obj) = add_encoded (codes "ct") field (some obj)

  -- The ciphertext is encoded before the first field is added.
  abbrev pub decaps_fields : Bytes → Bytes → Option E.Node → Prog (Option E.Node)
  decaps_fields kid ct obj = do
    field ← b64_dup ct
    obj' ← string_field (codes "kid") kid obj
    ct_behind field obj'

  abbrev pub secret_in : Bytes → Option Bytes → Prog Secret
  secret_in alg none =
      fail protocol 200 none (codes "crypto/mlkem/decaps: response missing/bad 'ss'")
  secret_in alg (some ss) = return (record { alg = alg; ss = ss })

  -- `ehem_mlkem_decaps`
  unfoldable pub mlkem_decaps : Bytes → Bytes → Prog Secret
  mlkem_decaps kid ct = do
    clear_last_error
    require (is_kid_hex kid) (codes "crypto/mlkem/decaps: kid must be exactly 32 hex chars")
    require (sized mlkem_ct_max ct) (
        codes
          "crypto/mlkem/decaps: ct must be 1..1568 bytes (the key's set demands its exact size)")
    body ← body_with (decaps_fields kid ct ∷ [])
    root ←
        device_json post (codes "/api/crypto/pqc/mlkem/decaps") (some body) (some (use_scope kid))
    result ← alloc
    or_nomem result tt
    secret_in (copy_alg root) (decode_ss root)

  abbrev pub sig_field : Option Bytes → List (Option E.Node → Prog (Option E.Node))
  sig_field none = []
  sig_field (some sig) = b64_field (codes "sign") sig ∷ []

  module _ (what kid msg : Bytes) (sig : Option Bytes) (sig_ctx : Slice) where
    unfoldable pub check_mldsa : Prog (Unit {0})
    check_mldsa = do
      require (is_kid_hex kid) (what ++ codes ": kid must be exactly 32 hex chars")
      require (sized sign_msg_max msg) (what ++ codes ": msg must be 1..2048 bytes")
      require (sig_ok sig) (what ++ codes ": sig must be 1..4627 bytes")
      require (sig_ctx_ok sig_ctx) (what ++ codes ": sig_ctx must be at most 255 bytes")

    abbrev pub mldsa_fields : List (Option E.Node → Prog (Option E.Node))
    mldsa_fields =
        (string_field (codes "kid") kid ∷ b64_field (codes "msg") msg ∷ sig_field sig)
        ++ b64_given (codes "ctx") (contents sig_ctx)

    unfoldable pub mldsa_build : Prog Bytes
    mldsa_build = do check_mldsa; body_with mldsa_fields

  -- `ehem_mldsa_sign`
  unfoldable pub mldsa_sign : Bytes → Bytes → Slice → Prog MldsaSignature
  mldsa_sign kid msg sig_ctx = do
    clear_last_error
    body ← mldsa_build (codes "crypto/mldsa/sign") kid msg none sig_ctx
    root ← device_json post (codes "/api/crypto/pqc/mldsa/sign") (some body) (some (use_scope kid))
    sig ←
        blob_of (codes "crypto/mldsa/sign: response missing 'sign'")
          (codes "crypto/mldsa/sign: 'sign' is not valid base64")
          (json_get_string (some root) (some (codes "sign")))
    return (record { alg = copy_alg root; sig = sig })

  abbrev pub device_failure : ℕ → Prog (Unit {0})
  device_failure status = fail device status none (
      codes "crypto/mldsa/verify: device reported failure (raw status "
      ++ decimal status
      ++ codes " - fw v1.2.2 emits its crypto error code here)")

  -- A valid signature is an empty reply of 200; a failed one can have a status of any value, which
  -- the request path takes for a breach of the protocol.
  abbrev pub verdict : Rc → ℕ → Prog (Unit {0})
  verdict protocol status =
      if status == 200
      then clear_last_error
      else if not (status == 0)
      then device_failure status
      else throw protocol
  verdict rc status = throw rc

  abbrev pub verified : Result Bytes → Prog (Unit {0})
  verified (ok body) = clear_last_error
  verified (err rc) = do ctx ← get_ctx; verdict rc ctx.last_error.http_status

  -- `ehem_mldsa_verify`
  unfoldable pub mldsa_verify : Bytes → Bytes → Slice → Bytes → Prog (Unit {0})
  mldsa_verify kid msg sig_ctx sig = do
    clear_last_error
    body ← mldsa_build (codes "crypto/mldsa/verify") kid msg (some sig) sig_ctx
    r ←
        attempt (
          device_raw post (codes "/api/crypto/pqc/mldsa/verify") (some body) (some (use_scope kid)))
    verified r
