-- ===== src/Crypto/Hmac.antt =====
-- src/proto_crypto.c: the two calls on message authentication codes, and the arguments both refuse.
use encedo_hem_c_api.Prelude.{
  ℕ, Bool, true, false, not, ◌&&◌, ◌||◌, Option, none, some, List, [], ◌∷◌, ◌++◌, Bytes, codes, ◌≡◌,
  refl,
}
use encedo_hem_c_api.Env.{Env, post}
use encedo_hem_c_api.Base64.{Slice}
use encedo_hem_c_api.Ejwt.{string_field}
use encedo_hem_c_api.Json.{json_get_string}
use encedo_hem_c_api.Send.{is_kid_hex}
use encedo_hem_c_api.Device.{device_json, device_raw}
use encedo_hem_c_api.Binding.{b64_field, body_with, clear_last_error, optional_field, require}
use encedo_hem_c_api.Binding.Refused.{
  IsRefused, IsRefused-bind, Checks, Checks-require, Checks-then, IsRefused-then, cleared,
}
use encedo_hem_c_api.Crypto.Peer.{peer_fits, Checks-peer}
use encedo_hem_c_api.Monad.{Prog, State, attempt, ◌>>=◌, ◌>>◌}
use encedo_hem_c_api.Crypto.{
  sized, sign_msg_max, is_given, is_present, non_empty_alg, use_scope, check_peer_args, peer_fields,
  blob_of, valid_if_empty,
}

abbrev hmac_mac_max : ℕ
hmac_mac_max = 64

abbrev mac_ok : Option Bytes → Bool
mac_ok none = true
mac_ok (some mac) = sized hmac_mac_max mac

-- The key comes from an agreement with a peer.
abbrev derived : Option Bytes → Slice → Bool
derived ext_kid pubkey = is_present ext_kid || is_given pubkey

module _ ⦃E : Env⦄ where
  unfoldable check_hmac :
      Bytes → Bytes → Option Bytes → Bytes → Option Bytes → Option Bytes → Slice → Prog (Unit {0})
  check_hmac what kid alg msg mac ext_kid pubkey = do
    require (is_kid_hex kid) (what ++ codes ": kid must be exactly 32 hex chars")
    require (sized sign_msg_max msg) (what ++ codes ": msg must be 1..2048 bytes")
    require (mac_ok mac) (what ++ codes ": mac must be 1..64 bytes")
    check_peer_args what ext_kid pubkey true
    require (is_present alg || not (derived ext_kid pubkey))
        (what ++ codes ": alg is required in the ECDH-derived flow")
    require (non_empty_alg alg) (what ++ codes ": alg must be non-empty when given")

  abbrev mac_field : Option Bytes → List (Option E.Node → Prog (Option E.Node))
  mac_field none = []
  mac_field (some mac) = b64_field (codes "mac") mac ∷ []

  abbrev hmac_fields :
      Bytes
      → Option Bytes
      → Bytes
      → Option Bytes
      → Option Bytes
      → Slice
      → List (Option E.Node → Prog (Option E.Node))
  hmac_fields kid alg msg mac ext_kid pubkey =
      (string_field (codes "kid") kid ∷ b64_field (codes "msg") msg ∷ mac_field mac)
      ++ (optional_field (codes "alg") alg ++ peer_fields ext_kid pubkey)

  -- `hmac_build`: without a code the body asks for one.
  unfoldable hmac_build :
      Bytes → Bytes → Option Bytes → Bytes → Option Bytes → Option Bytes → Slice → Prog Bytes
  hmac_build what kid alg msg mac ext_kid pubkey = do
    check_hmac what kid alg msg mac ext_kid pubkey
    body_with (hmac_fields kid alg msg mac ext_kid pubkey)

  -- `ehem_hmac`
  unfoldable hmac : Bytes → Option Bytes → Bytes → Option Bytes → Slice → Prog Bytes
  hmac kid alg msg ext_kid pubkey = do
    clear_last_error
    body ← hmac_build (codes "crypto/hmac/hash") kid alg msg none ext_kid pubkey
    root ← device_json post (codes "/api/crypto/hmac/hash") (some body) (some (use_scope kid))
    blob_of (codes "crypto/hmac/hash: response missing 'mac'")
        (codes "crypto/hmac/hash: 'mac' is not valid base64")
        (json_get_string (some root) (some (codes "mac")))

  -- `ehem_hmac_verify`
  unfoldable hmac_verify :
      Bytes → Option Bytes → Bytes → Bytes → Option Bytes → Slice → Prog (Unit {0})
  hmac_verify kid alg msg mac ext_kid pubkey = do
    clear_last_error
    body ← hmac_build (codes "crypto/hmac/verify") kid alg msg (some mac) ext_kid pubkey
    r ←
        attempt
          (device_raw post (codes "/api/crypto/hmac/verify") (some body) (some (use_scope kid)))
    valid_if_empty r

  abbrev hmac_ok : Bytes → Option Bytes → Bytes → Option Bytes → Option Bytes → Slice → Bool
  hmac_ok kid alg msg mac ext_kid pubkey =
      is_kid_hex kid
      && (sized sign_msg_max msg
          && (mac_ok mac
              && (peer_fits ext_kid pubkey
                  && ((is_present alg || not (derived ext_kid pubkey)) && non_empty_alg alg))))

  Checks-hmac :
      (what kid msg : Bytes) (alg mac ext_kid : Option Bytes) (pubkey : Slice)
      → Checks
          (hmac_ok kid alg msg mac ext_kid pubkey)
          (check_hmac what kid alg msg mac ext_kid pubkey)
  unfolding check_hmac
  Checks-hmac what kid msg alg mac ext_kid pubkey =
      Checks-then (is_kid_hex kid) _ _ _ (Checks-require (is_kid_hex kid) _) (
        Checks-then (sized sign_msg_max msg) _ _ _ (Checks-require (sized sign_msg_max msg) _) (
          Checks-then (mac_ok mac) _ _ _ (Checks-require (mac_ok mac) _) (
            Checks-then (peer_fits ext_kid pubkey) _ _ _ (Checks-peer what ext_kid pubkey) (
              Checks-then (is_present alg || not (derived ext_kid pubkey)) (non_empty_alg alg) _ _
                (Checks-require (is_present alg || not (derived ext_kid pubkey)) _)
                (Checks-require (non_empty_alg alg) _)))))

  fifth : (a b c d e : Bool) → e ≡ false → (a && (b && (c && (d && e)))) ≡ false
  fifth true true true true e h = h
  fifth true true true false e h = refl
  fifth true true false d e h = refl
  fifth true false c d e h = refl
  fifth false b c d e h = refl

  no_algorithm : (b : Bool) → b ≡ true → ((false || not b) && true) ≡ false
  no_algorithm true h = refl
  no_algorithm false h = cc

  -- The arguments are checked once, in the builder, with the memory and the world outside as before.
  IsRefused-build :
      (what kid msg : Bytes) (mac ext_kid : Option Bytes) (pubkey : Slice) (s : State E.World)
      → derived ext_kid pubkey ≡ true
      → IsRefused s (hmac_build what kid none msg mac ext_kid pubkey s)
  unfolding hmac_build
  IsRefused-build what kid msg mac ext_kid pubkey s h =
      IsRefused-then _ s (Checks-hmac what kid msg none mac ext_kid pubkey) (
        fifth (is_kid_hex kid) (sized sign_msg_max msg) (mac_ok mac) (peer_fits ext_kid pubkey) _
          (no_algorithm (derived ext_kid pubkey) h))

  -- With a peer and no algorithm, neither a code is asked for nor one verified, whatever the other
  -- arguments: both calls give EHEM_ERR_ARG, and no request has been sent.
  hmac-IsRefused :
      (kid msg mac : Bytes) (ext_kid : Option Bytes) (pubkey : Slice) (s : State E.World)
      → derived ext_kid pubkey ≡ true
      → IsRefused s (hmac kid none msg ext_kid pubkey s)
        × IsRefused s (hmac_verify kid none msg mac ext_kid pubkey s)
  unfolding hmac hmac_verify
  hmac-IsRefused kid msg mac ext_kid pubkey s h = (
    IsRefused-bind (cleared s)
        (hmac_build (codes "crypto/hmac/hash") kid none msg none ext_kid pubkey (cleared s)) _
        (IsRefused-build (codes "crypto/hmac/hash") kid msg none ext_kid pubkey (cleared s) h),
    IsRefused-bind (cleared s)
        (hmac_build (codes "crypto/hmac/verify") kid none msg (some mac) ext_kid pubkey (cleared s))
        _
        (IsRefused-build (codes "crypto/hmac/verify") kid msg (some mac) ext_kid pubkey (cleared s)
          h),
  )
