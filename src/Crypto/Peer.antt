-- ===== src/Crypto/Peer.antt =====
-- `check_peer_args` of src/proto_crypto.c where no peer is needed.
use encedo_hem_c_api.Prelude.{Bool, true, not, ◌&&◌, ◌||◌, Option, Bytes}
use encedo_hem_c_api.Env.{Env}
use encedo_hem_c_api.Base64.{Slice}
use encedo_hem_c_api.Binding.Refused.{Checks, Checks-require, Checks-then}
use encedo_hem_c_api.Crypto.{is_given, is_present, ext_kid_ok, pubkey_ok, check_peer_args}

module _ ⦃E : Env⦄ where
  abbrev pub peer_fits : Option Bytes → Slice → Bool
  peer_fits ext_kid pubkey =
      not (is_present ext_kid && is_given pubkey)
      && ((is_present ext_kid || (is_given pubkey || true))
          && (ext_kid_ok ext_kid && pubkey_ok pubkey))

  pub Checks-peer :
      (what : Bytes) (ext_kid : Option Bytes) (pubkey : Slice)
      → Checks (peer_fits ext_kid pubkey) (check_peer_args what ext_kid pubkey true)
  unfolding check_peer_args
  Checks-peer what ext_kid pubkey =
      Checks-then (not (is_present ext_kid && is_given pubkey)) _ _ _
        (Checks-require (not (is_present ext_kid && is_given pubkey)) _)
        (Checks-then (is_present ext_kid || (is_given pubkey || true)) _ _ _
          (Checks-require (is_present ext_kid || (is_given pubkey || true)) _)
          (Checks-then (ext_kid_ok ext_kid) (pubkey_ok pubkey) _ _
            (Checks-require (ext_kid_ok ext_kid) _) (Checks-require (pubkey_ok pubkey) _)))
