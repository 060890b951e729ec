-- ===== src/Base64/Tests.antt =====
-- Runs of the codecs, and their theorems at concrete inputs.
use encedo_hem_c_api.Prelude.{
  ◌<◌, ◌≤◌, true, ◌≡◌, refl, ◌⊎◌, none, some, Bytes, codes, length, All, arith,
}
use encedo_hem_c_api.Base64.{
  Slice, bytes, b64_encode, b64_decode, b64_std_encode, b64url_encode, b64_std_decode,
  b64url_decode, encode_loop, strip_padding, decode_loop, rev, b64_std_encoded_len,
  b64url_encoded_len, b64_std_alpha,
}
use encedo_hem_c_api.Base64.Sextets.{IsByte}
use encedo_hem_c_api.Base64.Decode.{reference_decode, b64_decode-reference}
use encedo_hem_c_api.Base64.RoundTrip.{encoded_size, b64_encode-length, b64_decode-b64_encode}

abbrev foob : Slice
foob = bytes (codes "foob")

std_foob : b64_std_encode foob (some 64) ≡ some (codes "Zm9vYg==")
unfolding b64_std_encode encode_loop b64_std_encoded_len
std_foob = refl

url_foob : b64url_encode foob (some 7) ≡ some (codes "Zm9vYg")
unfolding b64url_encode encode_loop b64url_encoded_len
url_foob = refl

url_short : b64url_encode foob (some 6) ≡ none
unfolding b64url_encode encode_loop b64url_encoded_len
url_short = refl

std_decode_foob : b64_std_decode (bytes (codes "Zm9vYg==")) (some 4) ≡ some (codes "foob")
unfolding b64_std_decode strip_padding decode_loop rev
std_decode_foob = refl

abbrev foob_bytes : Bytes
foob_bytes = codes "foob"

foob_IsByte : All IsByte foob_bytes
foob_IsByte = (omega arith, (omega arith, (omega arith, (omega arith, tt))))

b64_decode-reference_example :
    b64_decode (bytes (codes "Zm9vYg==")) (some 4) b64_std_alpha
    ≡ reference_decode b64_std_alpha 4 (codes "Zm9vYg==")
b64_decode-reference_example = b64_decode-reference b64_std_alpha (codes "Zm9vYg==") 4 (omega arith)

b64_decode-b64_encode_example :
    (b64_std_decode (bytes (codes "Zm9vYg==")) (some 4) ≡ some foob_bytes)
    × (b64url_decode (bytes (codes "Zm9vYg")) (some 4) ≡ some foob_bytes)
b64_decode-b64_encode_example =
    b64_decode-b64_encode foob_bytes (codes "Zm9vYg==") (codes "Zm9vYg") 64 4 foob_IsByte
      (omega arith) (omega arith) std_foob url_wide
  where
    url_wide : b64url_encode foob (some 64) ≡ some (codes "Zm9vYg")
    url_wide = unfold b64url_encode encode_loop b64url_encoded_len in refl

b64_encode-length_example :
    ((64 ≤ encoded_size true 4) × (b64_encode foob (some 64) b64_std_alpha true ≡ none))
    ⊎ ((encoded_size true 4 < 64)
        × ((out : Bytes) × (b64_encode foob (some 64) b64_std_alpha true ≡ some out)
            × (length out ≡ encoded_size true 4)))
b64_encode-length_example =
    b64_encode-length b64_std_alpha true foob_bytes 64 foob_IsByte (omega arith)
