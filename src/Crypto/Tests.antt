-- ===== src/Crypto/Tests.antt =====
-- Input that the cryptographic calls refuse, and random bytes.
use encedo_hem_c_api.Prelude.{
  true, false, none, some, [], ◌∷◌, Bytes, codes, c_string, bytes_eq, ◌≡◌, refl,
}
use encedo_hem_c_api.Base64.{
  null, b64_std_encode, b64_std_encoded_len, b64_std_decode, b64_decode, decode_loop, fill_rev, rev,
  take_char, take_value, strip_padding,
}
use encedo_hem_c_api.Binding.Refused.{IsRefused}
use encedo_hem_c_api.Crypto.{sign, verify_signature, ecdh, check_peer_args}
use encedo_hem_c_api.Crypto.Refused.{input-IsRefused}
use encedo_hem_c_api.Crypto.Cipher.{encrypt, cipher_build, check_cipher}
use encedo_hem_c_api.Crypto.Random.{random, fill, HasLength, random-HasLength}
use encedo_hem_c_api.Prelude.Int.{pos}
use encedo_hem_c_api.Env.{ok}
use encedo_hem_c_api.Context.{Auth, TokenEntry, clear_error}
use encedo_hem_c_api.Json.{
  json_parse, json_is_object, json_get_string, json_new_object, json_add_string, json_print,
}
use encedo_hem_c_api.Transport.{transport_send}
use encedo_hem_c_api.Send.{request_of, pace, do_send, is_kid_hex, kid_hex_loop, is_hex}
use encedo_hem_c_api.Request.{
  bearer_for, exchange, after_first, reauthenticate, deliver, deliver_body, request_over,
  request_raw, request_json,
}
use encedo_hem_c_api.Token.Ensure.{ensure_token}
use encedo_hem_c_api.Token.{cached_token}
use encedo_hem_c_api.Cache.{find}
use encedo_hem_c_api.Binding.{body_with, b64_field}
use encedo_hem_c_api.Device.{device_json}
use encedo_hem_c_api.Monad.{State}
use encedo_hem_c_api.Monad.Post.{Post}
use encedo_hem_c_api.Fixture.{World, test_env, start, test_ctx, with_replies, success}

abbrev kid : Bytes
kid = codes "0123456789abcdef0123456789ABCDEF"

input-IsRefused_example :
    IsRefused start (sign kid (codes "Ed25519") [] (null 0) start)
    × IsRefused start (verify_signature kid (codes "Ed25519") [] (null 0) (1 ∷ 2 ∷ []) start)
    × IsRefused start (ecdh kid none (null 0) none start)
input-IsRefused_example =
    input-IsRefused kid (codes "Ed25519") [] (1 ∷ 2 ∷ []) (null 0) (null 0) none none start refl
      refl

abbrev use_token : TokenEntry
use_token = record {
  scope = codes "keymgmt:use:0123456789abcdef0123456789ABCDEF";
  token = codes "t";
  exp = pos 5000;
}

abbrev session : Auth
session = record {
  passphrase = some (codes "secret");
  retain = true;
  username = none;
  mobile = false;
  cache = use_token ∷ [];
}

-- A device that draws two initial values, of 16 bytes each.
abbrev drawing : State World
drawing = record (with_replies (success (codes "{iv}") ∷ success (codes "{iv}") ∷ [])) {
  ctx = record test_ctx { auth = some session };
}

draws :
    (random kid 18 drawing).0
    ≡ ok (0 ∷ 0 ∷ 0 ∷ 0 ∷ 0 ∷ 0 ∷ 0 ∷ 0 ∷ 0 ∷ 0 ∷ 0 ∷ 0 ∷ 0 ∷ 0 ∷ 0 ∷ 0 ∷ 0 ∷ 0 ∷ [])
unfolding random fill encrypt cipher_build check_cipher check_peer_args body_with b64_field
    b64_std_encode b64_std_encoded_len b64_std_decode json_new_object json_add_string json_print
    device_json request_json request_raw request_over bearer_for ensure_token find bytes_eq exchange
    after_first do_send pace transport_send request_of reauthenticate deliver deliver_body
    json_parse c_string json_is_object json_get_string is_kid_hex kid_hex_loop is_hex clear_error
    cached_token b64_decode decode_loop fill_rev rev take_char take_value strip_padding
draws = refl

random-HasLength_example : Post (HasLength 18) (random kid 18 drawing)
random-HasLength_example = random-HasLength kid 18 drawing
