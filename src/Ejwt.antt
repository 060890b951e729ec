-- ===== src/Ejwt.antt =====
-- src/ejwt.c, the signed compact tokens.
use encedo_hem_c_api.Prelude.{
  ◌+◌, ◌%◌, Option, none, some, List, [], ◌∷◌, ◌++◌, Bytes, codes, length, ◌==◌, if◌then◌else◌,
}
use encedo_hem_c_api.Prelude.Int.{ℤ}
use encedo_hem_c_api.Rc.{arg, nomem, protocol}
use encedo_hem_c_api.Env.{Env}
use encedo_hem_c_api.Base64.{bytes, b64_std_encode, b64url_encode, b64url_encoded_len, size_mod}
use encedo_hem_c_api.Json.{json_new_object, json_add_string, json_add_int64, json_print}
use encedo_hem_c_api.Monad.{Prog, alloc, outside_result, return, throw, ◌>>=◌}

abbrev pub ejwt_header : Bytes
ejwt_header = codes "{\"ecdh\":\"x25519\",\"alg\":\"HS256\",\"typ\":\"JWT\"}"

module _ ⦃E : Env⦄ where
  abbrev pub append_signature : Bytes → Option Bytes → Prog Bytes
  append_signature signing_input none = throw protocol
  append_signature signing_input (some sig) = return (signing_input ++ b'.' ∷ sig)

  -- The buffer for the signature is as long as `sig_len` says, which is 43, and a NUL.
  abbrev pub append_mac : Bytes → Bytes → Prog Bytes
  append_mac signing_input mac =
      append_signature signing_input (b64url_encode (bytes mac) (some (b64url_encoded_len 32 + 1)))

  abbrev pub sign_input : Bytes → Bytes → Prog Bytes
  sign_input key signing_input = do
    mac ← outside_result (E.hmac_sha256 key signing_input)
    append_mac signing_input mac

  -- The signature over `header.payload`, and the whole token.
  abbrev pub signed : Bytes → Bytes → Bytes → Prog Bytes
  signed header_seg payload_seg key = do
    jwt ← alloc
    if jwt then sign_input key (header_seg ++ b'.' ∷ payload_seg) else throw nomem

  abbrev pub segments : Option Bytes → Option Bytes → Bytes → Prog Bytes
  segments (some h) (some p) key = signed h p key
  segments _ _ key = throw protocol

  abbrev pub encode_segments : Bytes → Bytes → Bytes → Prog Bytes
  encode_segments header payload key =
      let cap = (b64url_encoded_len (length payload) + 1) % size_mod in
      segments (b64url_encode (bytes header) (some 256)) (b64url_encode (bytes payload) (some cap))
        key

  unfoldable pub sign_compact : Bytes → Bytes → Bytes → Prog Bytes
  sign_compact header payload key = do
    payload_seg ← alloc
    if payload_seg then encode_segments header payload key else throw nomem

  -- Objects are built up field by field, as long as every step succeeds.
  abbrev pub fields :
      List (Option E.Node → Prog (Option E.Node)) → Option E.Node → Prog (Option E.Node)
  fields [] obj = return obj
  fields (add ∷ rest) none = return none
  fields (add ∷ rest) (some obj) = do obj' ← add (some obj); fields rest obj'

  abbrev pub string_field : Bytes → Bytes → Option E.Node → Prog (Option E.Node)
  string_field key val obj = json_add_string obj (some key) (some val)

  abbrev pub int64_field : Bytes → ℤ → Option E.Node → Prog (Option E.Node)
  int64_field key val obj = json_add_int64 obj (some key) val

  abbrev pub print_all : Option E.Node → Prog (Option Bytes)
  print_all none = return none
  print_all (some obj) = json_print obj

  -- The payload, with its keys in the order jti, aud, exp, iat, iss, scope.
  abbrev pub payload_of : Bytes → Bytes → ℤ → ℤ → Bytes → Bytes → Prog (Option Bytes)
  payload_of jti spk exp now iss scope = do
    obj ← json_new_object
    obj' ←
        fields
          (string_field (codes "jti") jti
            ∷ string_field (codes "aud") spk
            ∷ int64_field (codes "exp") exp
            ∷ int64_field (codes "iat") now
            ∷ string_field (codes "iss") iss
            ∷ string_field (codes "scope") scope
            ∷ [])
          obj
    print_all obj'

  -- Both keys are 32 bytes. The token expires at `requested_exp`, as asked for.
  unfoldable pub ejwt_build : Bytes → Bytes → Bytes → Bytes → Bytes → ℤ → ℤ → Prog Bytes
  unfolding sign_compact
  ejwt_build jti spk scope user_pub shared now requested_exp =
      elim (b64_std_encode (bytes user_pub) (some 64)) [
        | none ↦ throw protocol
        | some iss ↦ do
          payload_json ← payload_of jti spk requested_exp now iss scope
          elim payload_json [
            | none ↦ throw nomem
            | some payload ↦ sign_compact ejwt_header payload shared
          ]
      ]

  unfoldable pub ejwt_sign : Option Bytes → Option Bytes → Option Bytes → Prog Bytes
  unfolding sign_compact
  ejwt_sign (some header_json) (some payload_json) (some key) =
      if length key == 0 then throw arg else sign_compact header_json payload_json key
  ejwt_sign _ _ _ = throw arg
