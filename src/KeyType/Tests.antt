-- ===== src/KeyType/Tests.antt =====
-- Key types as devices send them.
use encedo_hem_c_api.Prelude.{some, [], ◌∷◌, Bytes, bytes_eq, codes, ◌≡◌, refl}
use encedo_hem_c_api.Env.{ok}
use encedo_hem_c_api.KeyType.{
  secp256r1, ed25519, key_type_parse, key_family_str, lookup_in, family_value, tokens, walk,
  take_token, take_family, family_of_token, resolve,
}
use encedo_hem_c_api.KeyType.Names.{key_type_parse-key_family_str}
use encedo_hem_c_api.KeyType.Tokens.{has, modes_of, roles_of, key_type_parse-flags}

abbrev p256 : Bytes
p256 = codes "ExDSA,PKEY,SECP256R1,"

p256-tokens : tokens p256 ≡ codes "ExDSA" ∷ codes "PKEY" ∷ codes "SECP256R1" ∷ []
unfolding tokens
p256-tokens = refl

p256-family : (key_type_parse (some p256)).1.family ≡ secp256r1
unfolding key_type_parse tokens walk take_token take_family family_of_token resolve lookup_in
    family_value bytes_eq
p256-family = refl

key_type_parse-flags_example :
    ((key_type_parse (some p256)).0 ≡ ok tt)
    × ((key_type_parse (some p256)).1.modes
        ≡ modes_of (has (codes "ExDSA") (tokens p256)) (has (codes "ECDH") (tokens p256)))
    × ((key_type_parse (some p256)).1.roles
        ≡ roles_of
            (has (codes "ATT") (tokens p256))
            (has (codes "PKEY") (tokens p256))
            (has (codes "CERT") (tokens p256))
            (has (codes "GENERIC_DER") (tokens p256)))
key_type_parse-flags_example = key_type_parse-flags p256

key_type_parse-key_family_str_example :
    ((key_type_parse (some (key_family_str ed25519))).0 ≡ ok tt)
    × ((key_type_parse (some (key_family_str ed25519))).1.family ≡ ed25519)
key_type_parse-key_family_str_example = key_type_parse-key_family_str ed25519
