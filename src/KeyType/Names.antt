-- ===== src/KeyType/Names.antt =====
-- The names of the key families (src/keytype.c), written and read.
use encedo_hem_c_api.Prelude.{some, bytes_eq, ◌≡◌, refl, arith}
use encedo_hem_c_api.Env.{ok}
use encedo_hem_c_api.KeyType.{
  KeyFamily, key_type_parse, key_family_str, lookup_in, family_value, tokens, walk, take_token,
  take_family, family_of_token, resolve,
}

-- The name of every family, the unknown one included, is read as that family again.
pub key_type_parse-key_family_str :
    (f : KeyFamily)
    → ((key_type_parse (some (key_family_str f))).0 ≡ ok tt)
      × ((key_type_parse (some (key_family_str f))).1.family ≡ f)
unfolding key_type_parse key_family_str lookup_in family_value tokens walk take_token take_family
    family_of_token resolve bytes_eq
key_type_parse-key_family_str f = (refl, ground arith)
