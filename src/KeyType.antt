-- ===== src/KeyType.antt =====
-- src/keytype.c: the classifier of the device's key-type strings, and its table of families.
pub mod Tokens
pub mod Names
mod Tests
use encedo_hem_c_api.Prelude.{
  ℕ, bit_and, bit_or, Bool, true, false, Option, none, some, List, [], ◌∷◌, Bytes, codes, bytes_eq,
  ◌==◌, not, if◌then◌else◌,
}
use encedo_hem_c_api.Rc.{arg}
use encedo_hem_c_api.Env.{Result, ok, err}

-- `ehem_key_family`, in the order of its values.
pub data KeyFamily : Type 0 where
  unknown secp256r1 secp384r1 secp521r1 secp256k1 ed25519 ed448 curve25519 curve448 : KeyFamily
  aes128 aes192 aes256 hmac_sha2_256 hmac_sha2_384 hmac_sha2_512 : KeyFamily
  hmac_sha3_256 hmac_sha3_384 hmac_sha3_512 mlkem512 mlkem768 mlkem1024 : KeyFamily
  mldsa44 mldsa65 mldsa87 cert der_pkey : KeyFamily

-- The value of a constant, which `==` compares.
unfoldable pub family_value : KeyFamily → ℕ
family_value unknown = 0
family_value secp256r1 = 1
family_value secp384r1 = 2
family_value secp521r1 = 3
family_value secp256k1 = 4
family_value ed25519 = 5
family_value ed448 = 6
family_value curve25519 = 7
family_value curve448 = 8
family_value aes128 = 9
family_value aes192 = 10
family_value aes256 = 11
family_value hmac_sha2_256 = 12
family_value hmac_sha2_384 = 13
family_value hmac_sha2_512 = 14
family_value hmac_sha3_256 = 15
family_value hmac_sha3_384 = 16
family_value hmac_sha3_512 = 17
family_value mlkem512 = 18
family_value mlkem768 = 19
family_value mlkem1024 = 20
family_value mldsa44 = 21
family_value mldsa65 = 22
family_value mldsa87 = 23
family_value cert = 24
family_value der_pkey = 25

pub record FamilyInfo : Type 0 where
  pub token : Bytes
  pub family : KeyFamily
  pub pubkey_len : ℕ
  pub sig_max_len : ℕ
  pub sig_der : Bool

abbrev row : Bytes → KeyFamily → ℕ → ℕ → Bool → FamilyInfo
row token family pubkey_len sig_max_len sig_der = record {
  token = token;
  family = family;
  pubkey_len = pubkey_len;
  sig_max_len = sig_max_len;
  sig_der = sig_der;
}

abbrev pub families : List FamilyInfo
families =
    row (codes "SECP256R1") secp256r1 33 72 true
    ∷ row (codes "SECP384R1") secp384r1 49 104 true
    ∷ row (codes "SECP521R1") secp521r1 67 141 true
    ∷ row (codes "SECP256K1") secp256k1 33 72 true
    ∷ row (codes "ED25519") ed25519 32 64 false
    ∷ row (codes "ED448") ed448 57 114 false
    ∷ row (codes "CURVE25519") curve25519 32 0 false
    ∷ row (codes "CURVE448") curve448 56 0 false
    ∷ row (codes "AES128") aes128 0 0 false
    ∷ row (codes "AES192") aes192 0 0 false
    ∷ row (codes "AES256") aes256 0 0 false
    ∷ row (codes "SHA2-256") hmac_sha2_256 0 0 false
    ∷ row (codes "SHA2-384") hmac_sha2_384 0 0 false
    ∷ row (codes "SHA2-512") hmac_sha2_512 0 0 false
    ∷ row (codes "SHA3-256") hmac_sha3_256 0 0 false
    ∷ row (codes "SHA3-384") hmac_sha3_384 0 0 false
    ∷ row (codes "SHA3-512") hmac_sha3_512 0 0 false
    ∷ row (codes "MLKEM512") mlkem512 800 0 false
    ∷ row (codes "MLKEM768") mlkem768 1184 0 false
    ∷ row (codes "MLKEM1024") mlkem1024 1568 0 false
    ∷ row (codes "MLDSA44") mldsa44 1312 2420 false
    ∷ row (codes "MLDSA65") mldsa65 1952 3309 false
    ∷ row (codes "MLDSA87") mldsa87 2592 4627 false
    ∷ row (codes "CERT") cert 0 0 false
    ∷ row (codes "DER_PKEY") der_pkey 0 0 false
    ∷ []

-- `ehem_key_type_info`
pub record KeyTypeInfo : Type 0 where
  pub family : KeyFamily
  pub modes : ℕ
  pub roles : ℕ
  pub pubkey_len : ℕ
  pub sig_max_len : ℕ
  pub sig_der : Bool

abbrev pub zero_info : KeyTypeInfo
zero_info = record {
  family = unknown;
  modes = 0;
  roles = 0;
  pubkey_len = 0;
  sig_max_len = 0;
  sig_der = false;
}

abbrev pub is_family : KeyFamily → KeyFamily → Bool
is_family a b = family_value a == family_value b

unfoldable pub lookup_in : List FamilyInfo → KeyFamily → Option FamilyInfo
unfolding family_value
lookup_in [] family = none
lookup_in (fi ∷ rest) family = if is_family fi.family family then some fi else lookup_in rest family

-- `family_lookup`
abbrev pub family_lookup : KeyFamily → Option FamilyInfo
family_lookup family = lookup_in families family

-- The inner loop over the table, which leaves the family as it is where no token fits.
unfoldable pub family_of_token : List FamilyInfo → Bytes → KeyFamily → KeyFamily
family_of_token [] tok family = family
family_of_token (fi ∷ rest) tok family =
    if bytes_eq tok fi.token then fi.family else family_of_token rest tok family

abbrev extend : ℕ → List Bytes → List Bytes
extend c [] = (c ∷ []) ∷ []
extend c (t ∷ ts) = (c ∷ t) ∷ ts

-- The tokens that the walk meets: up to each comma, and up to the end, if it is not there yet.
unfoldable pub tokens : Bytes → List Bytes
tokens [] = []
tokens (c ∷ cs) = if c == b',' then [] ∷ tokens cs else extend c (tokens cs)

-- The first token that names a family decides; one that is not recognised is skipped.
unfoldable pub take_family : KeyTypeInfo → Bytes → KeyTypeInfo
unfolding family_value family_of_token
take_family out tok =
    if is_family out.family unknown
    then record out { family = family_of_token families tok out.family }
    else out

-- The body of the walk on one token.
unfoldable pub take_token : KeyTypeInfo → Bytes → KeyTypeInfo
take_token out tok =
    if bytes_eq tok (codes "ExDSA")
    then record out { modes = bit_or out.modes 1 }
    else if bytes_eq tok (codes "ECDH")
    then record out { modes = bit_or out.modes 2 }
    else if bytes_eq tok (codes "ATT")
    then record out { roles = bit_or out.roles 1 }
    else if bytes_eq tok (codes "PKEY")
    then record out { roles = bit_or out.roles 2 }
    else if bytes_eq tok (codes "CERT")
    then record out { roles = bit_or out.roles 4 }
    else if bytes_eq tok (codes "GENERIC_DER")
    then record out { roles = bit_or out.roles 8 }
    else take_family out tok

unfoldable pub walk : KeyTypeInfo → List Bytes → KeyTypeInfo
unfolding take_token
walk out [] = out
walk out (tok ∷ toks) = walk (take_token out tok) toks

-- Behind the walk: DER containers name themselves through their roles.
unfoldable pub resolve : KeyTypeInfo → KeyTypeInfo
unfolding family_value
resolve out =
    if is_family out.family unknown
    then (if not (bit_and out.roles 4 == 0)
        then record out { family = cert }
        else if not (bit_and out.roles 8 == 0)
        then record out { family = der_pkey }
        else out)
    else out

abbrev pub with_sizes : Option FamilyInfo → KeyTypeInfo → KeyTypeInfo
with_sizes none out = out
with_sizes (some fi) out = record out {
  pubkey_len = fi.pubkey_len;
  sig_max_len = fi.sig_max_len;
  sig_der = fi.sig_der;
}

abbrev measure : KeyTypeInfo → KeyTypeInfo
measure out = with_sizes (family_lookup out.family) out

-- `ehem_key_type_parse`, with what it writes on either return.
unfoldable pub key_type_parse : Option Bytes → Result (Unit {0}) × KeyTypeInfo
unfolding walk resolve lookup_in
key_type_parse none = (err arg, zero_info)
key_type_parse (some type) = (ok tt, measure (resolve (walk zero_info (tokens type))))

abbrev name_of : Option FamilyInfo → KeyFamily → Bytes
name_of none family = codes "unknown"
name_of (some fi) family = if is_family family unknown then codes "unknown" else fi.token

-- `ehem_key_family_str`
unfoldable pub key_family_str : KeyFamily → Bytes
unfolding family_value lookup_in
key_family_str family = name_of (family_lookup family) family
