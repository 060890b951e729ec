-- ===== src/KeyType/Tokens.antt =====
-- The flags of a key type (src/keytype.c) against the set of its tokens.
use encedo_hem_c_api.Prelude.{
  ℕ, ◌+◌, ◌*◌, bit_or, Bool, true, false, ◌||◌, Option, none, some, List, [], ◌∷◌, Bytes, codes,
  bytes_eq, bytes_eq→eq, ◌≡◌, refl, ◌∙◌, inl, inr, arith, Bool-cases, if◌then◌else◌,
}
use encedo_hem_c_api.Env.{ok}
use encedo_hem_c_api.KeyType.{
  KeyTypeInfo, FamilyInfo, zero_info, tokens, walk, take_token, take_family, family_of_token,
  is_family, unknown, families, resolve, key_type_parse, with_sizes, family_lookup,
}

-- Whether a text is among the tokens.
abbrev pub has : Bytes → List Bytes → Bool
has name [] = false
has name (tok ∷ toks) = bytes_eq tok name || has name toks

abbrev bit : Bool → ℕ
bit true = 1
bit false = 0

-- The flag words that the tokens spell.
abbrev pub modes_of : Bool → Bool → ℕ
modes_of exdsa ecdh = bit exdsa + 2 * bit ecdh

abbrev pub roles_of : Bool → Bool → Bool → Bool → ℕ
roles_of att pkey cert der = bit att + 2 * bit pkey + 4 * bit cert + 8 * bit der

abbrev modes_with : Bool → Bool → List Bytes → ℕ
modes_with a b toks = modes_of (a || has (codes "ExDSA") toks) (b || has (codes "ECDH") toks)

abbrev roles_with : Bool → Bool → Bool → Bool → List Bytes → ℕ
roles_with a p c d toks =
    roles_of (a || has (codes "ATT") toks) (p || has (codes "PKEY") toks)
      (c || has (codes "CERT") toks) (d || has (codes "GENERIC_DER") toks)

take_family-flags :
    (out : KeyTypeInfo) (tok : Bytes)
    → ((take_family out tok).modes ≡ out.modes) × ((take_family out tok).roles ≡ out.roles)
unfolding take_family
take_family-flags out tok = flags (is_family out.family unknown)
  where
    flags :
        (b : Bool)
        → ((if b
              then record out { family = family_of_token families tok out.family }
              else out).modes
            ≡ out.modes)
          × ((if b
                then record out { family = family_of_token families tok out.family }
                else out).roles
              ≡ out.roles)
    flags true = (refl, refl)
    flags false = (refl, refl)

add_exdsa :
    (e h : Bool) → bit_or (modes_of e h) 1 ≡ modes_of (e || (true || false)) (h || (false || false))
add_exdsa e h = ground arith

add_ecdh :
    (e h : Bool) → bit_or (modes_of e h) 2 ≡ modes_of (e || (false || false)) (h || (true || false))
add_ecdh e h = ground arith

modes-take_token :
    (out : KeyTypeInfo) (e h : Bool) (tok : Bytes)
    → out.modes ≡ modes_of e h
    → (take_token out tok).modes ≡ modes_with e h (tok ∷ [])
unfolding take_token bytes_eq
modes-take_token out e h tok m = elim (Bool-cases (bytes_eq tok (codes "ExDSA"))) [
  | inl exdsa ↦ rw (bytes_eq→eq tok (codes "ExDSA") exdsa, m) (add_exdsa e h)
  | inr not_exdsa ↦ elim (Bool-cases (bytes_eq tok (codes "ECDH"))) [
    | inl ecdh ↦ rw (bytes_eq→eq tok (codes "ECDH") ecdh, m) (add_ecdh e h)
    | inr not_ecdh ↦ ground (arith, take_family-flags out tok)
  ]
]

-- Adding one role to the word, beside the others.
add_role :
    (a p c d : Bool)
    → (bit_or (roles_of a p c d) 1 ≡ roles_of true p c d)
      × (bit_or (roles_of a p c d) 2 ≡ roles_of a true c d)
      × (bit_or (roles_of a p c d) 4 ≡ roles_of a p true d)
      × (bit_or (roles_of a p c d) 8 ≡ roles_of a p c true)
add_role a p c d = ground arith

or_false : (b : Bool) → (b || false) ≡ b
or_false b = ground arith

or_true : (b : Bool) → (b || true) ≡ true
or_true b = ground arith

roles-take_token :
    (out : KeyTypeInfo) (a p c d : Bool) (tok : Bytes)
    → out.roles ≡ roles_of a p c d
    → (take_token out tok).roles ≡ roles_with a p c d (tok ∷ [])
unfolding take_token bytes_eq
roles-take_token out a p c d tok m = elim (Bool-cases (bytes_eq tok (codes "ExDSA"))) [
  | inl h ↦
      rw (bytes_eq→eq tok (codes "ExDSA") h, m, or_false a, or_false p, or_false c, or_false d)
  | inr n1 ↦ elim (Bool-cases (bytes_eq tok (codes "ECDH"))) [
    | inl h ↦
        rw (bytes_eq→eq tok (codes "ECDH") h, m, or_false a, or_false p, or_false c, or_false d)
    | inr n2 ↦ elim (Bool-cases (bytes_eq tok (codes "ATT"))) [
      | inl h ↦
          rw (bytes_eq→eq tok (codes "ATT") h, m, or_true a, or_false p, or_false c, or_false d)
            (add_role a p c d).0
      | inr n3 ↦ elim (Bool-cases (bytes_eq tok (codes "PKEY"))) [
        | inl h ↦
            rw (bytes_eq→eq tok (codes "PKEY") h, m, or_false a, or_true p, or_false c, or_false d)
              (add_role a p c d).1
        | inr n4 ↦ elim (Bool-cases (bytes_eq tok (codes "CERT"))) [
          | inl h ↦
              rw
                (bytes_eq→eq tok (codes "CERT") h, m, or_false a, or_false p, or_true c, or_false d)
                (add_role a p c d).2
          | inr n5 ↦ elim (Bool-cases (bytes_eq tok (codes "GENERIC_DER"))) [
            | inl h ↦
                rw
                  (
                    bytes_eq→eq tok (codes "GENERIC_DER") h,
                    m,
                    or_false a,
                    or_false p,
                    or_false c,
                    or_true d,
                  )
                  (add_role a p c d).3
            | inr n6 ↦ ground (arith, take_family-flags out tok)
          ]
        ]
      ]
    ]
  ]
]

or_step : (e x y : Bool) → ((e || (x || false)) || y) ≡ (e || (x || y))
or_step e x y = ground arith

walk-modes :
    (toks : List Bytes) (out : KeyTypeInfo) (e h : Bool)
    → out.modes ≡ modes_of e h
    → (walk out toks).modes ≡ modes_with e h toks
unfolding walk
walk-modes [] out e h m = rw (or_false e, or_false h, m)
walk-modes (tok ∷ toks) out e h m = rw (
  walk-modes toks (take_token out tok) (e || (bytes_eq tok (codes "ExDSA") || false))
      (h || (bytes_eq tok (codes "ECDH") || false)) (modes-take_token out e h tok m),
  or_step e (bytes_eq tok (codes "ExDSA")) (has (codes "ExDSA") toks),
  or_step h (bytes_eq tok (codes "ECDH")) (has (codes "ECDH") toks),
)

walk-roles :
    (toks : List Bytes) (out : KeyTypeInfo) (a p c d : Bool)
    → out.roles ≡ roles_of a p c d
    → (walk out toks).roles ≡ roles_with a p c d toks
unfolding walk
walk-roles [] out a p c d m = rw (or_false a, or_false p, or_false c, or_false d, m)
walk-roles (tok ∷ toks) out a p c d m = rw (
  walk-roles toks (take_token out tok) (a || (bytes_eq tok (codes "ATT") || false))
      (p || (bytes_eq tok (codes "PKEY") || false)) (c || (bytes_eq tok (codes "CERT") || false))
      (d || (bytes_eq tok (codes "GENERIC_DER") || false)) (roles-take_token out a p c d tok m),
  or_step a (bytes_eq tok (codes "ATT")) (has (codes "ATT") toks),
  or_step p (bytes_eq tok (codes "PKEY")) (has (codes "PKEY") toks),
  or_step c (bytes_eq tok (codes "CERT")) (has (codes "CERT") toks),
  or_step d (bytes_eq tok (codes "GENERIC_DER")) (has (codes "GENERIC_DER") toks),
)

resolve-flags :
    (out : KeyTypeInfo) → ((resolve out).modes ≡ out.modes) × ((resolve out).roles ≡ out.roles)
unfolding resolve
resolve-flags out = (ground arith, ground arith)

with_sizes-flags :
    (o : Option FamilyInfo) (out : KeyTypeInfo)
    → ((with_sizes o out).modes ≡ out.modes) × ((with_sizes o out).roles ≡ out.roles)
with_sizes-flags none out = (refl, refl)
with_sizes-flags (some fi) out = (refl, refl)

-- Every text is a key type. Its two words of flags say of each flag whether its name is one of
-- the tokens between the commas, whatever their order and however often they come, and whatever
-- other tokens stand among them.
pub key_type_parse-flags :
    (type : Bytes)
    → ((key_type_parse (some type)).0 ≡ ok tt)
      × ((key_type_parse (some type)).1.modes
          ≡ modes_of (has (codes "ExDSA") (tokens type)) (has (codes "ECDH") (tokens type)))
      × ((key_type_parse (some type)).1.roles
          ≡ roles_of
              (has (codes "ATT") (tokens type))
              (has (codes "PKEY") (tokens type))
              (has (codes "CERT") (tokens type))
              (has (codes "GENERIC_DER") (tokens type)))
unfolding key_type_parse
key_type_parse-flags type =
    let walked = walk zero_info (tokens type) in
    let resolved = resolve walked in
    let (m, r) = with_sizes-flags (family_lookup resolved.family) resolved in
    let (m', r') = resolve-flags walked in
    (
      refl,
      m ∙ (m' ∙ walk-modes (tokens type) zero_info false false refl),
      r ∙ (r' ∙ walk-roles (tokens type) zero_info false false false false refl),
    )
