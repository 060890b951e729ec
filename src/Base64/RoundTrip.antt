-- ===== src/Base64/RoundTrip.antt =====
-- The codecs of src/ejwt.c against one another, and the encoder's use of its buffer.
use encedo_hem_c_api.Prelude.{
  ℕ, suc, ◌+◌, ◌*◌, ◌/◌, ◌%◌, ◌^◌, ◌<◌, ◌≤◌, ◌≡◌, refl, ap, ◌∙◌, Bool, true, false, none, some,
  List, [], ◌∷◌, ◌++◌, append-nil, Bytes, length, length-append, All, arith, if◌then◌else◌, ltb,
  ◌==◌, ◌⊎◌, inl, inr, ◌≢◌, Bool-cases, ne→==_false,
}
use encedo_hem_c_api.Base64.{
  bytes, padding, strip_padding, rev, b64_encode, b64_decode, b64_std_encode, b64url_encode,
  b64_std_decode, b64url_decode, b64_std_alpha, b64_url_alpha, size_mod, b64_std_encoded_len,
  b64url_encoded_len,
}
use encedo_hem_c_api.Base64.Alphabet.{
  IsAlphabet, b64_std_alpha-IsAlphabet, b64_url_alpha-IsAlphabet,
}
use encedo_hem_c_api.Base64.Sextets.{
  IsByte, sextets, sextets-IsSextet, equals_signs, spell, encode_loop_lem,
}
use encedo_hem_c_api.Base64.Decode.{unsextets, values, fitting, b64_decode-reference}

unsextets-sextets : (xs : Bytes) → All IsByte xs → unsextets (sextets xs) ≡ xs
unsextets-sextets (a ∷ b ∷ c ∷ rest) (ha, (hb, (hc, h))) = ground (arith, unsextets-sextets rest h)
unsextets-sextets (a ∷ b ∷ []) h = ground arith
unsextets-sextets (a ∷ []) h = ground arith
unsextets-sextets [] h = refl

values-spell :
    (alpha : Bytes)
    → IsAlphabet alpha
    → (vs : List ℕ) → All (λ v. v < 64) vs
    → values (rev alpha) (spell alpha vs) ≡ some vs
values-spell alpha w [] h = refl
values-spell alpha w (v ∷ vs) h = ground (arith, w.rev_letter v h.0, values-spell alpha w vs h.1)

strip_padding-equals :
    (pad : Bool) (xs : Bytes) → strip_padding (padding pad (equals_signs xs)) ≡ []
unfolding strip_padding
strip_padding-equals false xs = refl
strip_padding-equals true (a ∷ b ∷ c ∷ rest) = strip_padding-equals true rest
strip_padding-equals true (a ∷ b ∷ []) = refl
strip_padding-equals true (a ∷ []) = refl
strip_padding-equals true [] = refl

strip_padding-spell :
    (alpha : Bytes)
    → IsAlphabet alpha
    → (vs : List ℕ) (eqs : Bytes) → All (λ v. v < 64) vs
    → strip_padding eqs ≡ []
    → strip_padding (spell alpha vs ++ eqs) ≡ spell alpha vs
unfolding strip_padding
strip_padding-spell alpha w [] eqs h e = e
strip_padding-spell alpha w (v ∷ []) eqs h e = ground (arith, w.ne_padding v h.0)
strip_padding-spell alpha w (v ∷ u ∷ vs) eqs h e =
    rw (strip_padding-spell alpha w (u ∷ vs) eqs h.1 e)

length-spell : (alpha : Bytes) (vs : List ℕ) → length (spell alpha vs) ≡ length vs
length-spell alpha [] = refl
length-spell alpha (v ∷ vs) = ap suc (length-spell alpha vs)

length-sextets : (xs : Bytes) → length (sextets xs) ≡ (length xs * 4 + 2) / 3
length-sextets (a ∷ b ∷ c ∷ rest) = omega (arith, length-sextets rest)
length-sextets (a ∷ b ∷ []) = refl
length-sextets (a ∷ []) = refl
length-sextets [] = refl

-- What the encoder writes, where the buffer has room.
encoded : Bytes → Bool → Bytes → Bytes
encoded alpha pad xs = spell alpha (sextets xs) ++ padding pad (equals_signs xs)

-- The size that the encoder's contract names, with no wrap-around.
abbrev pub encoded_size : Bool → ℕ → ℕ
encoded_size true n = 4 * ((n + 2) / 3)
encoded_size false n = (n * 4 + 2) / 3

length-encoded :
    (alpha : Bytes) (pad : Bool) (xs : Bytes)
    → length (encoded alpha pad xs) ≡ encoded_size pad (length xs)
unfolding encoded
length-encoded alpha false xs = omega (
  arith,
  length-append (spell alpha (sextets xs)) [],
  length-spell alpha (sextets xs),
  length-sextets xs,
)
length-encoded alpha true xs = omega (
  arith,
  length-append (spell alpha (sextets xs)) (equals_signs xs),
  length-spell alpha (sextets xs),
  padded xs,
)
  where
    padded :
        (ys : Bytes) → length (sextets ys) + length (equals_signs ys) ≡ 4 * ((length ys + 2) / 3)
    padded (a ∷ b ∷ c ∷ rest) = omega (arith, padded rest)
    padded (a ∷ b ∷ []) = refl
    padded (a ∷ []) = refl
    padded [] = refl

need_lem :
    (pad : Bool) (n : ℕ)
    → n < 2 ^ 62
    → (if pad then b64_std_encoded_len n else b64url_encoded_len n) ≡ encoded_size pad n
unfolding b64_std_encoded_len b64url_encoded_len
need_lem true n h = omega arith
need_lem false n h = ground arith

encoded_size-lt : (pad : Bool) (n : ℕ) → n < 2 ^ 62 → encoded_size pad n + 1 < 2 ^ 64
encoded_size-lt true n h = omega arith
encoded_size-lt false n h = omega arith

b64_encode-encoded :
    (alpha : Bytes) (pad : Bool) (xs : Bytes) (cap : ℕ)
    → All IsByte xs
    → length xs < 2 ^ 62
    → b64_encode (bytes xs) (some cap) alpha pad
      ≡ (if ltb cap (encoded_size pad (length xs) + 1) then none else some (encoded alpha pad xs))
unfolding b64_encode encoded
b64_encode-encoded alpha pad xs cap h small =
    rw (need_lem pad (length xs) small, no_wrap, encode_loop_lem alpha pad xs [] h)
  where
    no_wrap : (encoded_size pad (length xs) + 1) % size_mod ≡ encoded_size pad (length xs) + 1
    no_wrap = omega (arith, encoded_size-lt pad (length xs) small)

-- On fewer than 2 ^ 62 bytes, the encoder fails exactly when the buffer cannot hold the text with
-- its NUL, and otherwise
-- writes as many characters as the length function promises: four for each group of three
-- bytes begun, if padded, and the least number that holds the bits, if not.
pub b64_encode-length :
    (alpha : Bytes) (pad : Bool) (xs : Bytes) (cap : ℕ)
    → All IsByte xs
    → length xs < 2 ^ 62
    → ((cap ≤ encoded_size pad (length xs)) × (b64_encode (bytes xs) (some cap) alpha pad ≡ none))
      ⊎ ((encoded_size pad (length xs) < cap)
          × ((out : Bytes) × (b64_encode (bytes xs) (some cap) alpha pad ≡ some out)
              × (length out ≡ encoded_size pad (length xs))))
b64_encode-length alpha pad xs cap h small =
    elim (Bool-cases (ltb cap (encoded_size pad (length xs) + 1))) [
      | inl full ↦ inl (ground arith, b64_encode-encoded alpha pad xs cap h small ∙ rw full)
      | inr room ↦ inr (
        ground arith,
        (
          encoded alpha pad xs,
          b64_encode-encoded alpha pad xs cap h small ∙ rw room,
          length-encoded alpha pad xs,
        ),
      )
    ]

-- A buffer of the size that the length function promises, and one more for the NUL, is enough.
pub b64_std_encode-fits :
    (xs : Bytes)
    → All IsByte xs
    → length xs < 2 ^ 62
    → (out : Bytes) × (b64_std_encode
          (bytes xs)
          (some ((b64_std_encoded_len (length xs) + 1) % size_mod))
        ≡ some out)
unfolding b64_std_encode
b64_std_encode-fits xs h small =
    let cap = (b64_std_encoded_len (length xs) + 1) % size_mod in
    elim (b64_encode-length b64_std_alpha true xs cap h small) [
      | inl full ↦ absurd (
          omega (
            arith,
            full.0,
            need_lem true (length xs) small,
            encoded_size-lt true (length xs) small,
          ))
      | inr room ↦ (room.1.0, room.1.1)
    ]

-- The URL variant writes letters only.
pub b64url_encode-spell :
    (xs out : Bytes) (cap : ℕ)
    → All IsByte xs
    → length xs < 2 ^ 62
    → b64url_encode (bytes xs) (some cap) ≡ some out
    → out ≡ spell b64_url_alpha (sextets xs)
unfolding b64url_encode encoded
b64url_encode-spell xs out cap h small e = ground (
  arith,
  b64_encode-encoded b64_url_alpha false xs cap h small,
  append-nil (spell b64_url_alpha (sextets xs)),
)

pub length-b64url_encode :
    (xs out : Bytes) (cap : ℕ)
    → All IsByte xs
    → length xs < 2 ^ 62
    → b64url_encode (bytes xs) (some cap) ≡ some out
    → length out ≡ encoded_size false (length xs)
length-b64url_encode xs out cap h small e =
    ap length (b64url_encode-spell xs out cap h small e)
    ∙ (length-spell b64_url_alpha (sextets xs) ∙ length-sextets xs)

whole_groups : (alpha xs : Bytes) → length (spell alpha (sextets xs)) % 4 ≢ 1
whole_groups alpha xs = omega (arith, length-spell alpha (sextets xs), length-sextets xs)

fitting_all : (cap : ℕ) (xs : Bytes) → length xs ≤ cap → fitting cap [] xs ≡ some xs
fitting_all cap xs h = ground arith

b64_decode-encoded :
    (alpha : Bytes)
    → IsAlphabet alpha
    → (pad : Bool) (xs : Bytes) (cap : ℕ) → All IsByte xs
    → length xs ≤ cap
    → b64_decode (bytes (encoded alpha pad xs)) (some cap) alpha ≡ some xs
unfolding encoded
b64_decode-encoded alpha w pad xs cap h room =
    rw
      (
        b64_decode-reference alpha (encoded alpha pad xs) cap (omega (arith, w.letters)),
        stripped,
        no_rest,
        values-spell alpha w (sextets xs) small,
        unsextets-sextets xs h,
      )
      (fitting_all cap xs room)
  where
    small : All (λ v. v < 64) (sextets xs)
    small = sextets-IsSextet xs h

    stripped : strip_padding (encoded alpha pad xs) ≡ spell alpha (sextets xs)
    stripped =
        strip_padding-spell alpha w (sextets xs) (padding pad (equals_signs xs)) small
          (strip_padding-equals pad xs)

    no_rest : (length (spell alpha (sextets xs)) % 4 == 1) ≡ false
    no_rest = ne→==_false _ 1 (whole_groups alpha xs)

read_back :
    (alpha : Bytes)
    → IsAlphabet alpha
    → (pad : Bool) (xs out : Bytes) (cap cap' : ℕ) → All IsByte xs
    → length xs < 2 ^ 62
    → length xs ≤ cap'
    → b64_encode (bytes xs) (some cap) alpha pad ≡ some out
    → b64_decode (bytes out) (some cap') alpha ≡ some xs
read_back alpha w pad xs out cap cap' h small room e =
    rw (← written) (b64_decode-encoded alpha w pad xs cap' h room)
  where
    written : encoded alpha pad xs ≡ out
    written = ground (arith, b64_encode-encoded alpha pad xs cap h small)

pub b64_std_decode-b64_std_encode :
    (xs out : Bytes) (cap cap' : ℕ)
    → All IsByte xs
    → length xs < 2 ^ 62
    → length xs ≤ cap'
    → b64_std_encode (bytes xs) (some cap) ≡ some out
    → b64_std_decode (bytes out) (some cap') ≡ some xs
unfolding b64_std_encode b64_std_decode
b64_std_decode-b64_std_encode xs out cap cap' h small room e =
    read_back b64_std_alpha b64_std_alpha-IsAlphabet true xs out cap cap' h small room e

pub b64url_decode-b64url_encode :
    (xs out : Bytes) (cap cap' : ℕ)
    → All IsByte xs
    → length xs < 2 ^ 62
    → length xs ≤ cap'
    → b64url_encode (bytes xs) (some cap) ≡ some out
    → b64url_decode (bytes out) (some cap') ≡ some xs
unfolding b64url_encode b64url_decode
b64url_decode-b64url_encode xs out cap cap' h small room e =
    read_back b64_url_alpha b64_url_alpha-IsAlphabet false xs out cap cap' h small room e

-- For both variants: whatever bytes the encoder accepts (fewer than 2 ^ 62 of them), its text
-- decodes to them again, in any buffer that they fit.
pub b64_decode-b64_encode :
    (xs std url : Bytes) (cap cap' : ℕ)
    → All IsByte xs
    → length xs < 2 ^ 62
    → length xs ≤ cap'
    → b64_std_encode (bytes xs) (some cap) ≡ some std
    → b64url_encode (bytes xs) (some cap) ≡ some url
    → (b64_std_decode (bytes std) (some cap') ≡ some xs)
      × (b64url_decode (bytes url) (some cap') ≡ some xs)
unfolding b64_std_encode b64url_encode b64_std_decode b64url_decode
b64_decode-b64_encode xs std url cap cap' h small room hs hu = (
  b64_std_decode-b64_std_encode xs std cap cap' h small room hs,
  b64url_decode-b64url_encode xs url cap cap' h small room hu,
)
