-- ===== src/Base64/Decode.antt =====
-- What the decoder of src/ejwt.c computes on any input: a reference decoder over six-bit values.
use encedo_hem_c_api.Prelude.{
  ℕ, ◌+◌, ◌*◌, ◌/◌, ◌%◌, ◌^◌, ◌<◌, ◌≤◌, bit_or, ◌≡◌, refl, ap, ◌∙◌, Option, none, some, List, [],
  ◌∷◌, ◌++◌, append-nil, append_assoc, Bytes, length, length-append, All, arith, if◌then◌else◌, leb,
  ◌==◌, ◌⊎◌, inl, inr, Option-cases, Bool-cases,
}
use encedo_hem_c_api.Prelude.Bits.{bit_and_255, bit_or_above}
use encedo_hem_c_api.Base64.{
  bytes, shl32, take_value, decode_loop, b64_decode, fill_rev, rev, strip_padding,
}

-- How many bits of `acc` still count.
data Phase : Type 0 where
  whole six four two : Phase

abbrev bits_of : Phase → ℕ
bits_of whole = 0
bits_of six = 6
bits_of four = 4
bits_of two = 2

-- The bytes that the values spell, where `r` holds the bits that are left over so far.
abbrev emit : Phase → ℕ → List ℕ → Bytes
emit p r [] = []
emit whole r (v ∷ vs) = emit six v vs
emit six r (v ∷ vs) = (r * 4 + v / 16) ∷ emit four (v % 16) vs
emit four r (v ∷ vs) = (r * 16 + v / 4) ∷ emit two (v % 4) vs
emit two r (v ∷ vs) = (r * 64 + v) ∷ emit whole 0 vs

-- The reference: bytes from groups of four values, and from two or three values at the end.
abbrev pub unsextets : List ℕ → Bytes
unsextets (a ∷ b ∷ c ∷ d ∷ vs) =
    (a * 4 + b / 16) ∷ (b % 16 * 16 + c / 4) ∷ (c % 4 * 64 + d) ∷ unsextets vs
unsextets (a ∷ b ∷ c ∷ []) = (a * 4 + b / 16) ∷ (b % 16 * 16 + c / 4) ∷ []
unsextets (a ∷ b ∷ []) = (a * 4 + b / 16) ∷ []
unsextets (a ∷ []) = []
unsextets [] = []

emit-unsextets : (vs : List ℕ) → emit whole 0 vs ≡ unsextets vs
emit-unsextets (a ∷ b ∷ c ∷ d ∷ vs) = rw (emit-unsextets vs)
emit-unsextets (a ∷ b ∷ c ∷ []) = refl
emit-unsextets (a ∷ b ∷ []) = refl
emit-unsextets (a ∷ []) = refl
emit-unsextets [] = refl

-- The values of the characters, if every one is in the alphabet.
abbrev pub values : (ℕ → Option ℕ) → Bytes → Option (List ℕ)
values table [] = some []
values table (c ∷ cs) = elim (table c) [
  | none ↦ none
  | some v ↦ elim (values table cs) [ none ↦ none | some vs ↦ some (v ∷ vs) ]
]

-- Bytes that fit the buffer behind `out`.
abbrev pub fitting : ℕ → Bytes → Bytes → Option Bytes
fitting cap out bs = if leb (length out + length bs) cap then some (out ++ bs) else none

-- The loop over values alone.
feed : ℕ → List ℕ → ℕ × ℕ × Bytes → Option Bytes
feed cap [] (acc, bits, out) = some out
feed cap (v ∷ vs) s = elim (take_value cap v s) [ none ↦ none | some s' ↦ feed cap vs s' ]

pushed : (acc v : ℕ) → v < 64 → bit_or (shl32 acc 6) v ≡ acc % 2 ^ 26 * 64 + v
pushed acc v h = ap (λ (t : ℕ). bit_or t v) shifted ∙ bit_or_above 6 (acc % 2 ^ 26) v h
  where
    shifted : shl32 acc 6 ≡ acc % 2 ^ 26 * 2 ^ 6
    shifted = omega arith

-- One value less to go, after the byte `b` is written.
fitting_cons :
    (cap b : ℕ) (out bs : Bytes)
    → (if leb cap (length out) then none else fitting cap (out ++ b ∷ []) bs)
      ≡ fitting cap out (b ∷ bs)
fitting_cons cap b out bs = ground (arith, length-append out (b ∷ []), append_assoc out (b ∷ []) bs)

-- One round at each phase: nothing is written at first, and then a byte if there is room.
abbrev writing : ℕ → ℕ → ℕ → ℕ → Bytes → Option (ℕ × ℕ × Bytes)
writing cap acc k b out = if leb cap (length out) then none else some (acc, k, out ++ b ∷ [])

take_value-whole :
    (cap acc v : ℕ) (out : Bytes)
    → v < 64
    → take_value cap v (acc, 0, out) ≡ some (acc % 2 ^ 26 * 64 + v, 6, out)
unfolding take_value
take_value-whole cap acc v out h = rw (pushed acc v h)

take_value-write :
    (p : Phase) (cap acc v b k : ℕ) (out : Bytes)
    → v < 64
    → bits_of p ≡ k + 2
    → (acc % 2 ^ 26 * 64 + v) / 2 ^ k % 256 ≡ b
    → take_value cap v (acc, bits_of p, out) ≡ writing cap (acc % 2 ^ 26 * 64 + v) k b out
unfolding take_value
take_value-write whole cap acc v b k out h e w = absurd (omega arith)
take_value-write six cap acc v b k out h e w =
    ground (arith, pushed acc v h, bit_and_255 ((acc % 2 ^ 26 * 64 + v) / 2 ^ 4))
take_value-write four cap acc v b k out h e w =
    ground (arith, pushed acc v h, bit_and_255 ((acc % 2 ^ 26 * 64 + v) / 2 ^ 2))
take_value-write two cap acc v b k out h e w =
    ground (arith, pushed acc v h, bit_and_255 ((acc % 2 ^ 26 * 64 + v) / 2 ^ 0))

-- The round, and then the rest of the loop.
round :
    (cap acc k b v : ℕ) (s : ℕ × ℕ × Bytes) (vs : List ℕ) (out bs : Bytes)
    → take_value cap v s ≡ writing cap acc k b out
    → (length out < cap → feed cap vs (acc, k, out ++ b ∷ []) ≡ fitting cap (out ++ b ∷ []) bs)
    → feed cap (v ∷ vs) s ≡ fitting cap out (b ∷ bs)
unfolding feed
round cap acc k b v s vs out bs e ih = elim (Bool-cases (leb cap (length out))) [
  | inl full ↦ rw (feed, e, full) (rw full at (fitting_cons cap b out bs))
  | inr room ↦ rw (feed, e, room) (ih (ground arith) ∙ rw room at (fitting_cons cap b out bs))
]

feed-fitting :
    (p : Phase) (cap acc : ℕ) (vs : List ℕ) (out : Bytes)
    → All (λ v. v < 64) vs
    → length out ≤ cap
    → feed cap vs (acc, bits_of p, out) ≡ fitting cap out (emit p (acc % 2 ^ bits_of p) vs)
unfolding feed
feed-fitting whole cap acc [] out h room = ground (arith, append-nil out)
feed-fitting six cap acc [] out h room = ground (arith, append-nil out)
feed-fitting four cap acc [] out h room = ground (arith, append-nil out)
feed-fitting two cap acc [] out h room = ground (arith, append-nil out)
feed-fitting whole cap acc (v ∷ vs) out h room =
    rw (feed, take_value-whole cap acc v out h.0)
      (feed-fitting six cap (acc % 2 ^ 26 * 64 + v) vs out h.1 room
        ∙ ap (λ (r : ℕ). fitting cap out (emit six r vs)) (omega arith))
feed-fitting six cap acc (v ∷ vs) out h room =
    let acc' = acc % 2 ^ 26 * 64 + v in
    let b = acc % 64 * 4 + v / 16 in
    round cap acc' 4 b v (acc, 6, out) vs out (emit four (v % 16) vs)
      (take_value-write six cap acc v b 4 out h.0 refl (omega arith))
      (λ more.
        feed-fitting four cap acc' vs (out ++ b ∷ []) h.1
          (omega (arith, length-append out (b ∷ [])))
        ∙ ap (λ (r : ℕ). fitting cap (out ++ b ∷ []) (emit four r vs)) (omega arith))
feed-fitting four cap acc (v ∷ vs) out h room =
    let acc' = acc % 2 ^ 26 * 64 + v in
    let b = acc % 16 * 16 + v / 4 in
    round cap acc' 2 b v (acc, 4, out) vs out (emit two (v % 4) vs)
      (take_value-write four cap acc v b 2 out h.0 refl (omega arith))
      (λ more.
        feed-fitting two cap acc' vs (out ++ b ∷ []) h.1 (omega (arith, length-append out (b ∷ [])))
        ∙ ap (λ (r : ℕ). fitting cap (out ++ b ∷ []) (emit two r vs)) (omega arith))
feed-fitting two cap acc (v ∷ vs) out h room =
    let acc' = acc % 2 ^ 26 * 64 + v in
    let b = acc % 4 * 64 + v in
    round cap acc' 0 b v (acc, 2, out) vs out (emit whole 0 vs)
      (take_value-write two cap acc v b 0 out h.0 refl (omega arith))
      (λ more.
        feed-fitting whole cap acc' vs (out ++ b ∷ []) h.1
          (omega (arith, length-append out (b ∷ [])))
        ∙ ap (λ (r : ℕ). fitting cap (out ++ b ∷ []) (emit whole r vs)) (omega arith))

-- Characters are values or failures; the order of the two kinds of failure does not matter.
decode_loop-values :
    (table : ℕ → Option ℕ) (cap : ℕ) (cs : Bytes) (s : ℕ × ℕ × Bytes)
    → decode_loop table cap cs s ≡ elim (values table cs) [ none ↦ none | some vs ↦ feed cap vs s ]
unfolding decode_loop feed
decode_loop-values table cap [] s = refl
decode_loop-values table cap (c ∷ cs) s = elim (Option-cases (table c)) [
  | inl e ↦ ground arith
  | inr (v, e) ↦ elim (Option-cases (take_value cap v s)) [
    | inl f ↦ ground arith
    | inr (s', f) ↦ ground (arith, decode_loop-values table cap cs s')
  ]
]

-- Every value that `rev` knows is an index of the alphabet.
fill_rev-lt :
    (alpha : Bytes) (i : ℕ) (table : ℕ → Option ℕ) (c v : ℕ)
    → fill_rev alpha i table c ≡ some v
    → (v < i + length alpha) ⊎ (table c ≡ some v)
unfolding fill_rev
fill_rev-lt [] i table c v h = inr h
fill_rev-lt (a ∷ alpha) i table c v h =
    elim (fill_rev-lt alpha (i + 1) (λ d. if d == a then some i else table d) c v h) [
      | inl lt ↦ inl (omega arith)
      | inr e ↦ ground arith
    ]

rev-lt : (alpha : Bytes) (c v : ℕ) → rev alpha c ≡ some v → v < length alpha
unfolding rev
rev-lt alpha c v h = elim (fill_rev-lt alpha 0 (λ _. none) c v h) [
  | inl lt ↦ omega arith
  | inr e ↦ cc
]

pub values-IsSextet :
    (alpha : Bytes) (cs : Bytes) (vs : List ℕ)
    → length alpha ≤ 64
    → values (rev alpha) cs ≡ some vs
    → All (λ v. v < 64) vs
values-IsSextet alpha [] [] fits h = tt
values-IsSextet alpha [] (v ∷ vs) fits h = cc
values-IsSextet alpha (c ∷ cs) vs fits h = elim (Option-cases (rev alpha c)) [
  | inl e ↦ absurd (ground arith)
  | inr (v, e) ↦ elim (Option-cases (values (rev alpha) cs)) [
    | inl f ↦ absurd (ground arith)
    | inr (ws, f) ↦
        let cons : vs ≡ v ∷ ws = ground arith in
        rw cons (omega (arith, rev-lt alpha c v e), values-IsSextet alpha cs ws fits f)
  ]
]

decode_values :
    (cap : ℕ) (o : Option (List ℕ))
    → ((vs : List ℕ) → o ≡ some vs → All (λ v. v < 64) vs)
    → (elim o as (λ x. Option Bytes) [ none ↦ none | some vs ↦ feed cap vs (0, 0, []) ])
      ≡ (elim o as (λ x. Option Bytes) [ none ↦ none | some vs ↦ fitting cap [] (unsextets vs) ])
decode_values cap none small = refl
decode_values cap (some vs) small =
    rw (feed-fitting whole cap 0 vs [] (small vs refl) (omega arith), emit-unsextets)

-- The decoder by its parts: padding off, a length check, all characters, and room for all bytes.
abbrev pub reference_decode : Bytes → ℕ → Bytes → Option Bytes
reference_decode alpha cap input =
    if length (strip_padding input) % 4 == 1
    then none
    else elim (values (rev alpha) (strip_padding input)) [
      | none ↦ none
      | some vs ↦ fitting cap [] (unsextets vs)
    ]

-- For every alphabet of at most 64 letters, every input and every capacity, the decoder strips
-- the trailing `=`, and answers `(size_t)-1` exactly when one character is left over in the last
-- group of four, or a character is outside the alphabet, or the bytes that the characters spell
-- exceed the capacity; otherwise it writes those bytes.
pub b64_decode-reference :
    (alpha input : Bytes) (cap : ℕ)
    → length alpha ≤ 64
    → b64_decode (bytes input) (some cap) alpha ≡ reference_decode alpha cap input
unfolding b64_decode
b64_decode-reference alpha input cap fits =
    elim (Bool-cases (length (strip_padding input) % 4 == 1)) [
      | inl odd ↦ rw odd
      | inr even ↦ rw even (
          decode_loop-values (rev alpha) cap (strip_padding input) (0, 0, [])
          ∙ decode_values cap (values (rev alpha) (strip_padding input))
              (λ vs e. values-IsSextet alpha (strip_padding input) vs fits e))
    ]
