-- ===== src/Base64/Sextets.antt =====
-- What the encoder of src/ejwt.c writes: the letters of the six-bit groups, then the padding.
use encedo_hem_c_api.Prelude.{
  ℕ, ◌+◌, ◌*◌, ◌/◌, ◌%◌, ◌^◌, ◌<◌, bit_or, ◌≡◌, sym, ap, ◌∙◌, Bool, true, false, List, [], ◌∷◌,
  ◌++◌, append-nil, append_assoc, Bytes, get_or, All, arith,
}
use encedo_hem_c_api.Prelude.Bits.{bit_and_63, bit_or_above}
use encedo_hem_c_api.Base64.{encode_loop, letter, shl32, padding}
use mathlib.Core.Path.{ap₂}
use mathlib.Core.List.{map}

-- The bits of `xs` in groups of six, the last one filled up with zeros.
abbrev pub sextets : Bytes → List ℕ
sextets (a ∷ b ∷ c ∷ rest) =
    a / 4 ∷ (a % 4 * 16 + b / 16) ∷ (b % 16 * 4 + c / 64) ∷ c % 64 ∷ sextets rest
sextets (a ∷ b ∷ []) = a / 4 ∷ (a % 4 * 16 + b / 16) ∷ b % 16 * 4 ∷ []
sextets (a ∷ []) = a / 4 ∷ a % 4 * 16 ∷ []
sextets [] = []

-- The padding of the standard variant.
abbrev pub equals_signs : Bytes → Bytes
equals_signs (a ∷ b ∷ c ∷ rest) = equals_signs rest
equals_signs (a ∷ b ∷ []) = b'=' ∷ []
equals_signs (a ∷ []) = b'=' ∷ b'=' ∷ []
equals_signs [] = []

abbrev pub IsByte : ℕ → Type 0
IsByte b = b < 256

abbrev pub IsSextet : ℕ → Type 0
IsSextet v = v < 64

pub sextets-IsSextet : (xs : Bytes) → All IsByte xs → All IsSextet (sextets xs)
sextets-IsSextet (a ∷ b ∷ c ∷ rest) h =
    (omega arith, (omega arith, (omega arith, (omega arith, sextets-IsSextet rest h.1.1.1))))
sextets-IsSextet (a ∷ b ∷ []) h = omega arith
sextets-IsSextet (a ∷ []) h = omega arith
sextets-IsSextet [] h = tt

-- The bytes that `v` packs, and its fields.
packed_two : (a b : ℕ) → a < 256 → b < 256 → bit_or (shl32 a 16) (shl32 b 8) ≡ (a * 256 + b) * 256
packed_two a b ha hb =
    ap₂ bit_or upper lower ∙ (bit_or_above 16 a (b * 256) (omega arith) ∙ omega arith)
  where
    upper : shl32 a 16 ≡ a * 2 ^ 16
    upper = omega arith

    lower : shl32 b 8 ≡ b * 256
    lower = omega arith

packed_three :
    (a b c : ℕ)
    → a < 256
    → b < 256
    → c < 256
    → bit_or (bit_or (shl32 a 16) (shl32 b 8)) c ≡ (a * 256 + b) * 256 + c
packed_three a b c ha hb hc =
    ap (λ (t : ℕ). bit_or t c) (packed_two a b ha hb) ∙ bit_or_above 8 (a * 256 + b) c hc

letter_at : (alpha : Bytes) (v k s : ℕ) → v / 2 ^ k % 64 ≡ s → letter alpha v k ≡ get_or alpha s 0
letter_at alpha v k s h = ap (λ (i : ℕ). get_or alpha i 0) (bit_and_63 (v / 2 ^ k) ∙ h)

abbrev pub spell : Bytes → List ℕ → Bytes
spell alpha = map (λ s. get_or alpha s 0)

-- The letters of one group.
group_of_three :
    (alpha : Bytes) (a b c v : ℕ)
    → v ≡ (a * 256 + b) * 256 + c
    → a < 256
    → b < 256
    → c < 256
    → letter alpha v 18 ∷ letter alpha v 12 ∷ letter alpha v 6 ∷ letter alpha v 0 ∷ []
      ≡ spell alpha (a / 4 ∷ (a % 4 * 16 + b / 16) ∷ (b % 16 * 4 + c / 64) ∷ c % 64 ∷ [])
group_of_three alpha a b c v e ha hb hc = rw (
  letter_at alpha v 18 (a / 4) (omega arith),
  letter_at alpha v 12 (a % 4 * 16 + b / 16) (omega arith),
  letter_at alpha v 6 (b % 16 * 4 + c / 64) (omega arith),
  letter_at alpha v 0 (c % 64) (omega arith),
)

-- The encoder appends to `out` the letters of the groups, and the padding if it is asked for.
pub encode_loop_lem :
    (alpha : Bytes) (pad : Bool) (xs out : Bytes)
    → All IsByte xs
    → encode_loop alpha pad xs out
      ≡ out ++ (spell alpha (sextets xs) ++ padding pad (equals_signs xs))
unfolding encode_loop
encode_loop_lem alpha pad (a ∷ b ∷ c ∷ rest) out (ha, (hb, (hc, h))) =
    rw (group_of_three alpha a b c _ (packed_three a b c ha hb hc) ha hb hc)
      (encode_loop_lem alpha pad rest _ h ∙ append_assoc out _ _)
encode_loop_lem alpha pad (a ∷ b ∷ []) out (ha, (hb, h)) = rw (
  packed_two a b ha hb,
  letter_at alpha ((a * 256 + b) * 256) 18 (a / 4) (omega arith),
  letter_at alpha ((a * 256 + b) * 256) 12 (a % 4 * 16 + b / 16) (omega arith),
  letter_at alpha ((a * 256 + b) * 256) 6 (b % 16 * 4) (omega arith),
)
encode_loop_lem alpha pad (a ∷ []) out (ha, h) = rw (
  letter_at alpha (shl32 a 16) 18 (a / 4) (omega arith),
  letter_at alpha (shl32 a 16) 12 (a % 4 * 16) (omega arith),
)
encode_loop_lem alpha true [] out h = sym (append-nil out)
encode_loop_lem alpha false [] out h = sym (append-nil out)
