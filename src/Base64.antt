-- ===== src/Base64.antt =====
-- src/ejwt.c, the base64 codecs. A buffer that the C code takes as pointer and length is a
-- `Slice`; an output buffer is `none` for a NULL pointer, or its capacity. A result is the list
-- of the bytes written, whose length the C code returns, or `none` for `(size_t)-1`.
pub mod Alphabet
pub mod Sextets
pub mod Decode
pub mod RoundTrip
mod Tests
use encedo_hem_c_api.Prelude.{
  ℕ, zero, suc, ◌+◌, ◌-◌, ◌*◌, ◌/◌, ◌%◌, ◌^◌, bit_and, bit_or, Bool, true, false, ◌||◌, Option,
  none, some, List, [], ◌∷◌, ◌++◌, Bytes, codes, length, get_or, ltb, leb, ◌==◌, if◌then◌else◌,
}

-- A pointer with a length: a NULL pointer with whatever length, or bytes.
pub data Slice : Type 0 where
  null : ℕ → Slice
  bytes : Bytes → Slice

abbrev pub size_mod : ℕ
size_mod = 2 ^ 64

abbrev pub u32_mod : ℕ
u32_mod = 2 ^ 32

abbrev pub b64_std_alpha : Bytes
b64_std_alpha = codes "ABCDEFGHIJKLMNOPQRSTUVWXYZabcdefghijklmnopqrstuvwxyz0123456789+/"

abbrev pub b64_url_alpha : Bytes
b64_url_alpha = codes "ABCDEFGHIJKLMNOPQRSTUVWXYZabcdefghijklmnopqrstuvwxyz0123456789-_"

unfoldable pub b64_std_encoded_len : ℕ → ℕ
b64_std_encoded_len n = 4 * ((n + 2) % size_mod / 3) % size_mod

unfoldable pub b64url_encoded_len : ℕ → ℕ
b64url_encoded_len n = let rem = n % 3 in (n / 3 * 4 + (if rem == 0 then 0 else rem + 1)) % size_mod

-- `(uint32_t)b << k`
abbrev pub shl32 : ℕ → ℕ → ℕ
shl32 b k = b * 2 ^ k % u32_mod

-- `alpha[(v >> k) & 63]`
abbrev pub letter : Bytes → ℕ → ℕ → ℕ
letter alpha v k = get_or alpha (bit_and (v / 2 ^ k) 63) 0

-- `if (pad) { out[o++] = '='; … }`
abbrev pub padding : Bool → Bytes → Bytes
padding true eqs = eqs
padding false eqs = []

-- The `while` loop over whole groups of three, and the one or two bytes behind them.
unfoldable pub encode_loop : Bytes → Bool → Bytes → Bytes → Bytes
encode_loop alpha pad (a ∷ b ∷ c ∷ rest) out =
    let v = bit_or (bit_or (shl32 a 16) (shl32 b 8)) c in
    encode_loop alpha pad rest
      (out ++ letter alpha v 18 ∷ letter alpha v 12 ∷ letter alpha v 6 ∷ letter alpha v 0 ∷ [])
encode_loop alpha pad (a ∷ b ∷ []) out =
    let v = bit_or (shl32 a 16) (shl32 b 8) in
    out ++ letter alpha v 18 ∷ letter alpha v 12 ∷ letter alpha v 6 ∷ padding pad (b'=' ∷ [])
encode_loop alpha pad (a ∷ []) out =
    let v = shl32 a 16 in
    out ++ letter alpha v 18 ∷ letter alpha v 12 ∷ padding pad (b'=' ∷ b'=' ∷ [])
encode_loop alpha pad [] out = out

encode_bytes : Bytes → Option ℕ → Bytes → Bool → Option Bytes
encode_bytes input none alpha pad = none
encode_bytes input (some out_cap) alpha pad =
    let n = length input in
    let need = if pad then b64_std_encoded_len n else b64url_encoded_len n in
    if ltb out_cap ((need + 1) % size_mod) then none else some (encode_loop alpha pad input [])

-- A NULL `in` is read as no bytes if its length is 0, and refused if not.
unfoldable pub b64_encode : Slice → Option ℕ → Bytes → Bool → Option Bytes
unfolding encode_bytes
b64_encode (null zero) out alpha pad = encode_bytes [] out alpha pad
b64_encode (null (suc n)) out alpha pad = none
b64_encode (bytes input) out alpha pad = encode_bytes input out alpha pad

-- `rev`, filled from the alphabet: the value of each letter, `none` for -1.
unfoldable pub fill_rev : Bytes → ℕ → (ℕ → Option ℕ) → ℕ → Option ℕ
fill_rev [] i table = table
fill_rev (a ∷ alpha) i table = fill_rev alpha (i + 1) (λ c. if c == a then some i else table c)

unfoldable pub rev : Bytes → ℕ → Option ℕ
unfolding fill_rev
rev alpha = fill_rev alpha 0 (λ _. none)

-- One end of `while (in_len > 0 && in[in_len - 1] == '=') in_len--;`: what is kept of `c`, if the
-- loop stops with `kept` of the bytes behind it.
abbrev pub keep : ℕ → Bytes → Bytes
keep c [] = if c == b'=' then [] else c ∷ []
keep c (d ∷ ds) = c ∷ d ∷ ds

unfoldable pub strip_padding : Bytes → Bytes
strip_padding [] = []
strip_padding (c ∷ cs) = keep c (strip_padding cs)

-- `acc = (acc << 6) | (uint32_t)v; bits += 6;` and the byte that is written once eight bits are
-- there. A state is `acc`, `bits` and the bytes written so far.
unfoldable pub take_value : ℕ → ℕ → ℕ × ℕ × Bytes → Option (ℕ × ℕ × Bytes)
take_value cap v (acc, bits, out) =
    let acc' = bit_or (shl32 acc 6) v in
    let bits' = bits + 6 in
    if leb 8 bits'
    then (if leb cap (length out)
        then none
        else some (acc', bits' - 8, out ++ bit_and (acc' / 2 ^ (bits' - 8)) 255 ∷ []))
    else some (acc', bits', out)

-- The loop's body on one character.
unfoldable pub take_char : (ℕ → Option ℕ) → ℕ → ℕ → ℕ × ℕ × Bytes → Option (ℕ × ℕ × Bytes)
unfolding take_value
take_char table cap c s = elim (table c) [ none ↦ none | some v ↦ take_value cap v s ]

unfoldable pub decode_loop : (ℕ → Option ℕ) → ℕ → Bytes → ℕ × ℕ × Bytes → Option Bytes
unfolding take_char
decode_loop table cap [] (acc, bits, out) = some out
decode_loop table cap (c ∷ cs) s = elim (take_char table cap c s) [
  | none ↦ none
  | some s' ↦ decode_loop table cap cs s'
]

decode_bytes : Bytes → Option ℕ → Bytes → Option Bytes
decode_bytes input none alpha = none
decode_bytes input (some cap) alpha =
    let kept = strip_padding input in
    if length kept % 4 == 1 then none else decode_loop (rev alpha) cap kept (0, 0, [])

unfoldable pub b64_decode : Slice → Option ℕ → Bytes → Option Bytes
unfolding decode_bytes
b64_decode (null zero) out alpha = decode_bytes [] out alpha
b64_decode (null (suc n)) out alpha = none
b64_decode (bytes input) out alpha = decode_bytes input out alpha

unfoldable pub b64_std_encode : Slice → Option ℕ → Option Bytes
unfolding b64_encode
b64_std_encode input out = b64_encode input out b64_std_alpha true

unfoldable pub b64url_encode : Slice → Option ℕ → Option Bytes
unfolding b64_encode
b64url_encode input out = b64_encode input out b64_url_alpha false

unfoldable pub b64_std_decode : Slice → Option ℕ → Option Bytes
unfolding b64_decode
b64_std_decode input out = b64_decode input out b64_std_alpha

unfoldable pub b64url_decode : Slice → Option ℕ → Option Bytes
unfolding b64_decode
b64url_decode input out = b64_decode input out b64_url_alpha
