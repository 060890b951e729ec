-- ===== src/Bip39.antt =====
-- src/bip39.c: the mnemonic of 24 words, and the master secret that it stands for. The word list
-- (src/vendor/bip39) is a parameter.
pub mod Search
pub mod Bits
pub mod Copy
pub mod Words
pub mod RoundTrip
mod Tests
use encedo_hem_c_api.Prelude.{
  ℕ, zero, suc, ◌+◌, ◌-◌, ◌*◌, ◌/◌, ◌%◌, ◌^◌, bit_or, Bool, true, false, ◌&&◌, ◌||◌, Option, none,
  some, List, [], ◌∷◌, ◌++◌, Bytes, codes, decimal, length, get_or, take, drop, ltb, leb, ◌==◌,
  if◌then◌else◌,
}
use encedo_hem_c_api.Rc.{Rc, arg}
use encedo_hem_c_api.Env.{Env, Result, ok, err}
use encedo_hem_c_api.Monad.{Prog, attempt, outside_result, return, throw, ◌>>=◌}
use Prim.Native.Nat.{compare, Ordering}

-- `strncmp` on two C strings, of which the first is a list of the bytes that are looked at.
unfoldable pub strncmp : ℕ → Bytes → Bytes → Ordering
strncmp zero w c = Ordering.eq
strncmp (suc n) [] [] = Ordering.eq
strncmp (suc n) [] (y ∷ ys) = Ordering.lt
strncmp (suc n) (x ∷ xs) [] = Ordering.gt
strncmp (suc n) (x ∷ xs) (y ∷ ys) = elim (compare x y) [
  | Ordering.lt ↦ Ordering.lt
  | Ordering.eq ↦ strncmp n xs ys
  | Ordering.gt ↦ Ordering.gt
]

-- A proper prefix sorts first.
abbrev pub unless_longer : Bytes → Ordering
unless_longer [] = Ordering.eq
unless_longer (c ∷ cs) = Ordering.lt

unfoldable pub compare_word : Bytes → Bytes → Ordering
compare_word w c = elim (strncmp (length w) w c) [
  | Ordering.lt ↦ Ordering.lt
  | Ordering.eq ↦ unless_longer (drop (length w) c)
  | Ordering.gt ↦ Ordering.gt
]

abbrev pub word_count : ℕ
word_count = 24

abbrev pub mnemonic_cap : ℕ
mnemonic_cap = word_count * 9

abbrev pub entropy_size : ℕ
entropy_size = 32

-- `isspace` in the C locale.
unfoldable pub is_space : ℕ → Bool
is_space c = c == 32 || leb 9 c && leb c 13

-- The byte `c` in front of the words of a text, which starts with a part of the same word or not.
abbrev pub glue : ℕ → Bool → List Bytes → List Bytes
glue c true ws = (c ∷ []) ∷ ws
glue c false [] = (c ∷ []) ∷ []
glue c false (w ∷ ws) = (c ∷ w) ∷ ws

abbrev pub at_end : Bytes → Bool
at_end [] = true
at_end (c ∷ cs) = is_space c

-- The words of a text: its longest runs without a space.
unfoldable pub split_words : Bytes → List Bytes
unfolding is_space
split_words [] = []
split_words (c ∷ cs) = let ws = split_words cs in if is_space c then ws else glue c (at_end cs) ws

-- `bits[bit >> 3] >> (7 - (bit & 7)) & 1`
unfoldable pub bit_at : Bytes → ℕ → ℕ
bit_at bits bit = get_or bits (bit / 8) 0 / 2 ^ (7 - bit % 8) % 2

-- `idx = (idx << 1) | …`, for as many bits as are left.
unfoldable pub read_bits : ℕ → Bytes → ℕ → ℕ → ℕ
read_bits zero bits bit idx = idx
read_bits (suc left) bits bit idx =
    read_bits left bits (bit + 1) (bit_or (idx * 2) (bit_at bits bit))

abbrev pub update : ℕ → (ℕ → ℕ) → Bytes → Bytes
update i f [] = []
update zero f (x ∷ xs) = f x ∷ xs
update (suc i) f (x ∷ xs) = x ∷ update i f xs

-- `bits[bit >> 3] |= 0x80u >> (bit & 7)`
unfoldable pub set_bit : Bytes → ℕ → Bytes
set_bit bits bit = update (bit / 8) (λ x. bit_or x (128 / 2 ^ (bit % 8))) bits

-- The bits of an index, the most significant one first.
unfoldable pub write_bits : ℕ → ℕ → ℕ → Bytes → Bytes
write_bits zero idx bit bits = bits
write_bits (suc left) idx bit bits =
    write_bits left idx (bit + 1) (if idx / 2 ^ left % 2 == 1 then set_bit bits bit else bits)

abbrev pub separator : ℕ → Bytes
separator zero = []
separator (suc n) = b' ' ∷ []

-- The canonical text and the bits, or the reason against it.
pub data Packed : Type 0 where
  invalid : Bytes → Packed
  packed : Bytes → Bytes → Packed

abbrev pub unknown_word : ℕ → Bytes → Packed
unknown_word n w = invalid (
    codes "word "
    ++ decimal (n + 1)
    ++ codes " (\""
    ++ take 16 w
    ++ codes "\") is not in the BIP39 English list (lowercase only)")

module _ (wordlist : ℕ → Bytes) where
  -- The binary search; `top` is `hi + 1`. The fuel bounds the part of the list that is left.
  unfoldable pub word_search : ℕ → Bytes → ℕ → ℕ → Option ℕ
  word_search zero w lo top = none
  word_search (suc fuel) w lo top =
      let mid = lo + (top - 1 - lo) / 2 in
      elim (ltb lo top) [
        | false ↦ none
        | true ↦ elim (compare_word w (wordlist mid)) [
          | Ordering.lt ↦ word_search fuel w lo mid
          | Ordering.eq ↦ some mid
          | Ordering.gt ↦ word_search fuel w (mid + 1) top
        ]
      ]

  unfoldable pub word_index : Bytes → Option ℕ
  unfolding word_search
  word_index w = word_search 2048 w 0 2048

  unfoldable pub find_word : Bytes → Option ℕ
  unfolding word_index
  find_word w = if leb 3 (length w) && leb (length w) 8 then word_index w else none

  -- The words from the one at `i` on, of which `left` are left.
  unfoldable pub spell_words : ℕ → ℕ → Bytes → Bytes
  spell_words zero i bits = []
  spell_words (suc left) i bits =
      separator i ++ (wordlist (read_bits 11 bits (i * 11) 0) ++ spell_words left (i + 1) bits)

  -- The words behind the first `n`, one after another.
  unfoldable pub pack_words : List Bytes → ℕ → Bytes → Bytes → Packed
  pack_words [] n canon bits =
      if n == word_count
      then packed canon bits
      else invalid (decimal n ++ codes " words, need exactly 24")
  pack_words (w ∷ ws) n canon bits =
      if n == word_count then invalid (codes "more than 24 words") else elim (find_word w) [
        | none ↦ unknown_word n w
        | some idx ↦
            pack_words ws (n + 1) (canon ++ (separator n ++ w)) (write_bits 11 idx (n * 11) bits)
      ]

abbrev pub zeros : ℕ → Bytes
zeros zero = []
zeros (suc n) = 0 ∷ zeros n

abbrev pub salt : Bytes
salt = codes "mnemonic"

-- `(uint8_t)((seed[i] << 4) | (seed[i + 1] >> 4))`
unfoldable pub shift_nibble : ℕ → Bytes → Bytes
shift_nibble zero seed = []
shift_nibble (suc left) [] = []
shift_nibble (suc left) (x ∷ xs) = bit_or (x * 16) (get_or xs 0 0 / 16) % 256 ∷ shift_nibble left xs

module _ ⦃E : Env⦄ where
  -- The reason, cut off at the size of its buffer.
  abbrev pub say : ℕ → Bytes → Bytes
  say cap text = take (cap - 1) text

  abbrev pub shifted : Result Bytes → Bytes × Result Bytes
  shifted (ok seed) = ([], ok (shift_nibble 32 seed))
  shifted (err rc) = ([], err rc)

  -- The derivation of Encedo Manager: the seed, a nibble further on.
  unfoldable pub derive_secret : Bytes → Prog (Bytes × Result Bytes)
  derive_secret canon = do
    seed ← attempt (outside_result (E.pbkdf2_sha512 canon salt 2048))
    return (shifted seed)

  abbrev pub check_sum : ℕ → Bytes → Bytes → Result Bytes → Prog (Bytes × Result Bytes)
  check_sum reason_cap canon bits (err rc) = return ([], err rc)
  check_sum reason_cap canon bits (ok hash) =
      if get_or hash 0 0 == get_or bits entropy_size 0
      then derive_secret canon
      else return
          (say reason_cap (codes "checksum mismatch - a word is wrong or out of order"), err arg)

  abbrev pub judge : ℕ → Packed → Prog (Bytes × Result Bytes)
  judge reason_cap (invalid text) = return (say reason_cap text, err arg)
  judge reason_cap (packed canon bits) = do
    hash ← attempt (outside_result (E.sha256 (take entropy_size bits)))
    check_sum reason_cap canon bits hash

module _ ⦃E : Env⦄ (wordlist : ℕ → Bytes) where
  -- `ehem_bip39_from_entropy` on 32 bytes, with the capacity of its buffer.
  unfoldable pub from_entropy : Bytes → ℕ → Prog Bytes
  unfolding spell_words
  from_entropy entropy cap = if ltb cap mnemonic_cap then throw arg else do
    hash ← outside_result (E.sha256 entropy)
    return (spell_words wordlist word_count 0 (entropy ++ get_or hash 0 0 ∷ []))

  unfoldable pub generate : ℕ → Prog Bytes
  generate cap = do entropy ← outside_result (E.random_bytes entropy_size); from_entropy entropy cap

  -- `ehem_bip39_to_master_secret`: the reason against the words, empty where there is none, and
  -- the secret.
  unfoldable pub to_master_secret : Bytes → ℕ → Prog (Bytes × Result Bytes)
  unfolding pack_words
  to_master_secret words reason_cap =
      judge reason_cap (pack_words wordlist (split_words words) 0 [] (zeros 33))
