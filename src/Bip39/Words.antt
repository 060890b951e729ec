-- ===== src/Bip39/Words.antt =====
-- The words of a mnemonic, spelled and read back (src/bip39.c).
use encedo_hem_c_api.Prelude.{
  ℕ, zero, suc, ◌+◌, ◌-◌, ◌*◌, ◌/◌, ◌%◌, ◌^◌, ◌≤◌, ◌<◌, Bool, true, false, ◌&&◌, Option, none, some,
  List, [], ◌∷◌, ◌++◌, append-nil, append_assoc, Bytes, length, length-append, get_or, All, leb,
  if◌then◌else◌, ◌≡◌, refl, ap, sym, ◌∙◌, arith,
}
use encedo_hem_c_api.Base64.Sextets.{IsByte}
use encedo_hem_c_api.Bip39.{
  is_space, at_end, glue, split_words, separator, read_bits, write_bits, bit_at, find_word,
  word_index, spell_words, pack_words, packed, zeros, word_count, mnemonic_cap,
}
use encedo_hem_c_api.Bip39.Search.{IsSorted, word_index-found}
use native.Mathlib.Nat.{zero-div}
use encedo_hem_c_api.Bip39.Copy.{Agrees, bits_copied, write_bits-Agrees, read_bits-lt}

abbrev IsLetter : ℕ → Type 0
IsLetter c = is_space c ≡ false

-- What the file says of the list: sorted, 3 to 8 letters each, and no spaces among them.
pub record IsWordList (wordlist : ℕ → Bytes) : Type 0 where
  pub sorted : IsSorted wordlist 2048
  pub sized : (i : ℕ) → i < 2048 → (3 ≤ length (wordlist i)) × (length (wordlist i) ≤ 8)
  pub spelt : (i : ℕ) → i < 2048 → All IsLetter (wordlist i)

split-space : (t : Bytes) → split_words (b' ' ∷ t) ≡ split_words t
unfolding split_words is_space
split-space t = refl

split-none : split_words [] ≡ []
unfolding split_words
split-none = refl

split-letters :
    (c : ℕ) (cs t : Bytes)
    → All IsLetter (c ∷ cs)
    → at_end t ≡ true
    → split_words ((c ∷ cs) ++ t) ≡ (c ∷ cs) ∷ split_words t
unfolding split_words
split-letters c [] t (h, all) e = rw (h, e) refl
split-letters c (d ∷ ds) t (h, all) e =
    ap (λ ws. if is_space c then ws else glue c (is_space d) ws) (split-letters d ds t all e)
    ∙ rw (h, all.0) refl

split-word :
    (w t : Bytes)
    → 1 ≤ length w
    → All IsLetter w
    → at_end t ≡ true
    → split_words (w ++ t) ≡ w ∷ split_words t
split-word [] t l all e = absurd (omega arith)
split-word (c ∷ cs) t l all e = split-letters c cs t all e

both : (b c : Bool) (r : Option ℕ) → b ≡ true → c ≡ true → (if b && c then r else none) ≡ r
both true true r p q = refl
both true false r p q = cc
both false c r p q = cc

find_word-word_index :
    (wordlist : ℕ → Bytes) (w : Bytes)
    → 3 ≤ length w
    → length w ≤ 8
    → find_word wordlist w ≡ word_index wordlist w
unfolding find_word
find_word-word_index wordlist w l h =
    both (leb 3 (length w)) (leb (length w) 8) (word_index wordlist w) (ground arith) (ground arith)

split-separator : (i : ℕ) (t : Bytes) → split_words (separator i ++ t) ≡ split_words t
split-separator zero t = refl
split-separator (suc i) t = split-space t

length-separator : (i : ℕ) → length (separator i) ≤ 1
length-separator zero = omega arith
length-separator (suc i) = omega arith

module _ (wordlist : ℕ → Bytes) (w : IsWordList wordlist) (bits : Bytes) where
  abbrev word_at : ℕ → Bytes
  word_at i = wordlist (read_bits 11 bits (i * 11) 0)

  abbrev words_from : ℕ → ℕ → List Bytes
  words_from zero i = []
  words_from (suc left) i = word_at i ∷ words_from left (i + 1)

  find_word-word_at : (i : ℕ) → find_word wordlist (word_at i) ≡ some (read_bits 11 bits (i * 11) 0)
  find_word-word_at i =
      let small = read_bits-lt bits (i * 11) in
      let (low, high) = w.sized (read_bits 11 bits (i * 11) 0) small in
      find_word-word_index wordlist (word_at i) low high
      ∙ word_index-found wordlist (read_bits 11 bits (i * 11) 0) w.sorted small

  spell-at_end : (left i : ℕ) → at_end (spell_words wordlist left (i + 1) bits) ≡ true
  unfolding spell_words is_space
  spell-at_end zero i = refl
  spell-at_end (suc left) i =
      let next : i + 1 ≡ suc i = omega arith in
      ap
        (λ (n : ℕ).
          at_end (separator n ++ (word_at (i + 1) ++ spell_words wordlist left (i + 1 + 1) bits)))
        next

  pub split-spell_words :
      (left i : ℕ) → split_words (spell_words wordlist left i bits) ≡ words_from left i
  unfolding spell_words
  split-spell_words zero i = split-none
  split-spell_words (suc left) i =
      let small = read_bits-lt bits (i * 11) in
      let (low, high) = w.sized (read_bits 11 bits (i * 11) 0) small in
      let rest = spell_words wordlist left (i + 1) bits in
      split-separator i (word_at i ++ rest)
      ∙ split-word (word_at i) rest (omega arith) (w.spelt (read_bits 11 bits (i * 11) 0) small)
          (spell-at_end left i)
      ∙ ap (λ ws. word_at i ∷ ws) (split-spell_words left (i + 1))

  pack_words-next :
      (n idx : ℕ) (word : Bytes) (ws : List Bytes) (canon cur : Bytes)
      → n < word_count
      → find_word wordlist word ≡ some idx
      → pack_words wordlist (word ∷ ws) n canon cur
        ≡ pack_words wordlist ws
            (n + 1)
            (canon ++ (separator n ++ word))
            (write_bits 11 idx (n * 11) cur)
  unfolding pack_words
  pack_words-next n idx word ws canon cur h e = ground (arith, e)

  pack_words-end :
      (n : ℕ) (canon cur : Bytes)
      → n ≡ word_count
      → pack_words wordlist [] n canon cur ≡ packed canon cur
  unfolding pack_words
  pack_words-end n canon cur h = rw h refl

  pub pack_words-words_from :
      (left i : ℕ) (canon cur : Bytes)
      → i + left ≡ word_count
      → length bits ≡ 33
      → All IsByte bits
      → Agrees bits (i * 11) cur
      → pack_words wordlist (words_from left i) i canon cur
        ≡ packed (canon ++ spell_words wordlist left i bits) bits
  unfolding spell_words
  pack_words-words_from zero i canon cur e l all a =
      let done : i * 11 ≡ 8 * length bits = omega arith in
      let whole : cur ≡ bits = bits_copied bits cur all (rw done at a) in
      pack_words-end i canon cur (omega arith) ∙ rw (whole, append-nil canon) refl
  pack_words-words_from (suc left) i canon cur e l all a =
      let idx = read_bits 11 bits (i * 11) 0 in
      let next : i * 11 + 11 ≡ (i + 1) * 11 = omega arith in
      pack_words-next i idx (word_at i) (words_from left (i + 1)) canon cur (omega arith)
        (find_word-word_at i)
      ∙ pack_words-words_from left (i + 1) (canon ++ (separator i ++ word_at i))
          (write_bits 11 idx (i * 11) cur) (omega arith) l all
          (rw next at (write_bits-Agrees 11 bits cur (i * 11) 0 (omega arith) a))
      ∙ ap (λ t. packed t bits)
          (append_assoc canon (separator i ++ word_at i) (spell_words wordlist left (i + 1) bits)
            ∙ ap (λ t. canon ++ t)
                (append_assoc (separator i) (word_at i) (spell_words wordlist left (i + 1) bits)))

  -- A word and a space each at most.
  length-spell_words : (left i : ℕ) → length (spell_words wordlist left i bits) ≤ left * 9
  unfolding spell_words
  length-spell_words zero i = omega arith
  length-spell_words (suc left) i =
      let rest = spell_words wordlist left (i + 1) bits in
      omega (
        arith,
        length-append (separator i) (word_at i ++ rest),
        length-append (word_at i) rest,
        length-separator i,
        (w.sized (read_bits 11 bits (i * 11) 0) (read_bits-lt bits (i * 11))).1,
        length-spell_words left (i + 1),
      )

  -- No space stands in front of the first word.
  pub spell_words-lt : length (spell_words wordlist word_count 0 bits) < mnemonic_cap
  unfolding spell_words
  spell_words-lt = omega (
    arith,
    length-append (word_at 0) (spell_words wordlist 23 1 bits),
    (w.sized (read_bits 11 bits 0 0) (read_bits-lt bits 0)).1,
    length-spell_words 23 1,
  )

length-zeros : (n : ℕ) → length (zeros n) ≡ n
length-zeros zero = refl
length-zeros (suc n) = ap suc (length-zeros n)

get_or-zeros : (n j : ℕ) → get_or (zeros n) j 0 ≡ 0
get_or-zeros zero j = refl
get_or-zeros (suc n) zero = refl
get_or-zeros (suc n) (suc j) = get_or-zeros n j

zeros-IsByte : (n : ℕ) → All IsByte (zeros n)
zeros-IsByte zero = tt
zeros-IsByte (suc n) = (omega arith, zeros-IsByte n)

pub zeros-Agrees : (bits : Bytes) → length bits ≡ 33 → Agrees bits 0 (zeros 33)
unfolding bit_at
zeros-Agrees bits l = record {
  same_length = sym l;
  same_bits = λ k h. absurd (omega arith);
  unset = λ k h.
      ap (λ (t : ℕ). t / 2 ^ (7 - k % 8) % 2) (get_or-zeros 33 (k / 8)) ∙ zero_bits (7 - k % 8);
  are_bytes = zeros-IsByte 33;
}
  where
    zero_bits : (m : ℕ) → 0 / 2 ^ m % 2 ≡ 0
    zero_bits m = ap (λ (t : ℕ). t % 2) (zero-div (2 ^ m))
