-- ===== src/Bip39/RoundTrip.antt =====
-- The mnemonic of an entropy, read back (src/bip39.c).
use encedo_hem_c_api.Prelude.{
  ℕ, ◌≤◌, ◌<◌, Bool, true, false, [], ◌∷◌, ◌++◌, Bytes, length, length-append, get_or, take,
  take-append, All, ltb, ◌==◌, if◌then◌else◌, ◌≡◌, refl, ap, sym, ◌∙◌, arith,
}
use encedo_hem_c_api.Rc.{arg}
use encedo_hem_c_api.Env.{Env, ok}
use encedo_hem_c_api.Monad.{State, Prog, throw}
use encedo_hem_c_api.Base64.Sextets.{IsByte}
use encedo_hem_c_api.Bip39.{
  split_words, spell_words, pack_words, packed, zeros, word_count, mnemonic_cap, from_entropy,
  to_master_secret, derive_secret, judge,
}
use encedo_hem_c_api.Bip39.Words.{
  IsWordList, spell_words-lt, pack_words-words_from, split-spell_words, zeros-Agrees,
}

append-IsByte : (xs : Bytes) (c : ℕ) → All IsByte xs → IsByte c → All IsByte (xs ++ c ∷ [])
append-IsByte [] c all b = (b, tt)
append-IsByte (x ∷ xs) c (a, all) b = (a, append-IsByte xs c all b)

first-IsByte : (xs : Bytes) → All IsByte xs → get_or xs 0 0 < 256
first-IsByte [] all = omega arith
first-IsByte (x ∷ xs) all = all.0

get_or-append : (xs : Bytes) (c : ℕ) → get_or (xs ++ c ∷ []) (length xs) 0 ≡ c
get_or-append [] c = refl
get_or-append (x ∷ xs) c = get_or-append xs c

module _ ⦃E : Env⦄ where
  -- A hash function gives the digest of its input, and does nothing else.
  pub record IsHash (digest : Bytes → Bytes) : Type 0 where
    pub hashes : (input : Bytes) (w : E.World) → E.sha256 input w ≡ (ok (digest input), w)
    pub are_bytes : (input : Bytes) → All IsByte (digest input)

module _ ⦃E : Env⦄ (wordlist : ℕ → Bytes) where
  unless :
      {A : Type 0} (b : Bool) (m : Prog A) (s : State E.World)
      → b ≡ false
      → (if b then throw arg else m) s ≡ m s
  unless true m s h = cc
  unless false m s h = refl

  from_entropy-made :
      (digest : Bytes → Bytes) (entropy : Bytes) (cap : ℕ) (s : State E.World)
      → IsHash digest
      → mnemonic_cap ≤ cap
      → from_entropy wordlist entropy cap s
        ≡ (ok (spell_words wordlist word_count 0 (entropy ++ get_or (digest entropy) 0 0 ∷ [])), s)
  unfolding from_entropy
  from_entropy-made digest entropy cap s hash h =
      unless (ltb cap mnemonic_cap) _ _ (ground arith) ∙ rw (hash.hashes entropy s.world) refl

  judge-packed :
      (digest : Bytes → Bytes) (entropy text : Bytes) (reason_cap : ℕ) (s : State E.World)
      → IsHash digest
      → length entropy ≡ 32
      → judge reason_cap (packed text (entropy ++ get_or (digest entropy) 0 0 ∷ [])) s
        ≡ derive_secret text s
  judge-packed digest entropy text reason_cap s hash l =
      let c = get_or (digest entropy) 0 0 in
      let front : take 32 (entropy ++ c ∷ []) ≡ entropy =
        ap (λ (n : ℕ). take n (entropy ++ c ∷ [])) (sym l) ∙ take-append entropy (c ∷ []) in
      let back : get_or (entropy ++ c ∷ []) 32 0 ≡ c =
        ap (λ (n : ℕ). get_or (entropy ++ c ∷ []) n 0) (sym l) ∙ get_or-append entropy c in
      rw (front, hash.hashes entropy s.world)
        (chosen (c == get_or (entropy ++ c ∷ []) 32 0) (derive_secret text) _ s
          (rw back (ground arith)))
    where
      chosen :
          {A : Type 0} (b : Bool) (m n : Prog A) (s : State E.World)
          → b ≡ true
          → (if b then m else n) s ≡ m s
      chosen true m n s h = refl
      chosen false m n s h = cc

  -- With a sorted list of 2048 words of 3 to 8 letters, and a hash function: a mnemonic is made of
  -- any 32 bytes, in a buffer of 24 * 9 bytes; with its NUL it fits there; and
  -- `ehem_bip39_to_master_secret` takes it back: it finds each word, the right number of them and
  -- the right checksum, and goes on to derive the secret from that very text.
  pub to_master_secret-from_entropy :
      (digest : Bytes → Bytes) (entropy : Bytes) (cap reason_cap : ℕ) (s : State E.World)
      → IsWordList wordlist
      → IsHash digest
      → length entropy ≡ 32
      → All IsByte entropy
      → mnemonic_cap ≤ cap
      → (text : Bytes) × (from_entropy wordlist entropy cap s ≡ (ok text, s))
        × (length text < mnemonic_cap)
        × (to_master_secret wordlist text reason_cap s ≡ derive_secret text s)
  unfolding to_master_secret
  to_master_secret-from_entropy digest entropy cap reason_cap s w hash l all h = (
    text,
    from_entropy-made digest entropy cap s hash h,
    spell_words-lt wordlist w bits,
    ap (λ p. judge reason_cap p s) unpacked ∙ judge-packed digest entropy text reason_cap s hash l,
  )
    where
      bits : Bytes
      bits = entropy ++ get_or (digest entropy) 0 0 ∷ []

      text : Bytes
      text = spell_words wordlist word_count 0 bits

      bits-IsByte : All IsByte bits
      bits-IsByte =
          append-IsByte entropy (get_or (digest entropy) 0 0) all
            (first-IsByte (digest entropy) (hash.are_bytes entropy))

      unpacked : pack_words wordlist (split_words text) 0 [] (zeros 33) ≡ packed text bits
      unpacked =
          ap (λ ws. pack_words wordlist ws 0 [] (zeros 33))
            (split-spell_words wordlist w bits word_count 0)
          ∙ pack_words-words_from wordlist w bits word_count 0 [] (zeros 33) refl
              (omega (arith, length-append entropy (get_or (digest entropy) 0 0 ∷ []))) bits-IsByte
              (zeros-Agrees bits
                (omega (arith, length-append entropy (get_or (digest entropy) 0 0 ∷ []))))
