-- ===== src/Bip39/Tests.antt =====
-- A mnemonic over a list of words that are made up.
use encedo_hem_c_api.Prelude.{
  ℕ, ◌+◌, ◌/◌, ◌%◌, ◌<◌, some, [], ◌∷◌, Bytes, codes, length, All, ◌≡◌, ◌↔◌, refl, arith,
}
use encedo_hem_c_api.Env.{Env, ok}
use encedo_hem_c_api.Base64.Sextets.{IsByte}
use encedo_hem_c_api.Bip39.{
  mnemonic_cap, is_space, zeros, word_index, from_entropy, to_master_secret, derive_secret,
}
use encedo_hem_c_api.Bip39.Search.{IsSorted, word_index-exact}
use encedo_hem_c_api.Bip39.Words.{IsWordList}
use encedo_hem_c_api.Bip39.RoundTrip.{IsHash, to_master_secret-from_entropy}
use encedo_hem_c_api.Fixture.{test_env, start}

-- Three letters that spell the index.
abbrev word : ℕ → Bytes
word i = (97 + i / 256) ∷ (97 + i / 16 % 16) ∷ (97 + i % 16) ∷ []

words-IsSorted : IsSorted word 2048
words-IsSorted i j h k = ground arith

word_index-exact_example : (word_index word (codes "czz") ≡ some 700) ↔ (word 700 ≡ codes "czz")
word_index-exact_example = word_index-exact word (codes "czz") 700 words-IsSorted (omega arith)

found : word_index word (word 700) ≡ some 700
found = (word_index-exact word (word 700) 700 words-IsSorted (omega arith)).1 refl

words-IsWordList : IsWordList word
unfolding is_space
words-IsWordList = record {
  sorted = words-IsSorted;
  sized = λ i h. (omega arith, omega arith);
  spelt = λ i h. (ground arith, (ground arith, (ground arith, tt)));
}

-- A hash of one byte.
abbrev digest : Bytes → Bytes
digest input = length input % 256 ∷ []

abbrev hash_env : Env
hash_env = record test_env { sha256 = λ input w. (ok (digest input), w) }

digest-IsHash : IsHash ⦃E = hash_env⦄ digest
digest-IsHash = record { hashes = λ input w. refl; are_bytes = λ input. (omega arith, tt) }

abbrev entropy : Bytes
entropy = 255 ∷ 1 ∷ zeros 30

entropy-IsByte : All IsByte entropy
entropy-IsByte = omega arith

to_master_secret-from_entropy_example :
    (text : Bytes) × (from_entropy ⦃E = hash_env⦄ word entropy 216 start ≡ (ok text, start))
    × (length text < mnemonic_cap)
    × (to_master_secret ⦃E = hash_env⦄ word text 128 start
        ≡ derive_secret ⦃E = hash_env⦄ text start)
to_master_secret-from_entropy_example =
    to_master_secret-from_entropy ⦃E = hash_env⦄ word digest entropy 216 128 start words-IsWordList
      digest-IsHash refl entropy-IsByte (omega arith)
