-- ===== src/Base64/Alphabet.antt =====
-- The two alphabets of src/ejwt.c: `rev` inverts each, and neither holds the padding character.
use encedo_hem_c_api.Prelude.{
  ℕ, zero, suc, ◌<◌, ◌≡◌, refl, ◌≢◌, Bool, true, false, ◌&&◌, not, Option, none, some, Bytes,
  get_or, ◌==◌, arith, length,
}
use encedo_hem_c_api.Base64.{rev, b64_std_alpha, b64_url_alpha}

pub record IsAlphabet (alpha : Bytes) : Type 0 where
  pub letters : length alpha ≡ 64
  pub rev_letter : (i : ℕ) → i < 64 → rev alpha (get_or alpha i 0) ≡ some i
  pub ne_padding : (i : ℕ) → i < 64 → get_or alpha i 0 ≢ b'='

abbrev is_value : Option ℕ → ℕ → Bool
is_value none i = false
is_value (some v) i = v == i

is_value→eq : (o : Option ℕ) (i : ℕ) → is_value o i ≡ true → o ≡ some i
is_value→eq none i h = cc
is_value→eq (some v) i h = ground arith

module _ (alpha : Bytes) where
  letters_ok : ℕ → Bool
  letters_ok zero = true
  letters_ok (suc n) =
      (is_value (rev alpha (get_or alpha n 0)) n && not (get_or alpha n 0 == b'=')) && letters_ok n

  letters_ok_sound :
      (n : ℕ)
      → letters_ok n ≡ true
      → (i : ℕ) → i < n
      → (rev alpha (get_or alpha i 0) ≡ some i) × (get_or alpha i 0 ≢ b'=')
  unfolding letters_ok
  letters_ok_sound zero h i lt = absurd (omega arith)
  letters_ok_sound (suc n) h i lt = ground (
    arith,
    letters_ok_sound n (ground arith) i,
    is_value→eq (rev alpha (get_or alpha n 0)) n (ground arith),
  )

std_letters : letters_ok b64_std_alpha 64 ≡ true
unfolding letters_ok rev
std_letters = refl

url_letters : letters_ok b64_url_alpha 64 ≡ true
unfolding letters_ok rev
url_letters = refl

pub b64_std_alpha-IsAlphabet : IsAlphabet b64_std_alpha
b64_std_alpha-IsAlphabet = record {
  letters = refl;
  rev_letter = λ i h. (letters_ok_sound b64_std_alpha 64 std_letters i h).0;
  ne_padding = λ i h. (letters_ok_sound b64_std_alpha 64 std_letters i h).1;
}

pub b64_url_alpha-IsAlphabet : IsAlphabet b64_url_alpha
b64_url_alpha-IsAlphabet = record {
  letters = refl;
  rev_letter = λ i h. (letters_ok_sound b64_url_alpha 64 url_letters i h).0;
  ne_padding = λ i h. (letters_ok_sound b64_url_alpha 64 url_letters i h).1;
}
