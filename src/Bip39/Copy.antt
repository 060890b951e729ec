-- ===== src/Bip39/Copy.antt =====
-- How the bits that src/bip39.c reads from one buffer come to stand in another.
use encedo_hem_c_api.Prelude.{
  ℕ, zero, suc, ◌+◌, ◌-◌, ◌*◌, ◌/◌, ◌%◌, ◌^◌, ◌≤◌, ◌<◌, bit_or, Bool, true, false, [], ◌∷◌, Bytes,
  length, get_or, All, ◌==◌, if◌then◌else◌, ◌≡◌, refl, ap, sym, ◌∙◌, arith, ◌⊎◌, inl, inr,
}
use encedo_hem_c_api.Prelude.Bits.{bit_or_above}
use encedo_hem_c_api.Base64.Sextets.{IsByte}
use encedo_hem_c_api.Bip39.{bit_at, read_bits, set_bit, write_bits}
use native.Mathlib.Nat.{pow-suc, mul-add-div_right, div-eq_of_lt}
use encedo_hem_c_api.Bip39.Bits.{
  bit_of, bit_at-set_bit, bit_at-set_other, set_bit-length, set_bit-IsByte,
}

-- Behind the first `m` bits: they agree, and the others are not set.
pub record Agrees (orig : Bytes) (m : ℕ) (cur : Bytes) : Type 0 where
  pub same_length : length cur ≡ length orig
  pub same_bits : (k : ℕ) → k < m → bit_at cur k ≡ bit_at orig k
  pub unset : (k : ℕ) → m ≤ k → bit_at cur k ≡ 0
  pub are_bytes : All IsByte cur

clear_bit : (bits : Bytes) (m : ℕ) → (bit_at bits m == 1) ≡ false → bit_at bits m ≡ 0
unfolding bit_at
clear_bit bits m h = ground arith

Agrees-step :
    (orig cur : Bytes) (m : ℕ)
    → m < 8 * length orig
    → Agrees orig m cur
    → Agrees orig (m + 1) (if bit_at orig m == 1 then set_bit cur m else cur)
Agrees-step orig cur m h a = by_bit (bit_at orig m == 1) refl
  where
    old_or_new : (k : ℕ) → k < m + 1 → (k < m) ⊎ (k ≡ m)
    old_or_new k l = omega arith

    by_bit :
        (b : Bool)
        → (bit_at orig m == 1) ≡ b
        → Agrees orig (m + 1) (if b then set_bit cur m else cur)
    by_bit true e = record {
      same_length = set_bit-length cur m ∙ a.same_length;
      same_bits = λ k l. elim (old_or_new k l) [
        | inl old ↦
            bit_at-set_other cur m k (omega (arith, a.same_length)) (omega arith)
            ∙ a.same_bits k old
        | inr new ↦ rw new (bit_at-set_bit cur m (omega (arith, a.same_length)) ∙ ground arith)
      ];
      unset = λ k l.
          bit_at-set_other cur m k (omega (arith, a.same_length)) (omega arith)
          ∙ a.unset k (omega arith);
      are_bytes = set_bit-IsByte cur m a.are_bytes;
    }
    by_bit false e = record {
      same_length = a.same_length;
      same_bits = λ k l. elim (old_or_new k l) [
        | inl old ↦ a.same_bits k old
        | inr new ↦ rw new (a.unset m (omega arith) ∙ sym (clear_bit orig m e))
      ];
      unset = λ k l. a.unset k (omega arith);
      are_bytes = a.are_bytes;
    }

bit_at-lt : (bits : Bytes) (m : ℕ) → bit_at bits m < 2
unfolding bit_at
bit_at-lt bits m = omega arith

below_double : (b p r : ℕ) → b < 2 → r < p → b * p + r < p * 2
below_double zero p r h l = omega arith
below_double (suc zero) p r h l = omega arith
below_double (suc (suc b)) p r h l = absurd (omega arith)

-- What is read is what was there, and the bits behind it.
read_bits-value :
    (n : ℕ) (orig : Bytes) (bit acc : ℕ)
    → (r : ℕ) × (r < 2 ^ n) × (read_bits n orig bit acc ≡ acc * 2 ^ n + r)
unfolding read_bits
read_bits-value zero orig bit acc = (0, omega arith, omega arith)
read_bits-value (suc n) orig bit acc =
    let b = bit_at orig bit in
    let (r, l, e) = read_bits-value n orig (bit + 1) (bit_or (acc * 2) b) in
    let joined : bit_or (acc * 2) b ≡ acc * 2 + b = bit_or_above 1 acc b (bit_at-lt orig bit) in
    (
      b * 2 ^ n + r,
      omega (arith, below_double b (2 ^ n) r (bit_at-lt orig bit) l, pow-suc 2 n),
      e
          ∙ ap (λ (t : ℕ). t * 2 ^ n + r) joined
          ∙ omega (arith, pow-suc 2 n, ap (λ (t : ℕ). acc * t) (pow-suc 2 n)),
    )

top_bit :
    (n : ℕ) (orig : Bytes) (bit acc : ℕ)
    → bit_of (read_bits (suc n) orig bit acc) n ≡ bit_at orig bit
unfolding read_bits
top_bit n orig bit acc =
    let b = bit_at orig bit in
    let (r, l, e) = read_bits-value n orig (bit + 1) (bit_or (acc * 2) b) in
    let joined : bit_or (acc * 2) b ≡ acc * 2 + b = bit_or_above 1 acc b (bit_at-lt orig bit) in
    let quotient : (bit_or (acc * 2) b * 2 ^ n + r) / 2 ^ n ≡ bit_or (acc * 2) b + r / 2 ^ n =
      mul-add-div_right (omega arith) (bit_or (acc * 2) b) r in
    ap (λ (t : ℕ). bit_of t n) e
    ∙ omega (arith, quotient, div-eq_of_lt l, joined, bit_at-lt orig bit)

pub write_bits-Agrees :
    (n : ℕ) (orig cur : Bytes) (bit acc : ℕ)
    → bit + n ≤ 8 * length orig
    → Agrees orig bit cur
    → Agrees orig (bit + n) (write_bits n (read_bits n orig bit acc) bit cur)
unfolding read_bits write_bits
write_bits-Agrees zero orig cur bit acc h a = let same : bit + 0 ≡ bit = omega arith in rw same a
write_bits-Agrees (suc n) orig cur bit acc h a =
    let same : bit + suc n ≡ bit + 1 + n = omega arith in
    rw (same, top_bit n orig bit acc)
      (write_bits-Agrees n orig (if bit_at orig bit == 1 then set_bit cur bit else cur) (bit + 1)
        (bit_or (acc * 2) (bit_at orig bit)) (omega arith)
        (Agrees-step orig cur bit (omega arith) a))

byte_of_bits : (x y : ℕ) → x < 256 → y < 256 → ((k : ℕ) → k < 8 → bit_of x k ≡ bit_of y k) → x ≡ y
byte_of_bits x y a b h = omega (
  arith,
  h 0 (omega arith),
  h 1 (omega arith),
  h 2 (omega arith),
  h 3 (omega arith),
  h 4 (omega arith),
  h 5 (omega arith),
  h 6 (omega arith),
  h 7 (omega arith),
)

first_bits : (x : ℕ) (xs : Bytes) (k : ℕ) → k < 8 → bit_at (x ∷ xs) (7 - k) ≡ bit_of x k
unfolding bit_at
first_bits x xs k h =
    let none_before : (7 - k) / 8 ≡ 0 = omega arith in
    let place : 7 - (7 - k) % 8 ≡ k = omega arith in
    ap (λ (t : ℕ). bit_of (get_or (x ∷ xs) t 0) (7 - (7 - k) % 8)) none_before
    ∙ ap (λ (t : ℕ). bit_of x t) place

later_bits : (x : ℕ) (xs : Bytes) (k : ℕ) → bit_at (x ∷ xs) (k + 8) ≡ bit_at xs k
unfolding bit_at
later_bits x xs k =
    let one_more : (k + 8) / 8 ≡ suc (k / 8) = omega arith in
    let place : (k + 8) % 8 ≡ k % 8 = omega arith in
    ap (λ (t : ℕ). bit_of (get_or (x ∷ xs) t 0) (7 - (k + 8) % 8)) one_more
    ∙ ap (λ (t : ℕ). bit_of (get_or xs (k / 8) 0) (7 - t)) place

bytes_of_bits :
    (xs ys : Bytes)
    → length xs ≡ length ys
    → All IsByte xs
    → All IsByte ys
    → ((k : ℕ) → k < 8 * length ys → bit_at xs k ≡ bit_at ys k)
    → xs ≡ ys
bytes_of_bits [] [] e p q h = refl
bytes_of_bits [] (y ∷ ys) e p q h = absurd (omega arith)
bytes_of_bits (x ∷ xs) [] e p q h = absurd (omega arith)
bytes_of_bits (x ∷ xs) (y ∷ ys) e (b, p) (c, q) h =
    let same : x ≡ y =
      byte_of_bits x y b c
        (λ k l. sym (first_bits x xs k l) ∙ h (7 - k) (omega arith) ∙ first_bits y ys k l) in
    let rest : xs ≡ ys =
      bytes_of_bits xs ys (omega arith) p q
        (λ k l. sym (later_bits x xs k) ∙ h (k + 8) (omega arith) ∙ later_bits y ys k) in
    rw (same, rest)

-- Once all bits have been taken over, so have the bytes.
pub bits_copied :
    (orig cur : Bytes) → All IsByte orig → Agrees orig (8 * length orig) cur → cur ≡ orig
bits_copied orig cur all a = bytes_of_bits cur orig a.same_length a.are_bytes all a.same_bits

-- An index of 11 bits.
pub read_bits-lt : (orig : Bytes) (bit : ℕ) → read_bits 11 orig bit 0 < 2048
read_bits-lt orig bit = let (r, l, e) = read_bits-value 11 orig bit 0 in omega arith
