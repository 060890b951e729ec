-- ===== src/Bip39/Bits.antt =====
-- The bits that src/bip39.c reads and writes.
use encedo_hem_c_api.Prelude.{
  ℕ, zero, suc, ◌-◌, ◌*◌, ◌/◌, ◌%◌, ◌^◌, ◌<◌, bit_or, [], ◌∷◌, Bytes, length, get_or, All, ◌≡◌, ◌≢◌,
  refl, ap, sym, ◌∙◌, arith, ◌⊎◌, inl, inr,
}
use encedo_hem_c_api.Prelude.Bits.{bit_or_step}
use encedo_hem_c_api.Base64.Sextets.{IsByte}
use encedo_hem_c_api.Bip39.{bit_at, update, set_bit}
use Prim.Native.Nat.{max}
use native.Mathlib.Nat.{pow-suc, div-div-eq-div-mul, div-le_self}

abbrev pub bit_of : ℕ → ℕ → ℕ
bit_of a k = a / 2 ^ k % 2

halve : (a k : ℕ) → bit_of a (suc k) ≡ bit_of (a / 2) k
halve a k =
    ap (λ (t : ℕ). t % 2)
      (ap (λ (t : ℕ). a / t) (omega (arith, pow-suc 2 k)) ∙ sym (div-div-eq-div-mul a 2 (2 ^ k)))

bit_of-bit_or : (k a b : ℕ) → bit_of (bit_or a b) k ≡ max (bit_of a k) (bit_of b k)
bit_of-bit_or zero a b = omega (arith, bit_or_step a b)
bit_of-bit_or (suc k) a b =
    let half : bit_or a b / 2 ≡ bit_or (a / 2) (b / 2) = omega (arith, bit_or_step a b) in
    omega (
      arith,
      halve (bit_or a b) k,
      ap (λ (t : ℕ). bit_of t k) half,
      bit_of-bit_or k (a / 2) (b / 2),
      halve a k,
      halve b k,
    )

bit_or-lt : (k a b : ℕ) → a < 2 ^ k → b < 2 ^ k → bit_or a b < 2 ^ k
bit_or-lt zero zero b h l = ground arith
bit_or-lt zero (suc a) b h l = absurd (omega arith)
bit_or-lt (suc k) a b h l = omega (
  arith,
  bit_or_step a b,
  pow-suc 2 k,
  bit_or-lt k (a / 2) (b / 2) (omega (arith, pow-suc 2 k)) (omega (arith, pow-suc 2 k)),
)

bit_none : (k : ℕ) → bit_of 0 k ≡ 0
bit_none zero = refl
bit_none (suc k) = halve 0 k ∙ bit_none k

-- A power of two has the one bit.
power_same : (m : ℕ) → bit_of (2 ^ m) m ≡ 1
power_same zero = refl
power_same (suc m) =
    let half : 2 ^ suc m / 2 ≡ 2 ^ m = omega (arith, pow-suc 2 m) in
    halve (2 ^ suc m) m ∙ ap (λ (t : ℕ). bit_of t m) half ∙ power_same m

power_other : (m k : ℕ) → m ≢ k → bit_of (2 ^ m) k ≡ 0
power_other zero zero h = absurd (h refl)
power_other zero (suc k) h = halve 1 k ∙ bit_none k
power_other (suc m) zero h = omega (arith, pow-suc 2 m)
power_other (suc m) (suc k) h =
    let half : 2 ^ suc m / 2 ≡ 2 ^ m = omega (arith, pow-suc 2 m) in
    halve (2 ^ suc m) k ∙ ap (λ (t : ℕ). bit_of t k) half ∙ power_other m k (λ e. h (ap suc e))

shifted_mask : (r : ℕ) → r < 8 → 128 / 2 ^ r ≡ 2 ^ (7 - r)
shifted_mask zero h = refl
shifted_mask (suc zero) h = refl
shifted_mask (suc (suc zero)) h = refl
shifted_mask (suc (suc (suc zero))) h = refl
shifted_mask (suc (suc (suc (suc zero)))) h = refl
shifted_mask (suc (suc (suc (suc (suc zero))))) h = refl
shifted_mask (suc (suc (suc (suc (suc (suc zero)))))) h = refl
shifted_mask (suc (suc (suc (suc (suc (suc (suc zero))))))) h = refl
shifted_mask (suc (suc (suc (suc (suc (suc (suc (suc r)))))))) h = absurd (omega arith)

update-length : (i : ℕ) (f : ℕ → ℕ) (xs : Bytes) → length (update i f xs) ≡ length xs
update-length i f [] = refl
update-length zero f (x ∷ xs) = refl
update-length (suc i) f (x ∷ xs) = ap suc (update-length i f xs)

update-same :
    (i : ℕ) (f : ℕ → ℕ) (xs : Bytes)
    → i < length xs
    → get_or (update i f xs) i 0 ≡ f (get_or xs i 0)
update-same i f [] h = absurd (omega arith)
update-same zero f (x ∷ xs) h = refl
update-same (suc i) f (x ∷ xs) h = update-same i f xs (omega arith)

update-other :
    (i j : ℕ) (f : ℕ → ℕ) (xs : Bytes) → i ≢ j → get_or (update i f xs) j 0 ≡ get_or xs j 0
update-other i j f [] h = refl
update-other zero zero f (x ∷ xs) h = absurd (h refl)
update-other zero (suc j) f (x ∷ xs) h = refl
update-other (suc i) zero f (x ∷ xs) h = refl
update-other (suc i) (suc j) f (x ∷ xs) h = update-other i j f xs (λ e. h (ap suc e))

update-IsByte :
    (i p : ℕ) (xs : Bytes) → p < 256 → All IsByte xs → All IsByte (update i (λ x. bit_or x p) xs)
update-IsByte i p [] h all = tt
update-IsByte zero p (x ∷ xs) h (b, all) = (bit_or-lt 8 x p b h, all)
update-IsByte (suc i) p (x ∷ xs) h (b, all) = (b, update-IsByte i p xs h all)

equal_or_not : (a b : ℕ) → (a ≡ b) ⊎ (a ≢ b)
equal_or_not a b = ground arith

-- Setting a bit sets that one.
pub bit_at-set_bit : (bits : Bytes) (m : ℕ) → m < 8 * length bits → bit_at (set_bit bits m) m ≡ 1
unfolding bit_at set_bit
bit_at-set_bit bits m h =
    let x = get_or bits (m / 8) 0 in
    let hit : get_or (update (m / 8) (λ x. bit_or x (128 / 2 ^ (m % 8))) bits) (m / 8) 0
        ≡ bit_or x (2 ^ (7 - m % 8)) =
      update-same (m / 8) (λ x. bit_or x (128 / 2 ^ (m % 8))) bits (omega arith)
      ∙ ap (λ (t : ℕ). bit_or x t) (shifted_mask (m % 8) (omega arith)) in
    ap (λ (t : ℕ). bit_of t (7 - m % 8)) hit
    ∙ omega (arith, bit_of-bit_or (7 - m % 8) x (2 ^ (7 - m % 8)), power_same (7 - m % 8))

pub bit_at-set_other :
    (bits : Bytes) (m k : ℕ)
    → m < 8 * length bits
    → m ≢ k
    → bit_at (set_bit bits m) k ≡ bit_at bits k
unfolding bit_at set_bit
bit_at-set_other bits m k h d = elim (equal_or_not (m / 8) (k / 8)) [
  | inl e ↦
      let f : ℕ → ℕ = λ x. bit_or x (128 / 2 ^ (m % 8)) in
      let x = get_or bits (k / 8) 0 in
      let hit : get_or (update (m / 8) f bits) (k / 8) 0 ≡ bit_or x (2 ^ (7 - m % 8)) =
        ap (λ (t : ℕ). get_or (update t f bits) (k / 8) 0) e
        ∙ update-same (k / 8) f bits (omega arith)
        ∙ ap (λ (t : ℕ). bit_or x t) (shifted_mask (m % 8) (omega arith)) in
      ap (λ (t : ℕ). bit_of t (7 - k % 8)) hit
      ∙ omega (
        arith,
        bit_of-bit_or (7 - k % 8) x (2 ^ (7 - m % 8)),
        power_other (7 - m % 8) (7 - k % 8) (omega arith),
      )
  | inr n ↦
      ap (λ (t : ℕ). bit_of t (7 - k % 8))
        (update-other (m / 8) (k / 8) (λ x. bit_or x (128 / 2 ^ (m % 8))) bits n)
]

pub set_bit-length : (bits : Bytes) (m : ℕ) → length (set_bit bits m) ≡ length bits
unfolding set_bit
set_bit-length bits m = update-length (m / 8) (λ x. bit_or x (128 / 2 ^ (m % 8))) bits

pub set_bit-IsByte : (bits : Bytes) (m : ℕ) → All IsByte bits → All IsByte (set_bit bits m)
unfolding set_bit
set_bit-IsByte bits m all =
    update-IsByte (m / 8) (128 / 2 ^ (m % 8)) bits (omega (arith, div-le_self 128 (2 ^ (m % 8))))
      all
