-- ===== src/Bip39/Search.antt =====
-- The binary search of src/bip39.c.
use encedo_hem_c_api.Prelude.{
  ℕ, zero, suc, ◌+◌, ◌-◌, ◌/◌, ◌≤◌, ◌<◌, Option, none, some, [], ◌∷◌, Bytes, ltb, ◌≡◌, refl, ap,
  sym, ◌∙◌, arith, Bool, true, false, ltb→lt, ◌⊎◌, ◌↔◌, inl, inr,
}
use encedo_hem_c_api.Bip39.{strncmp, compare_word, word_search, word_index}
use Prim.Native.Nat.{compare, Ordering}

-- `strcmp`: the order of the word list.
abbrev pub strcmp : Bytes → Bytes → Ordering
strcmp [] [] = Ordering.eq
strcmp [] (y ∷ ys) = Ordering.lt
strcmp (x ∷ xs) [] = Ordering.gt
strcmp (x ∷ xs) (y ∷ ys) = elim (compare x y) [
  | Ordering.lt ↦ Ordering.lt
  | Ordering.eq ↦ strcmp xs ys
  | Ordering.gt ↦ Ordering.gt
]

compare_word-strcmp : (w c : Bytes) → compare_word w c ≡ strcmp w c
unfolding compare_word strncmp
compare_word-strcmp [] [] = refl
compare_word-strcmp [] (y ∷ ys) = refl
compare_word-strcmp (x ∷ xs) [] = refl
compare_word-strcmp (x ∷ xs) (y ∷ ys) = ground (arith, compare_word-strcmp xs ys)

strcmp-eq : (w c : Bytes) → strcmp w c ≡ Ordering.eq → w ≡ c
strcmp-eq [] [] h = refl
strcmp-eq [] (y ∷ ys) h = cc
strcmp-eq (x ∷ xs) [] h = cc
strcmp-eq (x ∷ xs) (y ∷ ys) h = ground (arith, strcmp-eq xs ys)

strcmp_refl : (w : Bytes) → strcmp w w ≡ Ordering.eq
strcmp_refl [] = refl
strcmp_refl (x ∷ xs) = ground (arith, strcmp_refl xs)

strcmp_flip : (w c : Bytes) → strcmp w c ≡ Ordering.lt → strcmp c w ≡ Ordering.gt
strcmp_flip [] [] h = cc
strcmp_flip [] (y ∷ ys) h = refl
strcmp_flip (x ∷ xs) [] h = cc
strcmp_flip (x ∷ xs) (y ∷ ys) h = ground (arith, strcmp_flip xs ys)

trichotomy : (a b : ℕ) → (a < b) ⊎ ((a ≡ b) ⊎ (b < a))
trichotomy a b = ground arith

module _ (wordlist : ℕ → Bytes) where
  -- The first `n` words of the list, in ascending order.
  abbrev pub IsSorted : ℕ → Type 0
  IsSorted n = (i j : ℕ) → i < j → j < n → strcmp (wordlist i) (wordlist j) ≡ Ordering.lt

  abbrev middle : ℕ → ℕ → ℕ
  middle lo top = lo + (top - 1 - lo) / 2

  -- What a comparison with the word in the middle leaves to be searched.
  abbrev Left : Ordering → ℕ → Bytes → ℕ → ℕ → Option ℕ → Type 0
  Left Ordering.lt fuel w lo top r = word_search wordlist fuel w lo (middle lo top) ≡ r
  Left Ordering.eq fuel w lo top r = some (middle lo top) ≡ r
  Left Ordering.gt fuel w lo top r = word_search wordlist fuel w (middle lo top + 1) top ≡ r

  turn :
      (o : Ordering) (fuel : ℕ) (w : Bytes) (lo top : ℕ) (r : Option ℕ)
      → lo < top
      → strcmp w (wordlist (middle lo top)) ≡ o
      → Left o fuel w lo top r
      → word_search wordlist (suc fuel) w lo top ≡ r
  unfolding word_search
  turn Ordering.lt fuel w lo top r h e k =
      ground (arith, compare_word-strcmp w (wordlist (middle lo top)))
  turn Ordering.eq fuel w lo top r h e k =
      ground (arith, compare_word-strcmp w (wordlist (middle lo top)))
  turn Ordering.gt fuel w lo top r h e k =
      ground (arith, compare_word-strcmp w (wordlist (middle lo top)))

  search-found :
      (n fuel lo top i : ℕ)
      → IsSorted n
      → top ≤ n
      → lo ≤ i
      → i < top
      → top ≤ lo + fuel
      → word_search wordlist fuel (wordlist i) lo top ≡ some i
  search-found n zero lo top i sorted h p q f = absurd (omega arith)
  search-found n (suc fuel) lo top i sorted h p q f = elim (trichotomy i (middle lo top)) [
    | inl l ↦
        turn Ordering.lt fuel (wordlist i) lo top (some i) (omega arith)
          (sorted i (middle lo top) l (omega arith))
          (search-found n fuel lo (middle lo top) i sorted (omega arith) p l (omega arith))
    | inr (inl e) ↦
        turn Ordering.eq fuel (wordlist i) lo top (some i) (omega arith)
          (rw (← e) (strcmp_refl (wordlist i))) (ap some (sym e))
    | inr (inr g) ↦
        turn Ordering.gt fuel (wordlist i) lo top (some i) (omega arith)
          (strcmp_flip (wordlist (middle lo top)) (wordlist i)
            (sorted (middle lo top) i g (omega arith)))
          (search-found n fuel (middle lo top + 1) top i sorted h (omega arith) q (omega arith))
  ]

  -- An index that is found is below a bound, and that of the word.
  abbrev pub IsIndexOf : Bytes → ℕ → Option ℕ → Type 0
  IsIndexOf w n none = Unit {0}
  IsIndexOf w n (some i) = (i < n) × (wordlist i ≡ w)

  chosen :
      (b : Bool) (o : Ordering) (w : Bytes) (n mid : ℕ) (below above : Option ℕ)
      → (b ≡ true → mid < n)
      → compare_word w (wordlist mid) ≡ o
      → (b ≡ true → IsIndexOf w n below)
      → IsIndexOf w n above
      → IsIndexOf w n (elim b [
        | false ↦ none
        | true ↦ elim o [ Ordering.lt ↦ below | Ordering.eq ↦ some mid | Ordering.gt ↦ above ]
      ])
  chosen false o w n mid below above h e p q = tt
  chosen true Ordering.lt w n mid below above h e p q = p refl
  chosen true Ordering.eq w n mid below above h e p q =
      (h refl, sym (strcmp-eq w (wordlist mid) (sym (compare_word-strcmp w (wordlist mid)) ∙ e)))
  chosen true Ordering.gt w n mid below above h e p q = q

  search-IsIndexOf :
      (n fuel : ℕ) (w : Bytes) (lo top : ℕ)
      → top ≤ n
      → IsIndexOf w n (word_search wordlist fuel w lo top)
  unfolding word_search
  search-IsIndexOf n zero w lo top h = tt
  search-IsIndexOf n (suc fuel) w lo top h =
      chosen (ltb lo top) (compare_word w (wordlist (middle lo top))) w n (middle lo top)
        (word_search wordlist fuel w lo (middle lo top))
        (word_search wordlist fuel w (middle lo top + 1) top) (λ l. omega (arith, ltb→lt lo top l))
        refl (λ l. search-IsIndexOf n fuel w lo (middle lo top) (omega (arith, ltb→lt lo top l)))
        (search-IsIndexOf n fuel w (middle lo top + 1) top h)

  index-IsIndexOf : (w : Bytes) → IsIndexOf w 2048 (word_index wordlist w)
  unfolding word_index
  index-IsIndexOf w = search-IsIndexOf 2048 2048 w 0 2048 (omega arith)

  pub word_index-found :
      (i : ℕ) → IsSorted 2048 → i < 2048 → word_index wordlist (wordlist i) ≡ some i
  unfolding word_index
  word_index-found i sorted h =
      search-found 2048 2048 0 2048 i sorted (omega arith) (omega arith) h (omega arith)

  -- In a sorted list of 2048 words, the binary search gives an index of the list for a text exactly
  -- when the text is the word at that index.
  pub word_index-exact :
      (w : Bytes) (i : ℕ)
      → IsSorted 2048
      → i < 2048
      → (word_index wordlist w ≡ some i) ↔ (wordlist i ≡ w)
  word_index-exact w i sorted h =
      (λ e. (rw e at (index-IsIndexOf w)).1, λ e. rw (← e) (word_index-found i sorted h))
