-- ===== src/Crypto/Random.antt =====
-- `ehem_random` of src/proto_crypto.c: random bytes from the initial values that the device draws. A
-- step takes at least one byte, so that the number of bytes wanted is fuel enough for the loop.
use encedo_hem_c_api.Prelude.{
  ℕ, zero, suc, Bool, true, false, Option, none, some, [], ◌∷◌, ◌++◌, ◌-◌, ◌≤◌, Bytes, codes,
  length, take, leb, ◌≡◌, refl, arith, ap, length-append, length-take, ◌+◌, ◌==◌, if◌then◌else◌,
}
use encedo_hem_c_api.Rc.{protocol}
use encedo_hem_c_api.Env.{Env, post}
use encedo_hem_c_api.Json.{json_get_string}
use encedo_hem_c_api.Device.{device_json}
use encedo_hem_c_api.Crypto.{blob_of, use_scope}
use encedo_hem_c_api.Base64.{Slice, null, bytes, b64_std_decode}
use encedo_hem_c_api.Context.Fail.{fail}
use encedo_hem_c_api.Send.{is_kid_hex}
use encedo_hem_c_api.Binding.{clear_last_error, require}
use encedo_hem_c_api.Monad.{Prog, State, return, ◌>>=◌, ◌>>◌}
use encedo_hem_c_api.Context.{Ctx}
use encedo_hem_c_api.Monad.Post.{Gives, Post, Gives-fail, Gives-bind, Gives-bind_with}
use encedo_hem_c_api.Crypto.Cipher.{
  Ciphertext, encrypt, cipher_iv_len, field_of, fixed_field, whole_ciphertext, decode_fixed_field,
  cipher_build, cipher_msg_max, cipher_tag_len,
}

abbrev pub chunk : ℕ → ℕ
chunk left = if leb (suc cipher_iv_len) left then cipher_iv_len else left

module _ ⦃E : Env⦄ where
  abbrev pub drawn : Option Bytes → Prog Bytes
  drawn none = fail protocol 200 none (codes "crypto/random: encrypt response carried no iv")
  drawn (some iv) = return iv

  abbrev pub draw : Bytes → Prog Bytes
  draw kid = do
    ct ← encrypt kid (codes "AES128-CBC") (0 ∷ []) (null 0) none (null 0) (null 0)
    drawn ct.iv

  -- `left` bytes are still wanted behind those in `filled`.
  unfoldable pub fill : ℕ → Bytes → ℕ → Bytes → Prog Bytes
  fill fuel kid zero filled = return filled
  fill zero kid (suc n) filled = return filled
  fill (suc fuel) kid (suc n) filled = do
    iv ← draw kid
    fill fuel kid (suc n - chunk (suc n)) (filled ++ take (chunk (suc n)) iv)

  -- `ehem_random`
  unfoldable pub random : Bytes → ℕ → Prog Bytes
  random kid len = do
    clear_last_error
    require (is_kid_hex kid) (codes "crypto/random: kid must be exactly 32 hex chars")
    require (leb 1 len) (codes "crypto/random: len must be at least 1")
    fill len kid len []

  abbrev pub HasLength : ℕ → Bytes → Ctx → Type 0
  HasLength n bs c = length bs ≡ n

  abbrev HasIv : Ciphertext → Ctx → Type 0
  HasIv ct c = (iv : Bytes) → ct.iv ≡ some iv → length iv ≡ cipher_iv_len

  eq_of : (n : ℕ) (xs : Bytes) → (length xs == n) ≡ true → length xs ≡ n
  eq_of n xs e = ground (arith, e)

  field_of-length :
      (want : ℕ) (o : Option Bytes) (iv : Bytes)
      → field_of want o ≡ some (some iv)
      → length iv ≡ want
  field_of-length want none iv h = cc
  field_of-length want (some raw) iv h = by_size (length raw == want) refl h
    where
      by_size :
          (b : Bool)
          → (length raw == want) ≡ b
          → (if b then some (some raw) else none) ≡ some (some iv)
          → length iv ≡ want
      by_size true e k = let sized : length raw ≡ want = eq_of want raw e in cc
      by_size false e k = cc

  fixed_field-length :
      (want : ℕ) (o : Option Bytes) (iv : Bytes)
      → fixed_field want o ≡ some (some iv)
      → length iv ≡ want
  fixed_field-length want none iv h = cc
  fixed_field-length want (some []) iv h = cc
  fixed_field-length want (some (c ∷ cs)) iv h =
      field_of-length want (b64_std_decode (bytes (c ∷ cs)) (some 32)) iv h

  Gives-whole :
      (ct : Bytes) (i t : Option (Option Bytes))
      → ((iv : Bytes) → i ≡ some (some iv) → length iv ≡ cipher_iv_len)
      → Gives HasIv (whole_ciphertext ct i t)
  Gives-whole ct (some i) (some t) f = record { holds = λ s iv e. f iv (ap some e) }
  Gives-whole ct (some i) none f = Gives-fail HasIv protocol 200 none _
  Gives-whole ct none t f = Gives-fail HasIv protocol 200 none _

  Gives-encrypt :
      (kid alg msg : Bytes) (aad pubkey hkdf_ctx : Slice) (ext_kid : Option Bytes)
      → Gives HasIv (encrypt kid alg msg aad ext_kid pubkey hkdf_ctx)
  unfolding encrypt
  Gives-encrypt kid alg msg aad pubkey hkdf_ctx ext_kid = Gives-bind HasIv clear_last_error _ (λ u.
      Gives-bind HasIv
        (cipher_build (codes "crypto/cipher/encrypt") kid alg msg cipher_msg_max (null 0) (null 0)
          aad ext_kid pubkey hkdf_ctx)
        _
        (λ body.
          Gives-bind HasIv
            (device_json post (codes "/api/crypto/cipher/encrypt") (some body)
              (some (use_scope kid)))
            _
            (λ root.
              Gives-bind HasIv
                (blob_of (codes "crypto/cipher/encrypt: response missing 'ciphertext'")
                  (codes "crypto/cipher/encrypt: malformed response field")
                  (json_get_string (some root) (some (codes "ciphertext"))))
                _
                (λ ciphertext.
                  Gives-whole ciphertext (decode_fixed_field root (codes "iv") cipher_iv_len)
                    (decode_fixed_field root (codes "tag") cipher_tag_len)
                    (fixed_field-length cipher_iv_len
                      (json_get_string (some root) (some (codes "iv"))))))))

  Gives-drawn :
      (o : Option Bytes)
      → ((iv : Bytes) → o ≡ some iv → length iv ≡ cipher_iv_len)
      → Gives (HasLength cipher_iv_len) (drawn o)
  Gives-drawn none f = Gives-fail (HasLength cipher_iv_len) protocol 200 none _
  Gives-drawn (some iv) f = record { holds = λ s. f iv refl }

  Gives-draw : (kid : Bytes) → Gives (HasLength cipher_iv_len) (draw kid)
  Gives-draw kid =
      Gives-bind_with (HasLength cipher_iv_len) _
        (Gives-encrypt kid (codes "AES128-CBC") (0 ∷ []) (null 0) (null 0) (null 0) none)
        (λ ct s f. (Gives-drawn ct.iv f).holds s)

  chunk_small :
      (n : ℕ) → (chunk (suc n) ≤ cipher_iv_len) × (chunk (suc n) ≤ suc n) × (1 ≤ chunk (suc n))
  chunk_small n = ground arith

  -- With as much fuel as bytes are wanted, all of them are drawn.
  Gives-fill :
      (fuel : ℕ) (kid : Bytes) (left : ℕ) (filled : Bytes)
      → left ≤ fuel
      → Gives (HasLength (length filled + left)) (fill fuel kid left filled)
  unfolding fill
  Gives-fill fuel kid zero filled h = record { holds = λ s. omega arith }
  Gives-fill zero kid (suc n) filled h = omega (arith, h)
  Gives-fill (suc fuel) kid (suc n) filled h =
      Gives-bind_with (HasLength (length filled + suc n)) _ (Gives-draw kid) λ iv s f.
        let (small, part, some_) = chunk_small n in
        let c = chunk (suc n) in
        let whole : length (filled ++ take c iv) + (suc n - c) ≡ length filled + suc n =
          omega (arith, length-append filled (take c iv), length-take c iv, f, small, part) in
        let rest =
          (Gives-fill fuel kid (suc n - c) (filled ++ take c iv)
              (omega (arith, h, part, some_))).holds
            s in
        rw whole at rest

  Gives-all : (kid : Bytes) (len : ℕ) → Gives (HasLength len) (fill len kid len [])
  Gives-all kid len =
      let none_before : 0 + len ≡ len = omega arith in
      let all = Gives-fill len kid len [] (omega arith) in rw none_before at all

  -- Random bytes, where they are given, are as many as were asked for, whatever the device replies:
  -- the loop over its initial values of 16 bytes neither stops early nor runs over.
  pub random-HasLength :
      (kid : Bytes) (len : ℕ) (s : State E.World) → Post (HasLength len) (random kid len s)
  unfolding random
  random-HasLength kid len s =
      (Gives-bind (HasLength len) clear_last_error _ (λ u.
          Gives-bind (HasLength len)
            (require (is_kid_hex kid) (codes "crypto/random: kid must be exactly 32 hex chars")) _
            (λ v.
              Gives-bind (HasLength len)
                (require (leb 1 len) (codes "crypto/random: len must be at least 1")) _
                (λ w. Gives-all kid len)))).holds
        s
