-- ===== src/Token/Payload.antt =====
-- The tokens that src/ejwt.c writes, as `decode_bearer_exp` of src/proto_auth.c reads them.
use encedo_hem_c_api.Prelude.{
  ℕ, zero, suc, ◌+◌, ◌*◌, ◌/◌, ◌<◌, ◌≤◌, ◌^◌, ◌%◌, ◌||◌, Bool, true, false, not, ◌&&◌, Option, none,
  some, List, [], ◌∷◌, ◌++◌, append_assoc, Bytes, length, get_or, All, ltb, ◌==◌, ◌≡◌, refl, arith,
  if◌then◌else◌,
}
use encedo_hem_c_api.Rc.{nomem}
use encedo_hem_c_api.Env.{Env, ok}
use encedo_hem_c_api.Context.{Ctx}
use encedo_hem_c_api.Base64.{bytes, b64url_encode, b64url_encoded_len, b64_url_alpha, size_mod}
use encedo_hem_c_api.Base64.Sextets.{IsByte, IsSextet, sextets, sextets-IsSextet, spell}
use encedo_hem_c_api.Base64.RoundTrip.{
  b64url_encode-spell, b64url_decode-b64url_encode, length-b64url_encode,
}
use encedo_hem_c_api.Ejwt.{
  append_signature, append_mac, sign_input, segments, encode_segments, sign_compact,
}
use encedo_hem_c_api.Monad.{State, alloc, outside_result, throw}
use encedo_hem_c_api.Token.{split_dot, decoded_payload}
use encedo_hem_c_api.Monad.Post.{Gives, Gives-if, Gives-bind, post-ok}

module _ (alpha : Bytes) where
  dotless : ℕ → Bool
  dotless zero = true
  dotless (suc n) = not (get_or alpha n 0 == b'.') && dotless n

  dotless_sound : (n : ℕ) → dotless n ≡ true → (i : ℕ) → i < n → (get_or alpha i 0 == b'.') ≡ false
  unfolding dotless
  dotless_sound zero h i lt = absurd (omega arith)
  dotless_sound (suc n) h i lt = ground (arith, dotless_sound n (ground arith) i)

dotless_all : dotless b64_url_alpha 64 ≡ true
unfolding dotless
dotless_all = refl

-- The letters of a segment end at the first dot.
split_dot-spell :
    (vs : List ℕ) (rest : Bytes)
    → All IsSextet vs
    → split_dot (spell b64_url_alpha vs ++ b'.' ∷ rest) ≡ some (spell b64_url_alpha vs, rest)
unfolding split_dot
split_dot-spell [] rest h = refl
split_dot-spell (v ∷ vs) rest h =
    rw (split_dot-spell vs rest h.1, dotless_sound b64_url_alpha 64 dotless_all v h.0)

segment_fits : (n m : ℕ) → 0 < n → n ≤ 768 → m ≡ (n * 4 + 2) / 3 → (m == 0 || ltb 1024 m) ≡ false
segment_fits n m some_bytes few e = ground arith

module _ ⦃E : Env⦄ where
  -- A token is its segments, with a dot between them.
  abbrev IsCompact : Option Bytes → Option Bytes → Bytes → Ctx → Type 0
  IsCompact h p token c =
      (hs : Bytes) × (ps : Bytes) × (sig : Bytes) × (h ≡ some hs)
      × (p ≡ some ps)
      × (token ≡ hs ++ b'.' ∷ (ps ++ b'.' ∷ sig))

  segments-IsCompact : (h p : Option Bytes) (key : Bytes) → Gives (IsCompact h p) (segments h p key)
  segments-IsCompact none p key = record { holds = λ s. tt }
  segments-IsCompact (some hs) none key = record { holds = λ s. tt }
  segments-IsCompact (some hs) (some ps) key =
      let P = IsCompact (some hs) (some ps) in
      let signing_input = hs ++ b'.' ∷ ps in
      Gives-bind P alloc (λ b. if b then sign_input key signing_input else throw nomem)
        λ b.
          Gives-if P b
            (Gives-bind P (outside_result (E.hmac_sha256 key signing_input))
              (append_mac signing_input)
              λ mac. appended (b64url_encode (bytes mac) (some (b64url_encoded_len 32 + 1))))
            (record { holds = λ s. tt })
    where
      appended :
          (sig : Option Bytes)
          → Gives (IsCompact (some hs) (some ps)) (append_signature (hs ++ b'.' ∷ ps) sig)
      appended none = record { holds = λ s. tt }
      appended (some sig) = record {
        holds = λ s. (hs, ps, sig, refl, refl, append_assoc hs (b'.' ∷ ps) (b'.' ∷ sig));
      }

  sign_compact-IsCompact :
      (header payload key : Bytes)
      → Gives
          (IsCompact (b64url_encode (bytes header) (some 256)) (
            b64url_encode
              (bytes payload)
              (some ((b64url_encoded_len (length payload) + 1) % size_mod))))
          (sign_compact header payload key)
  unfolding sign_compact
  sign_compact-IsCompact header payload key =
      Gives-bind _ alloc (λ b. if b then encode_segments header payload key else throw nomem)
        λ b. Gives-if _ b (segments-IsCompact _ _ key) (record { holds = λ s. tt })

  -- The payload of a signed token can be read back from it: whatever header (below 2 ^ 62 bytes) and payload
  -- are signed, under whatever key, the reader of bearer tokens finds the payload in the token, if
  -- it is not empty and its segment fits the reader's buffer, which holds up to 768 bytes of it.
  pub decoded_payload-sign_compact :
      (header payload key token : Bytes) (s s' : State E.World)
      → All IsByte header
      → All IsByte payload
      → length header < 2 ^ 62
      → 0 < length payload
      → length payload ≤ 768
      → sign_compact header payload key s ≡ (ok token, s')
      → decoded_payload token ≡ some payload
  unfolding decoded_payload
  decoded_payload-sign_compact header payload key token s s' hb pb hl some_payload pl e =
      let small : length payload < 2 ^ 62 = omega arith in
      let (hs, ps, sig, eh, ep, shape) =
        post-ok _ _ token s' ((sign_compact-IsCompact header payload key).holds s) e in
      let hs_letters = b64url_encode-spell header hs _ hb hl eh in
      let ps_letters = b64url_encode-spell payload ps _ pb small ep in
      let size = length-b64url_encode payload ps _ pb small ep in
      let first : split_dot token ≡ some (hs, ps ++ b'.' ∷ sig) =
        rw (shape, hs_letters) (split_dot-spell (sextets header) _ (sextets-IsSextet header hb)) in
      let second : split_dot (ps ++ b'.' ∷ sig) ≡ some (ps, sig) =
        rw ps_letters (split_dot-spell (sextets payload) sig (sextets-IsSextet payload pb)) in
      let fits : (length ps == 0 || ltb 1024 (length ps)) ≡ false =
        segment_fits (length payload) (length ps) some_payload pl size in
      rw (first, second, fits)
        (b64url_decode-b64url_encode payload ps _ 1024 pb small (omega arith) ep)
