-- ===== src/Token/Budget/Local.antt =====
-- The steps of the login of src/proto_auth.c that make no request.
use encedo_hem_c_api.Prelude.{
  ℕ, ◌+◌, Option, none, some, List, [], ◌∷◌, ◌++◌, length, ◌%◌, Bytes, codes, arith, if◌then◌else◌,
}
use encedo_hem_c_api.Prelude.Int.{ℤ, ◌+ℤ◌}
use encedo_hem_c_api.Rc.{nomem, protocol}
use encedo_hem_c_api.Env.{Env, Result, ok, err}
use encedo_hem_c_api.Base64.{bytes, b64_std_encode, b64url_encode, b64url_encoded_len, size_mod}
use encedo_hem_c_api.Context.{Auth, TokenEntry}
use encedo_hem_c_api.Cache.{find, overwrite, prepend, put}
use encedo_hem_c_api.Global.{
  global_init, init_backends, after_crypto_init, after_transport_init, checked,
}
use encedo_hem_c_api.Monad.{return}
use encedo_hem_c_api.Session.{zeroed, scrub_passphrase, set_auth, ensure_auth, auth_or_new}
use encedo_hem_c_api.Ejwt.{
  append_signature, segments, sign_compact, string_field, int64_field, ejwt_build, ejwt_header,
  payload_of,
}
use encedo_hem_c_api.Request.Budget.{
  SendCount, Sends, Sends-bind, Sends-return, Sends-throw, Sends-fail, Sends-if, Sends-get_ctx,
  Sends-test,
}
use encedo_hem_c_api.Request.Budget.Bound.{Sends-parse}
use encedo_hem_c_api.Token.{decoded_payload, kdf_iters, token_lifetime}
use encedo_hem_c_api.Token.Store.{decode_bearer_exp, keep_entry, store_token}
use encedo_hem_c_api.Token.Challenge.{
  build_auth_body, keep_username, derive_ejwt, scrub_in, scrub_unless_retained,
}
use encedo_hem_c_api.Token.Budget.{
  LocalCount, Sends-outside, Sends-outside_result, Sends-alloc, Sends-string_field,
  Sends-int64_field, Sends-new_object, Sends-print_all, Sends-fields, Sends-option,
}

module _ ⦃E : Env⦄ (count : SendCount) (fits : ℕ → Type 0) (local : LocalCount count) where
  open count use {sends, alloc_none}
  open local use {
    now_none, object_none, string_none, number_none, print_none, pbkdf2_none, keypair_none,
    shared_none, hmac_none, crypto_init_none, crypto_cleanup_none, transport_init_none,
  }

  pub Sends-build_auth_body : (ejwt : Bytes) → Sends count fits 0 (build_auth_body ejwt)
  unfolding build_auth_body
  Sends-build_auth_body ejwt = Sends-bind count fits (Sends-new_object count fits local) λ obj.
      Sends-bind count fits
        (Sends-fields count fits local (string_field (codes "auth") ejwt ∷ []) obj
          (Sends-string_field count fits local (codes "auth") ejwt, tt))
        λ obj'. Sends-print_all count fits local obj'

  Sends-payload_of :
      (jti spk : Bytes) (exp now : ℤ) (iss scope : Bytes)
      → Sends count fits 0 (payload_of jti spk exp now iss scope)
  Sends-payload_of jti spk exp now iss scope =
      Sends-bind count fits (Sends-new_object count fits local) λ obj.
        Sends-bind count fits
          (Sends-fields count fits local
            (string_field (codes "jti") jti
              ∷ string_field (codes "aud") spk
              ∷ int64_field (codes "exp") exp
              ∷ int64_field (codes "iat") now
              ∷ string_field (codes "iss") iss
              ∷ string_field (codes "scope") scope
              ∷ [])
            obj
            (
              Sends-string_field count fits local (codes "jti") jti,
              (
                Sends-string_field count fits local (codes "aud") spk,
                (
                  Sends-int64_field count fits local (codes "exp") exp,
                  (
                    Sends-int64_field count fits local (codes "iat") now,
                    (
                      Sends-string_field count fits local (codes "iss") iss,
                      (Sends-string_field count fits local (codes "scope") scope, tt),
                    ),
                  ),
                ),
              ),
            ))
          λ obj'. Sends-print_all count fits local obj'

  Sends-segments : (h p : Option Bytes) (key : Bytes) → Sends count fits 0 (segments h p key)
  Sends-segments none p key = Sends-throw count fits protocol
  Sends-segments (some h) none key = Sends-throw count fits protocol
  Sends-segments (some h) (some p) key = Sends-bind count fits (Sends-alloc count fits local) λ b.
      Sends-if count fits b
        (Sends-bind count fits
          (Sends-outside_result count fits local (E.hmac_sha256 key (h ++ b'.' ∷ p))
            (hmac_none key (h ++ b'.' ∷ p)))
          λ mac.
            appended (h ++ b'.' ∷ p) (b64url_encode (bytes mac) (some (b64url_encoded_len 32 + 1))))
        (Sends-throw count fits nomem)
    where
      appended :
          (signing_input : Bytes) (sig : Option Bytes)
          → Sends count fits 0 (append_signature signing_input sig)
      appended signing_input none = Sends-throw count fits protocol
      appended signing_input (some sig) = Sends-return count fits _

  Sends-sign_compact :
      (header payload key : Bytes) → Sends count fits 0 (sign_compact header payload key)
  unfolding sign_compact
  Sends-sign_compact header payload key = Sends-bind count fits (Sends-alloc count fits local) λ b.
      Sends-if count fits b
        (Sends-segments (b64url_encode (bytes header) (some 256))
          (b64url_encode (bytes payload)
            (some ((b64url_encoded_len (length payload) + 1) % size_mod)))
          key)
        (Sends-throw count fits nomem)

  Sends-ejwt_build :
      (jti spk scope user_pub shared : Bytes) (now exp : ℤ)
      → Sends count fits 0 (ejwt_build jti spk scope user_pub shared now exp)
  unfolding ejwt_build
  Sends-ejwt_build jti spk scope user_pub shared now exp =
      Sends-option count fits local (b64_std_encode (bytes user_pub) (some 64))
        (Sends-throw count fits protocol)
        λ iss. Sends-bind count fits (Sends-payload_of jti spk exp now iss scope) λ payload_json.
          Sends-option count fits local payload_json (Sends-throw count fits nomem)
            λ payload. Sends-sign_compact ejwt_header payload shared

  pub Sends-derive_ejwt :
      (passphrase eid jti spk peer_pub scope : Bytes) (now : ℤ)
      → Sends count fits 0 (derive_ejwt passphrase eid jti spk peer_pub scope now)
  unfolding derive_ejwt
  Sends-derive_ejwt passphrase eid jti spk peer_pub scope now =
      Sends-bind count fits
        (Sends-outside_result count fits local (E.pbkdf2_sha256 passphrase eid kdf_iters)
          (pbkdf2_none passphrase eid kdf_iters))
        λ seed.
          Sends-bind count fits
            (Sends-outside_result count fits local (E.x25519_keypair_from_seed seed)
              (keypair_none seed))
            λ keys.
              Sends-bind count fits
                (Sends-outside_result count fits local (E.x25519_shared keys.0 peer_pub)
                  (shared_none keys.0 peer_pub))
                λ shared. Sends-ejwt_build jti spk scope keys.1 shared now (now +ℤ token_lifetime)

  pub Sends-decode_bearer_exp : (token : Bytes) → Sends count fits 0 (decode_bearer_exp token)
  unfolding decode_bearer_exp
  Sends-decode_bearer_exp token =
      Sends-option count fits local (decoded_payload token) (Sends-return count fits none) λ raw.
        Sends-bind count fits (Sends-parse count fits raw) λ payload. Sends-return count fits _

  Sends-set_auth : (auth : Option Auth) → Sends count fits 0 (set_auth auth)
  Sends-set_auth auth = record { bound = λ s h. (h, omega arith) }

  made : (auth : Option Auth) → Sends count fits 0 (auth_or_new auth)
  made (some a) = Sends-return count fits a
  made none = Sends-bind count fits (Sends-alloc count fits local) λ b.
      Sends-if count fits b
        (Sends-bind count fits (Sends-set_auth (some zeroed)) λ u. Sends-return count fits zeroed)
        (Sends-fail count fits nomem 0 none (codes "out of memory"))

  Sends-prepend : (cache : List TokenEntry) (e : TokenEntry) → Sends count fits 0 (prepend cache e)
  Sends-prepend cache e = Sends-bind count fits (Sends-alloc count fits local) λ b.
      Sends-if count fits b
        (Sends-bind count fits (Sends-alloc count fits local)
          λ c. Sends-return count fits (if c then some (e ∷ cache, e) else none))
        (Sends-return count fits none)

  Sends-put :
      (cache : List TokenEntry) (scope token : Bytes) (exp : ℤ)
      → Sends count fits 0 (put cache scope token exp)
  unfolding put
  Sends-put cache scope token exp = Sends-bind count fits (Sends-alloc count fits local) λ b.
      Sends-if count fits b
        (Sends-option count fits local (find cache scope)
          (Sends-prepend cache (record { scope = scope; token = token; exp = exp }))
          λ e.
            Sends-return count fits
              (some (overwrite cache scope token exp, record e { token = token; exp = exp })))
        (Sends-return count fits none)

  pub Sends-ensure_auth : Sends count fits 0 ensure_auth
  unfolding ensure_auth
  Sends-ensure_auth = record { bound = λ s h. (made s.ctx.auth).bound s h }

  pub Sends-store_token :
      (scope token : Bytes) (exp : ℤ) → Sends count fits 0 (store_token scope token exp)
  unfolding store_token
  Sends-store_token scope token exp =
      Sends-bind count fits Sends-ensure_auth
        λ a. Sends-bind count fits (placed a) λ entry. kept a entry
    where
      placed : (a : Auth) → Sends count fits 0 (put a.cache scope token exp)
      placed a = Sends-put a.cache scope token exp

      kept :
          (a : Auth) (entry : Option (List TokenEntry × TokenEntry))
          → Sends count fits 0 (keep_entry a entry)
      kept a none = unfold keep_entry in Sends-fail count fits nomem 0 none (codes "out of memory")
      kept a (some (cache, e)) = record { bound = λ s h. unfold keep_entry in (h, omega arith) }

  pub Sends-keep_username : (lbl : Option Bytes) → Sends count fits 0 (keep_username lbl)
  unfolding keep_username
  Sends-keep_username none = Sends-return count fits tt
  Sends-keep_username (some lbl) = Sends-bind count fits (Sends-alloc count fits local) λ u.
      Sends-bind count fits (Sends-get_ctx count fits) λ ctx.
        Sends-option count fits local ctx.auth (Sends-return count fits tt) λ a.
          Sends-if count fits u (Sends-set_auth (some (record a { username = some lbl })))
            (Sends-return count fits tt)

  pub Sends-scrub : Sends count fits 0 scrub_unless_retained
  unfolding scrub_unless_retained
  Sends-scrub = record { bound = λ s h. (scrubbed s.ctx.auth).bound s h }
    where
      scrubbed : (auth : Option Auth) → Sends count fits 0 (scrub_in auth)
      scrubbed none = Sends-return count fits tt
      scrubbed (some a) =
          Sends-if count fits a.retain (Sends-return count fits tt)
            (Sends-set_auth (some (scrub_passphrase a)))

  pub Sends-global_init : Sends count fits 0 global_init
  unfolding global_init
  Sends-global_init =
      Sends-test count fits (λ s. s.global_ready) (λ s. return tt) (λ s. init_backends)
        (λ s. Sends-return count fits tt) (λ s. started)
    where
      opened : (r : Result (Unit {0})) → Sends count fits 0 (after_transport_init r)
      opened (err rc) = record { bound = λ s h. (h, omega (arith, crypto_cleanup_none s.world)) }
      opened (ok _) = record { bound = λ s h. (h, omega arith) }

      keyed : (r : Result (Unit {0})) → Sends count fits 0 (after_crypto_init r)
      keyed (err rc) = Sends-throw count fits rc
      keyed (ok _) =
          Sends-bind count fits
            (Sends-outside count fits local E.transport_backend_init transport_init_none)
            λ rc. opened (checked rc)

      started : Sends count fits 0 init_backends
      started =
          Sends-bind count fits
            (Sends-outside count fits local E.crypto_backend_init crypto_init_none)
            λ rc. keyed (checked rc)
