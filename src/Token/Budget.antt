-- ===== src/Token/Budget.antt =====
-- What the login of src/proto_auth.c asks of the outside without a request.
pub mod Bound
pub mod Local
pub mod Ensure
pub mod Left
pub mod Passphrase
pub mod Recovery
use encedo_hem_c_api.Prelude.{
  ℕ, ◌+◌, ◌≤◌, Bool, true, false, Option, none, some, List, [], ◌∷◌, ◌++◌, length, ◌%◌, Bytes,
  codes, All, ◌≡◌, refl, arith, inl, inr, Bool-cases, Option-cases, if◌then◌else◌,
}
use encedo_hem_c_api.Prelude.Int.{ℤ, ◌+ℤ◌}
use encedo_hem_c_api.Rc.{nomem, protocol}
use encedo_hem_c_api.Env.{Env, Result, ok, err}
use encedo_hem_c_api.Base64.{bytes, b64_std_encode, b64url_encode, b64url_encoded_len, size_mod}
use encedo_hem_c_api.Context.{Ctx, Auth, TokenEntry}
use encedo_hem_c_api.Cache.{find, overwrite, prepend, put}
use encedo_hem_c_api.Global.{
  global_init, init_backends, after_crypto_init, after_transport_init, checked,
}
use encedo_hem_c_api.Json.{
  json_parse, json_new_object, json_add_string, json_add_int64, json_print, json_get_int64,
}
use encedo_hem_c_api.Monad.{State, Prog, alloc, outside, outside_result, return, throw, ◌>>=◌}
use encedo_hem_c_api.Session.{zeroed, scrub_passphrase, set_auth, ensure_auth, auth_or_new}
use encedo_hem_c_api.Ejwt.{
  append_signature, append_mac, sign_input, segments, encode_segments, sign_compact, fields,
  print_all, string_field, int64_field, ejwt_build, ejwt_header, payload_of,
}
use encedo_hem_c_api.Request.Budget.{
  SendCount, Sends, Sends-bind, Sends-le, Sends-return, Sends-throw, Sends-fail, Sends-if,
  Sends-get_ctx, Sends-test,
}
use encedo_hem_c_api.Request.Budget.Bound.{Sends-parse}
use encedo_hem_c_api.Token.{decoded_payload, kdf_iters, token_lifetime}
use encedo_hem_c_api.Token.Store.{decode_bearer_exp, keep_entry, store_token}
use encedo_hem_c_api.Token.Challenge.{
  build_auth_body, keep_username, derive_ejwt, scrub_in, scrub_unless_retained,
}

-- Nor do the clocks, cJSON's writers, the crypto functions, the inits and the consumer's callback make
-- a request.
pub record LocalCount ⦃E : Env⦄ (count : SendCount) : Type 0 where
  pub now_none : (w : E.World) → count.sends (E.now w).1 ≡ count.sends w
  pub object_none : (w : E.World) → count.sends (E.create_object w).1 ≡ count.sends w
  pub string_none :
      (n : E.Node) (key v : Bytes) (w : E.World)
      → count.sends (E.add_string_to_object n key v w).1 ≡ count.sends w
  pub number_none :
      (n : E.Node) (key : Bytes) (v : ℤ) (w : E.World)
      → count.sends (E.add_number_to_object n key v w).1 ≡ count.sends w
  pub print_none :
      (n : E.Node) (w : E.World) → count.sends (E.print_unformatted n w).1 ≡ count.sends w
  pub pbkdf2_none :
      (password salt : Bytes) (iters : ℕ) (w : E.World)
      → count.sends (E.pbkdf2_sha256 password salt iters w).1 ≡ count.sends w
  pub keypair_none :
      (seed : Bytes) (w : E.World)
      → count.sends (E.x25519_keypair_from_seed seed w).1 ≡ count.sends w
  pub shared_none :
      (priv peer : Bytes) (w : E.World)
      → count.sends (E.x25519_shared priv peer w).1 ≡ count.sends w
  pub hmac_none :
      (key input : Bytes) (w : E.World) → count.sends (E.hmac_sha256 key input w).1 ≡ count.sends w
  pub crypto_init_none : (w : E.World) → count.sends (E.crypto_backend_init w).1 ≡ count.sends w
  pub crypto_cleanup_none : (w : E.World) → count.sends (E.crypto_backend_cleanup w) ≡ count.sends w
  pub transport_init_none :
      (w : E.World) → count.sends (E.transport_backend_init w).1 ≡ count.sends w
  pub wall_none : (w : E.World) → count.sends (E.wall_time w).1 ≡ count.sends w
  pub notice_none :
      (callback : ℕ) (scope : Bytes) (timeout_ms argument : ℕ) (w : E.World)
      → count.sends (E.confirm_notice callback scope timeout_ms argument w) ≡ count.sends w

module _ ⦃E : Env⦄ (count : SendCount) (fits : ℕ → Type 0) (local : LocalCount count) where
  open count use {sends, alloc_none}
  open local use {
    now_none, object_none, string_none, number_none, print_none, pbkdf2_none, keypair_none,
    shared_none, hmac_none, crypto_init_none, crypto_cleanup_none, transport_init_none,
  }

  pub Sends-outside :
      {A : Type 0} (f : E.World → A × E.World)
      → ((w : E.World) → sends (f w).1 ≡ sends w)
      → Sends count fits 0 (outside f)
  Sends-outside f h = record { bound = λ s t. (t, omega (arith, h s.world)) }

  pub Sends-outside_result :
      {A : Type 0} (f : E.World → Result A × E.World)
      → ((w : E.World) → sends (f w).1 ≡ sends w)
      → Sends count fits 0 (outside_result f)
  Sends-outside_result f h = record { bound = λ s t. (t, omega (arith, h s.world)) }

  pub Sends-alloc : Sends count fits 0 alloc
  Sends-alloc = Sends-outside E.alloc alloc_none

  pub Sends-string_field :
      (key v : Bytes) (obj : Option E.Node) → Sends count fits 0 (string_field key v obj)
  unfolding json_add_string
  Sends-string_field key v none = Sends-return count fits none
  Sends-string_field key v (some obj) = Sends-outside _ (string_none obj key v)

  pub Sends-int64_field :
      (key : Bytes) (v : ℤ) (obj : Option E.Node) → Sends count fits 0 (int64_field key v obj)
  unfolding json_add_int64
  Sends-int64_field key v none = Sends-return count fits none
  Sends-int64_field key v (some obj) = Sends-outside _ (number_none obj key v)

  pub Sends-new_object : Sends count fits 0 json_new_object
  unfolding json_new_object
  Sends-new_object = Sends-outside E.create_object object_none

  pub Sends-print_all : (obj : Option E.Node) → Sends count fits 0 (print_all obj)
  unfolding json_print
  Sends-print_all none = Sends-return count fits none
  Sends-print_all (some obj) = Sends-outside _ (print_none obj)

  -- A list of fields that are each added without a request.
  pub Sends-fields :
      (adds : List (Option E.Node → Prog (Option E.Node))) (obj : Option E.Node)
      → All (λ add. (o : Option E.Node) → Sends count fits 0 (add o)) adds
      → Sends count fits 0 (fields adds obj)
  Sends-fields [] obj h = Sends-return count fits obj
  Sends-fields (add ∷ rest) none h = Sends-return count fits none
  Sends-fields (add ∷ rest) (some obj) h =
      Sends-bind count fits (h.0 (some obj)) λ obj'. Sends-fields rest obj' h.1

  pub Sends-option :
      {A B : Type 0} (o : Option B) {m : Prog A} {f : B → Prog A}
      → Sends count fits 0 m
      → ((b : B) → Sends count fits 0 (f b))
      → Sends count fits 0 (elim o [ none ↦ m | some b ↦ f b ])
  Sends-option none p q = p
  Sends-option (some b) p q = q b
