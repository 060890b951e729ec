-- ===== src/Token/Challenge.antt =====
-- src/proto_auth.c: the login exchange, `acquire_token` and what it calls.
use encedo_hem_c_api.Prelude.{
  Bool, true, not, ◌&&◌, Option, none, some, [], ◌∷◌, ◌++◌, Bytes, codes, ◌==◌, if◌then◌else◌,
}
use encedo_hem_c_api.Prelude.Int.{ℤ, ◌+ℤ◌}
use encedo_hem_c_api.Rc.{Rc, nomem, protocol}
use encedo_hem_c_api.Env.{Env, Result, ok, err, get, post, default}
use encedo_hem_c_api.Context.{Ctx, Auth}
use encedo_hem_c_api.Context.Fail.{fail}
use encedo_hem_c_api.Json.{json_get_int64, json_get_string, json_new_object}
use encedo_hem_c_api.Global.{global_init}
use encedo_hem_c_api.Session.{set_auth, scrub_passphrase}
use encedo_hem_c_api.Ejwt.{ejwt_build, fields, string_field, print_all}
use encedo_hem_c_api.Request.{request_json}
use encedo_hem_c_api.Checkin.{checkin_run, no_ensure}
use encedo_hem_c_api.Monad.{Prog, alloc, attempt, outside_result, get_ctx, return, ◌>>=◌, ◌>>◌}
use encedo_hem_c_api.Token.{kdf_iters, token_lifetime, token_path, key_of, drifts, Recovery}
use encedo_hem_c_api.Token.Store.{decode_bearer_exp, expiry, store_token}

module _ ⦃E : Env⦄ where
  unfoldable pub build_auth_body : Bytes → Prog (Option Bytes)
  build_auth_body ejwt = do
    obj ← json_new_object
    obj' ← fields (string_field (codes "auth") ejwt ∷ []) obj
    print_all obj'

  -- The GET of the challenge, unauthenticated, with the certificate recovery of the request path.
  abbrev pub challenge_request : Prog E.Node
  challenge_request = request_json (checkin_run true) no_ensure get token_path none none default

  -- Behind the check-in of `fetch_challenge`: the challenge once more, or the failure explained.
  abbrev pub after_rescue : Rc → Result (Unit {0}) → Prog (Bool × Result E.Node)
  after_rescue rc (ok _) = do r ← attempt challenge_request; return (true, r)
  after_rescue rc (err _) = do
    ctx ← get_ctx
    r ← attempt (
        fail rc 403 none (
          token_path
          ++ codes ": HTTP 403 (device RTC not set; automatic check-in failed: "
          ++ ctx.last_error.message
          ++ codes ")"))
    return (true, r)

  abbrev pub rescue : Rc → Prog (Bool × Result E.Node)
  rescue rc = do c ← attempt (checkin_run true); after_rescue rc c

  abbrev pub is_rescuable : Bool → Ctx → Bool
  is_rescuable spent c =
      c.last_error.http_status == 403 && not spent && not c.no_auto_checkin && not c.in_checkin

  abbrev pub after_challenge : Bool → Result E.Node → Prog (Bool × Result E.Node)
  after_challenge spent (ok challenge) s = (ok (spent, ok challenge), s)
  after_challenge spent (err rc) s =
      if is_rescuable spent s.ctx then rescue rc s else (ok (spent, err rc), s)

  -- `fetch_challenge`: a 403 means that the device's clock is not set, which one check-in mends.
  -- The flag says whether the recovery is spent.
  unfoldable pub fetch_challenge : Bool → Prog (Bool × Result E.Node)
  fetch_challenge spent = do r ← attempt challenge_request; after_challenge spent r

  -- The optional `lbl` of a challenge is kept as the user's name.
  unfoldable pub keep_username : Option Bytes → Prog (Unit {0})
  keep_username none = return tt
  keep_username (some lbl) = do
    u ← alloc
    ctx ← get_ctx
    elim (ctx.auth) [
      | none ↦ return tt
      | some a ↦ if u then set_auth (some (record a { username = some lbl })) else return tt
    ]

  -- Passphrase to seed to key pair to shared secret to signed token.
  unfoldable pub derive_ejwt : Bytes → Bytes → Bytes → Bytes → Bytes → Bytes → ℤ → Prog Bytes
  derive_ejwt passphrase eid jti spk peer_pub scope now = do
    seed ← outside_result (E.pbkdf2_sha256 passphrase eid kdf_iters)
    keys ← outside_result (E.x25519_keypair_from_seed seed)
    shared ← outside_result (E.x25519_shared keys.0 peer_pub)
    ejwt_build jti spk scope keys.1 shared now (now +ℤ token_lifetime)

  abbrev pub token_in : Option Bytes → Prog Bytes
  token_in none = fail protocol 200 none (token_path ++ codes ": response has no 'token'")
  token_in (some token) = return token

  abbrev pub post_body : Option Bytes → Prog Bytes
  post_body none = fail nomem 0 none (codes "out of memory")
  post_body (some b) = do
    result ← request_json (checkin_run true) no_ensure post token_path (some b) none default
    token_in (json_get_string (some result) (some (codes "token")))

  -- The POST of the signed token, and the bearer in the reply.
  unfoldable pub redeem_ejwt : Bytes → Prog Bytes
  redeem_ejwt ejwt = do body ← build_auth_body ejwt; post_body body

  -- Without retention the passphrase is gone once it has served.
  abbrev pub scrub_in : Option Auth → Prog (Unit {0})
  scrub_in none = return tt
  scrub_in (some a) = if a.retain then return tt else set_auth (some (scrub_passphrase a))

  unfoldable pub scrub_unless_retained : Prog (Unit {0})
  scrub_unless_retained = do ctx ← get_ctx; scrub_in ctx.auth

  -- The bearer into the cache, and out to the caller.
  abbrev pub hand_out : Bytes → Prog Bytes
  hand_out stored = do scrub_unless_retained; return stored

  abbrev pub store_until : Bytes → ℤ → Bytes → Option ℤ → Prog Bytes
  store_until scope now token real_exp = do
    stored ← store_token scope token (expiry now real_exp)
    hand_out stored

  abbrev pub admit_bearer : Bytes → ℤ → Bytes → Prog Bytes
  admit_bearer scope now token = do
    real_exp ← decode_bearer_exp token
    store_until scope now token real_exp

  -- Behind the key derivation.
  unfoldable pub after_derivation : Bytes → ℤ → Result Bytes → Prog Bytes
  after_derivation scope now (err _) =
      fail protocol 0 none (token_path ++ codes ": credential derivation failed")
  after_derivation scope now (ok ejwt) = do token ← redeem_ejwt ejwt; admit_bearer scope now token

  -- The answer to a challenge that has its three fields and a key of 32 bytes.
  unfoldable pub answer_challenge : Bytes → Bytes → ℤ → Bytes → Bytes → Bytes → Bytes → Prog Bytes
  unfolding after_derivation
  answer_challenge passphrase scope now eid spk jti peer_pub = do
    r ← attempt (derive_ejwt passphrase eid jti spk peer_pub scope now)
    after_derivation scope now r

  -- The key of the challenge, which is 32 bytes in base64.
  abbrev pub with_key : Bytes → Bytes → ℤ → Bytes → Bytes → Bytes → Option Bytes → Prog Bytes
  with_key passphrase scope now eid spk jti none =
      fail protocol 0 none (token_path ++ codes ": challenge spk is not a 32-byte X25519 key")
  with_key passphrase scope now eid spk jti (some peer_pub) =
      answer_challenge passphrase scope now eid spk jti peer_pub

  unfoldable pub malformed_challenge : {A : Type 0} → Prog A
  malformed_challenge =
      fail protocol 0 none (token_path ++ codes ": malformed challenge (need eid, spk, jti)")

  -- The three fields that a challenge needs.
  abbrev pub with_fields :
      Bytes → Bytes → ℤ → Option Bytes → Option Bytes → Option Bytes → Option Bytes → Prog Bytes
  with_fields passphrase scope now (some eid) (some spk) (some jti) lbl = do
    keep_username lbl
    with_key passphrase scope now eid spk jti (key_of spk)
  with_fields passphrase scope now eid spk jti lbl = malformed_challenge

  -- `acquire_token` behind the challenge.
  unfoldable pub use_challenge : Bytes → Bytes → ℤ → E.Node → Prog Bytes
  unfolding malformed_challenge
  use_challenge passphrase scope now challenge =
      with_fields passphrase scope now (json_get_string (some challenge) (some (codes "eid")))
        (json_get_string (some challenge) (some (codes "spk")))
        (json_get_string (some challenge) (some (codes "jti")))
        (json_get_string (some challenge) (some (codes "lbl")))

  -- `challenge_drift_evident`
  abbrev pub drift_evident : E.Node → ℤ → Bool
  drift_evident challenge now = drifts (json_get_int64 (some challenge) (some (codes "exp"))) now

  abbrev pub after_fetch :
      Bytes → Bytes → ℤ → Recovery → Bool × Result E.Node → Prog (Recovery × Result Bytes)
  after_fetch passphrase scope now flags (spent, err rc) =
      return (record flags { spent = spent }, err rc)
  after_fetch passphrase scope now flags (spent, ok challenge) = do
    r ← attempt (use_challenge passphrase scope now challenge)
    return (record { spent = spent; drift = drift_evident challenge now }, r)

  abbrev pub after_init :
      Bytes → Bytes → ℤ → Recovery → Result (Unit {0}) → Prog (Recovery × Result Bytes)
  after_init passphrase scope now flags (err rc) = do
    r ← attempt (fail rc 0 none (token_path ++ codes ": process-global init failed"))
    return (flags, r)
  after_init passphrase scope now flags (ok _) = do
    fetched ← fetch_challenge flags.spent
    after_fetch passphrase scope now flags fetched

  -- `acquire_token`: the two flags are written on every path that reaches their line.
  unfoldable pub acquire_token : Bytes → Bytes → ℤ → Recovery → Prog (Recovery × Result Bytes)
  acquire_token passphrase scope now flags = do
    g ← attempt global_init
    after_init passphrase scope now flags g
