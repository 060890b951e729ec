-- ===== src/Token.antt =====
-- src/proto_auth.c, how a bearer token is come by: the challenge, the signed answer, the cache,
-- and `ehem_auth_ensure_token` over them. The push confirmation of src/proto_ext.c is the
-- argument `confirm`.
pub mod Store
pub mod Challenge
pub mod Ensure
pub mod Settled
pub mod Kept
pub mod Served
pub mod Payload
pub mod Budget
mod Tests
use encedo_hem_c_api.Prelude.{
  ℕ, ◌+◌, ◌-◌, Bool, true, false, not, ◌&&◌, ◌||◌, Option, none, some, List, [], ◌∷◌, ◌++◌, Bytes,
  codes, length, take, ltb, leb, ◌==◌, if◌then◌else◌,
}
use encedo_hem_c_api.Prelude.Int.{ℤ, pos, negsuc, ◌+ℤ◌, ◌-ℤ◌, ltb_ℤ}
use encedo_hem_c_api.Rc.{Rc, arg, nomem, protocol, auth_expired, auth_failed}
use encedo_hem_c_api.Env.{Env, Result, ok, err, HttpMethod, get, post, TlsReqOverride, default}
use encedo_hem_c_api.Base64.{bytes, b64_std_decode, b64url_decode}
use encedo_hem_c_api.Context.{Ctx, Auth, TokenEntry, LastError}
use encedo_hem_c_api.Context.Fail.{fail}
use encedo_hem_c_api.Json.{
  json_parse, json_get_int64, json_get_string, json_new_object, json_add_string, json_print,
}
use encedo_hem_c_api.Global.{global_init}
use encedo_hem_c_api.Cache.{find, put}
use encedo_hem_c_api.Session.{ensure_auth, set_auth, scrub_passphrase, is_mobile}
use encedo_hem_c_api.Ejwt.{ejwt_build, fields, string_field, print_all}
use encedo_hem_c_api.Request.{request_json, request_raw}
use encedo_hem_c_api.Checkin.{checkin_run, no_ensure}
use encedo_hem_c_api.Monad.{
  State, Prog, alloc, attempt, outside, outside_result, get_ctx, put_ctx, return, throw, ◌>>=◌,
  ◌>>◌,
}

abbrev pub token_lifetime : ℤ
token_lifetime = pos 3600

abbrev pub token_skew : ℤ
token_skew = pos 60

abbrev pub challenge_deadline : ℤ
challenge_deadline = pos 60

abbrev pub kdf_iters : ℕ
kdf_iters = 600000

abbrev pub token_path : Bytes
token_path = codes "/api/auth/token"

-- `strchr(s, '.')`: what stands before the first dot and behind it.
unfoldable pub split_dot : Bytes → Option (Bytes × Bytes)
split_dot [] = none
split_dot (c ∷ cs) =
    let rest : Option (Bytes × Bytes) = elim (split_dot cs) [
      | none ↦ none
      | some (before, after) ↦ some (c ∷ before, after)
    ] in
    if c == b'.' then some ([], cs) else rest

abbrev pub before_dot : Option (Bytes × Bytes) → Option Bytes
before_dot none = none
before_dot (some (payload, signature)) = some payload

abbrev pub behind_header : Option (Bytes × Bytes) → Option Bytes
behind_header none = none
behind_header (some (header, rest)) = before_dot (split_dot rest)

-- The payload segment of a compact token, between its first two dots.
abbrev pub payload_segment : Bytes → Option Bytes
payload_segment token = behind_header (split_dot token)

abbrev pub decode_segment : Option Bytes → Option Bytes
decode_segment none = none
decode_segment (some seg) =
    if length seg == 0 || ltb 1024 (length seg) then none else b64url_decode (bytes seg) (some 1024)

-- The segment decoded, if it is not empty and fits the buffer of 1024 bytes.
unfoldable pub decoded_payload : Bytes → Option Bytes
decoded_payload token = decode_segment (payload_segment token)

abbrev fresh_token : ℤ → Option TokenEntry → Option Bytes
fresh_token now none = none
fresh_token now (some e) = if ltb_ℤ now e.exp then some e.token else none

-- `a != NULL`, an entry for the scope, and `e->exp > now`.
unfoldable pub cached_token : Option Auth → Bytes → ℤ → Option Bytes
cached_token none scope now = none
cached_token (some a) scope now = fresh_token now (find a.cache scope)

abbrev pub passphrase_of : Option Auth → Option Bytes
passphrase_of none = none
passphrase_of (some a) = a.passphrase

abbrev token_of : Option TokenEntry → Option Bytes
token_of none = none
token_of (some e) = some e.token

-- The bearer of a scope, fresh or not.
abbrev pub cached : Option Auth → Bytes → Option Bytes
cached none scope = none
cached (some a) scope = token_of (find a.cache scope)

abbrev if_key : Option Bytes → Option Bytes
if_key none = none
if_key (some key) = if length key == 32 then some key else none

-- The session key: standard base64 of exactly 32 bytes.
unfoldable pub key_of : Bytes → Option Bytes
key_of spk = if_key (b64_std_decode (bytes spk) (some 32))

-- `recovery_spent` and `drift_evident` of `ehem_auth_ensure_token`, which the calls below write.
pub record Recovery : Type 0 where
  pub spent : Bool
  pub drift : Bool

-- The claim that `challenge_drift_evident` reads, against the local clock.
unfoldable pub drifts : Option ℤ → ℤ → Bool
drifts none now = false
drifts (some exp) now =
    let drift = exp -ℤ challenge_deadline -ℤ now in
    ltb_ℤ token_skew drift || ltb_ℤ drift (pos 0 -ℤ token_skew)
