-- ===== src/Token/Store.antt =====
-- src/proto_auth.c: a bearer's expiry, and its way into the cache.
use encedo_hem_c_api.Prelude.{List, Option, none, some, Bytes, codes}
use encedo_hem_c_api.Prelude.Int.{ℤ, pos, ◌+ℤ◌, ◌-ℤ◌}
use encedo_hem_c_api.Rc.{arg, nomem}
use encedo_hem_c_api.Env.{Env}
use encedo_hem_c_api.Context.{Auth, TokenEntry}
use encedo_hem_c_api.Context.Fail.{fail}
use encedo_hem_c_api.Json.{json_parse, json_get_int64}
use encedo_hem_c_api.Cache.{put}
use encedo_hem_c_api.Session.{ensure_auth, set_auth}
use encedo_hem_c_api.Monad.{Prog, outside, return, throw, ◌>>=◌, ◌>>◌}
use encedo_hem_c_api.Token.{token_lifetime, token_skew, decoded_payload}

module _ ⦃E : Env⦄ where
  abbrev pub auth_now : Prog ℤ
  auth_now = outside E.now

  unfoldable pub decode_bearer_exp : Bytes → Prog (Option ℤ)
  decode_bearer_exp token = elim (decoded_payload token) [
    | none ↦ return none
    | some raw ↦ do
      payload ← json_parse (some raw)
      return (json_get_int64 payload (some (codes "exp")))
  ]

  -- When the cache entry of a token expires, and the entry.
  abbrev pub expiry : ℤ → Option ℤ → ℤ
  expiry now none = now +ℤ token_lifetime -ℤ token_skew
  expiry now (some real_exp) = real_exp -ℤ token_skew

  -- The new cache in place, and the bearer as the cache owns it.
  unfoldable pub keep_entry : Auth → Option (List TokenEntry × TokenEntry) → Prog Bytes
  keep_entry a none = fail nomem 0 none (codes "out of memory")
  keep_entry a (some (cache, e)) = do set_auth (some (record a { cache = cache })); return e.token

  unfoldable pub store_token : Bytes → Bytes → ℤ → Prog Bytes
  unfolding keep_entry
  store_token scope token exp = do
    a ← ensure_auth
    entry ← put a.cache scope token exp
    keep_entry a entry

  abbrev pub seed_expiry : Option ℤ → Prog ℤ
  seed_expiry (some exp) = return (expiry (pos 0) (some exp))
  seed_expiry none = do now ← auth_now; return (expiry now none)

  abbrev pub seed_until : Bytes → Bytes → ℤ → Prog (Unit {0})
  seed_until scope token exp = do stored ← store_token scope token exp; return tt

  abbrev pub seed_with : Bytes → Bytes → Option ℤ → Prog (Unit {0})
  seed_with scope token real_exp = do exp ← seed_expiry real_exp; seed_until scope token exp

  abbrev pub seed : Bytes → Bytes → Prog (Unit {0})
  seed scope token = do real_exp ← decode_bearer_exp token; seed_with scope token real_exp

  -- `ehem_auth_cache_seed`
  unfoldable pub cache_seed : Option Bytes → Option Bytes → Prog (Unit {0})
  cache_seed (some scope) (some token) = do a ← ensure_auth; seed scope token
  cache_seed _ _ = throw arg
