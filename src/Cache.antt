-- ===== src/Cache.antt =====
-- src/proto_auth.c, the token cache: a list of entries, searched by scope.
pub mod Laws
mod Tests
use encedo_hem_c_api.Prelude.{
  ℕ, Bool, true, false, Option, none, some, List, [], ◌∷◌, Bytes, bytes_eq, if◌then◌else◌,
}
use encedo_hem_c_api.Prelude.Int.{ℤ}
use encedo_hem_c_api.Env.{Env}
use encedo_hem_c_api.Context.{Auth, TokenEntry}
use encedo_hem_c_api.Monad.{State, Prog, alloc, ◌>>=◌, return}

unfoldable pub find : List TokenEntry → Bytes → Option TokenEntry
find [] scope = none
find (e ∷ cache) scope = if bytes_eq e.scope scope then some e else find cache scope

-- The entry that `cache_find` gives, with its token and expiry written anew.
unfoldable pub overwrite : List TokenEntry → Bytes → Bytes → ℤ → List TokenEntry
overwrite [] scope token exp = []
overwrite (e ∷ cache) scope token exp =
    if bytes_eq e.scope scope
    then record e { token = token; exp = exp } ∷ cache
    else e ∷ overwrite cache scope token exp

-- The unlinking loop of `ehem_auth_invalidate`: the first entry of the scope.
unfoldable pub unlink : List TokenEntry → Bytes → List TokenEntry
unlink [] scope = []
unlink (e ∷ cache) scope = if bytes_eq e.scope scope then cache else e ∷ unlink cache scope

module _ ⦃E : Env⦄ where
  -- The tail of `cache_put`, where no entry has the scope: an entry and its copy of the scope.
  abbrev pub prepend : List TokenEntry → TokenEntry → Prog (Option (List TokenEntry × TokenEntry))
  prepend cache e = do
    entry ← alloc
    if entry
        then (do scope_copy ← alloc; return (if scope_copy then some (e ∷ cache, e) else none))
        else return none

  -- `cache_put`: the new cache with the stored entry, or `none` where memory runs out.
  unfoldable pub put :
      List TokenEntry → Bytes → Bytes → ℤ → Prog (Option (List TokenEntry × TokenEntry))
  put cache scope token exp = do
    tok_copy ← alloc
    if tok_copy
        then elim (find cache scope) [
          | none ↦ prepend cache (record { scope = scope; token = token; exp = exp })
          | some e ↦
              return (some (overwrite cache scope token exp, record e { token = token; exp = exp }))
        ]
        else return none
