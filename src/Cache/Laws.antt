-- ===== src/Cache/Laws.antt =====
-- The token cache of src/proto_auth.c as a map from scopes.
use encedo_hem_c_api.Prelude.{
  Option, none, some, List, [], ◌∷◌, Bytes, bytes_eq, bytes_eq→eq, bytes_eq_refl, bytes_eq_comm,
  bytes_eq-left, if◌then◌else◌, ◌≡◌, refl, ◌≢◌, ◌⊎◌, inl, inr, arith, Bool-cases, Option-cases,
}
use encedo_hem_c_api.Prelude.Int.{ℤ}
use encedo_hem_c_api.Env.{Env, ok}
use encedo_hem_c_api.Context.{TokenEntry}
use encedo_hem_c_api.Monad.{State}
use encedo_hem_c_api.Cache.{find, overwrite, unlink, put}

-- What a cache answers for a scope, the entry's own copy of the scope left aside.
abbrev pub answer : Option TokenEntry → Option (Bytes × ℤ)
answer none = none
answer (some e) = some (e.token, e.exp)

abbrev pub token_at : List TokenEntry → Bytes → Option (Bytes × ℤ)
token_at cache scope = answer (find cache scope)

-- No two entries share a scope.
pub data IsMap : List TokenEntry → Type 0 where
  empty : IsMap []
  entry :
      {e : TokenEntry} {cache : List TokenEntry}
      → find cache e.scope ≡ none
      → IsMap cache
      → IsMap (e ∷ cache)

find-scope :
    (cache : List TokenEntry) (scope : Bytes) (e : TokenEntry)
    → find cache scope ≡ some e
    → e.scope ≡ scope
unfolding find
find-scope [] scope e h = cc
find-scope (d ∷ cache) scope e h = elim (Bool-cases (bytes_eq d.scope scope)) [
  | inl hit ↦ ground (arith, bytes_eq→eq d.scope scope hit)
  | inr miss ↦ ground (arith, find-scope cache scope e)
]

token_at-overwrite :
    (cache : List TokenEntry) (scope token other : Bytes) (exp : ℤ)
    → find cache scope ≢ none
    → token_at (overwrite cache scope token exp) other
      ≡ (if bytes_eq scope other then some (token, exp) else token_at cache other)
unfolding find overwrite
token_at-overwrite [] scope token other exp there = absurd (there refl)
token_at-overwrite (e ∷ cache) scope token other exp there =
    elim (Bool-cases (bytes_eq e.scope scope)) [
      | inl hit ↦ ground (arith, bytes_eq-left e.scope scope other hit)
      | inr miss ↦ elim (Bool-cases (bytes_eq e.scope other)) [
        | inl here ↦
            ground (arith, bytes_eq-left e.scope other scope here, bytes_eq_comm scope other)
        | inr past ↦ ground (arith, token_at-overwrite cache scope token other exp)
      ]
    ]

find-overwrite-none :
    (cache : List TokenEntry) (scope token other : Bytes) (exp : ℤ)
    → find cache other ≡ none
    → find (overwrite cache scope token exp) other ≡ none
unfolding find overwrite
find-overwrite-none [] scope token other exp h = refl
find-overwrite-none (e ∷ cache) scope token other exp h =
    ground (arith, find-overwrite-none cache scope token other exp)

overwrite-IsMap :
    (cache : List TokenEntry) (scope token : Bytes) (exp : ℤ)
    → IsMap cache
    → IsMap (overwrite cache scope token exp)
unfolding overwrite
overwrite-IsMap [] scope token exp m = empty
overwrite-IsMap (e ∷ cache) scope token exp (entry new m) =
    elim (Bool-cases (bytes_eq e.scope scope)) [
      | inl hit ↦ rw hit (entry new m)
      | inr miss ↦ rw miss (
          entry (find-overwrite-none cache scope token e.scope exp new)
            (overwrite-IsMap cache scope token exp m))
    ]

find-unlink-none :
    (cache : List TokenEntry) (scope other : Bytes)
    → find cache other ≡ none
    → find (unlink cache scope) other ≡ none
unfolding find unlink
find-unlink-none [] scope other h = refl
find-unlink-none (e ∷ cache) scope other h = ground (arith, find-unlink-none cache scope other)

-- Invalidating a scope leaves no entry for it and every other answer as it was, and the cache a
-- map.
pub token_at-unlink :
    (cache : List TokenEntry) (scope other : Bytes)
    → IsMap cache
    → (token_at (unlink cache scope) other
        ≡ (if bytes_eq scope other then none else token_at cache other))
      × IsMap (unlink cache scope)
unfolding find unlink
token_at-unlink [] scope other m = (ground arith, empty)
token_at-unlink (e ∷ cache) scope other (entry new m) = elim (Bool-cases (bytes_eq e.scope scope)) [
  | inl hit ↦ rw hit (
    elim (Bool-cases (bytes_eq e.scope other)) [
      | inl here ↦
          let gone : find cache other ≡ none = rw (bytes_eq→eq e.scope other here) at new in
          ground (arith, bytes_eq-left e.scope scope other hit)
      | inr past ↦ ground (arith, bytes_eq-left e.scope scope other hit)
    ],
    m,
  )
  | inr miss ↦
      let (rest, rest_map) = token_at-unlink cache scope other m in
      rw miss (
        elim (Bool-cases (bytes_eq e.scope other)) [
          | inl here ↦
              ground (arith, bytes_eq-left e.scope other scope here, bytes_eq_comm scope other)
          | inr past ↦ ground (arith, rest)
        ],
        entry (find-unlink-none cache scope e.scope new) rest_map,
      )
]

find-overwrite_self :
    (cache : List TokenEntry) (scope token : Bytes) (exp : ℤ) (e : TokenEntry)
    → find cache scope ≡ some e
    → find (overwrite cache scope token exp) scope ≡ some (record e { token = token; exp = exp })
unfolding find overwrite
find-overwrite_self [] scope token exp e h = cc
find-overwrite_self (d ∷ cache) scope token exp e h =
    ground (arith, find-overwrite_self cache scope token exp e)

-- The cache after `scope` is given `token`: `e` is the stored entry.
pub record IsStored (cache : List TokenEntry) (scope token : Bytes) (exp : ℤ)
    (cache' : List TokenEntry) (e : TokenEntry) : Type 0 where
  pub stored : find cache' scope ≡ some e
  pub token_kept : e.token ≡ token
  pub answers :
      (other : Bytes)
      → token_at cache' other
        ≡ (if bytes_eq scope other then some (token, exp) else token_at cache other)
  pub is_map : IsMap cache → IsMap cache'

overwrite-IsStored :
    (cache : List TokenEntry) (scope token : Bytes) (exp : ℤ) (e : TokenEntry)
    → find cache scope ≡ some e
    → IsStored cache scope token exp
        (overwrite cache scope token exp)
        (record e { token = token; exp = exp })
overwrite-IsStored cache scope token exp e h = record {
  stored = find-overwrite_self cache scope token exp e h;
  token_kept = refl;
  answers = λ other. token_at-overwrite cache scope token other exp (λ gone. cc);
  is_map = overwrite-IsMap cache scope token exp;
}

prepend-IsStored :
    (cache : List TokenEntry) (scope token : Bytes) (exp : ℤ) (e : TokenEntry)
    → find cache scope ≡ none
    → e ≡ record { scope = scope; token = token; exp = exp }
    → IsStored cache scope token exp (e ∷ cache) e
unfolding find
prepend-IsStored cache scope token exp e h same = record {
  stored = ground (arith, bytes_eq_refl scope);
  token_kept = ground arith;
  answers = λ other. ground arith;
  is_map = λ m. entry (ground arith) m;
}

module _ ⦃E : Env⦄ where
  put-cases :
      (cache cache' : List TokenEntry) (scope token : Bytes) (exp : ℤ) (e : TokenEntry)
      (s s' : State E.World)
      → put cache scope token exp s ≡ (ok (some (cache', e)), s')
      → ((find cache scope ≡ none)
          × (e ≡ record { scope = scope; token = token; exp = exp })
          × (cache' ≡ e ∷ cache))
        ⊎ ((d : TokenEntry) × (find cache scope ≡ some d)
            × (e ≡ record d { token = token; exp = exp })
            × (cache' ≡ overwrite cache scope token exp))
  unfolding put
  put-cases cache cache' scope token exp e s s' h = elim (Option-cases (find cache scope)) [
    | inl new ↦ inl (new, ground arith, ground arith)
    | inr (d, old) ↦ inr (d, old, ground arith, ground arith)
  ]

  -- Where `cache_put` gives an entry, that is the entry of its scope from then on and holds the
  -- token; every other scope is answered as before, and a cache without double scopes stays one.
  pub put-IsStored :
      (cache cache' : List TokenEntry) (scope token : Bytes) (exp : ℤ) (e : TokenEntry)
      (s s' : State E.World)
      → put cache scope token exp s ≡ (ok (some (cache', e)), s')
      → IsStored cache scope token exp cache' e
  put-IsStored cache cache' scope token exp e s s' h =
      elim (put-cases cache cache' scope token exp e s s' h) [
        | inl (new, same, grown) ↦ rw grown (prepend-IsStored cache scope token exp e new same)
        | inr (d, old, same, kept) ↦
            rw (kept, same) (overwrite-IsStored cache scope token exp d old)
      ]

  -- In a cache where no scope has two entries: where `cache_put` gives an entry, the entry holds
  -- the token; the cache answers its scope with the token and its expiry and every other scope as
  -- before, and still no scope has two entries.
  pub put-token_at :
      (cache cache' : List TokenEntry) (scope token other : Bytes) (exp : ℤ) (e : TokenEntry)
      (s s' : State E.World)
      → IsMap cache
      → put cache scope token exp s ≡ (ok (some (cache', e)), s')
      → (e.token ≡ token)
        × (token_at cache' other
            ≡ (if bytes_eq scope other then some (token, exp) else token_at cache other))
        × IsMap cache'
  put-token_at cache cache' scope token other exp e s s' m h =
      let w = put-IsStored cache cache' scope token exp e s s' h in
      (w.token_kept, w.answers other, w.is_map m)
