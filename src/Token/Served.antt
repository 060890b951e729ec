-- ===== src/Token/Served.antt =====
-- How long src/proto_auth.c serves a token from its cache, and what ends that.
use encedo_hem_c_api.Prelude.{
  ℕ, Bool, true, false, ◌||◌, Option, none, some, List, Bytes, bytes_eq, bytes_eq_refl, ◌≡◌, refl,
  ◌∙◌, inl, inr, arith, Bool-cases, Option-cases, if◌then◌else◌,
}
use encedo_hem_c_api.Prelude.Int.{ℤ, pos, ◌+ℤ◌, ◌-ℤ◌, ltb_ℤ, +ℤ_parts, -ℤ_parts}
use encedo_hem_c_api.Rc.{auth_expired}
use encedo_hem_c_api.Env.{Env, Result, ok, err}
use encedo_hem_c_api.Context.{Ctx, Auth, TokenEntry, clear_error}
use encedo_hem_c_api.Context.Fail.{fail}
use encedo_hem_c_api.Cache.{find, unlink, put}
use encedo_hem_c_api.Cache.Laws.{token_at, IsMap, token_at-unlink, put-IsStored}
use encedo_hem_c_api.Monad.{State, Prog, bind_result}
use encedo_hem_c_api.Session.{auth_or_new, ensure_auth, invalidate_in, auth_invalidate, logout}
use encedo_hem_c_api.Checkin.Frame.{checkin_run-ctx}
use encedo_hem_c_api.Token.{cached_token, drifts, challenge_deadline, token_skew}
use encedo_hem_c_api.Token.Store.{keep_entry, store_token}
use encedo_hem_c_api.Token.Ensure.{is_due, proactive_checkin, ensure_missing, ensure_token}
use encedo_hem_c_api.Monad.Post.{Post, Gives-fail, after_given, post-ok}

-- The token of a scope with its expiry.
abbrev lookup : Option Auth → Bytes → Option (Bytes × ℤ)
lookup none scope = none
lookup (some a) scope = token_at a.cache scope

abbrev serve : ℤ → Option (Bytes × ℤ) → Option Bytes
serve now none = none
serve now (some (token, exp)) = if ltb_ℤ now exp then some token else none

serve-if :
    (now : ℤ) (b : Bool) (x y : Option (Bytes × ℤ))
    → serve now (if b then x else y) ≡ (if b then serve now x else serve now y)
serve-if now true x y = refl
serve-if now false x y = refl

cached_token-serve :
    (auth : Option Auth) (scope : Bytes) (now : ℤ)
    → cached_token auth scope now ≡ serve now (lookup auth scope)
unfolding cached_token
cached_token-serve none scope now = refl
cached_token-serve (some a) scope now = elim (Option-cases (find a.cache scope)) [
  | inl gone ↦ rw gone
  | inr (e, there) ↦ rw there
]

-- What a look into the cache gives at the time `now`, once `scope` has the token until `exp`.
abbrev pub served_after : Option Auth → Bytes → Bytes → ℤ → Bytes → ℤ → Option Bytes
served_after auth scope token exp other now =
    if bytes_eq scope other
    then (if ltb_ℤ now exp then some token else none)
    else cached_token auth other now

is_due-done : (c : Ctx) → c.checkin_on_login_done ≡ true → is_due c ≡ false
unfolding is_due
is_due-done c h = ground arith

module _ ⦃E : Env⦄ where
  module _ (scope token : Bytes) (exp : ℤ) (auth : Option Auth) where
    -- The condition on a stored token and the context it is stored in.
    abbrev IsServed : Bytes → Ctx → Type 0
    IsServed stored c =
        (stored ≡ token)
        × ((other : Bytes)
            → lookup c.auth other
              ≡ (if bytes_eq scope other then some (token, exp) else lookup auth other))

    keep_entry-IsServed :
        (a : Auth) (r : Result (Option (List TokenEntry × TokenEntry)) × State E.World)
        (s : State E.World)
        → ((other : Bytes) → token_at a.cache other ≡ lookup auth other)
        → put a.cache scope token exp s ≡ r
        → Post IsServed (bind_result r (keep_entry a))
    unfolding keep_entry
    keep_entry-IsServed a (err rc, s') s same h = tt
    keep_entry-IsServed a (ok none, s') s same h = (Gives-fail IsServed _ 0 none _).holds s'
    keep_entry-IsServed a (ok (some (cache, e)), s') s same h =
        let w = put-IsStored a.cache cache scope token exp e s s' h in
        (w.token_kept, λ other. rw (w.answers other, same other))

  IsKept : Option Auth → Auth → Ctx → Type 0
  IsKept auth a c = (other : Bytes) → token_at a.cache other ≡ lookup auth other

  auth_or_new-IsKept :
      (auth : Option Auth) (s : State E.World) → Post (IsKept auth) (auth_or_new auth s)
  unfolding IsKept find
  auth_or_new-IsKept (some a) s = λ other. refl
  auth_or_new-IsKept none s = elim (Bool-cases (E.alloc s.world).0) [
    | inl room ↦ rw room (λ other. refl)
    | inr full ↦ rw full ((Gives-fail (IsKept none) _ 0 none _).holds _)
  ]

  ensure_auth-IsKept : (s : State E.World) → Post (IsKept s.ctx.auth) (ensure_auth s)
  unfolding ensure_auth
  ensure_auth-IsKept s = auth_or_new-IsKept s.ctx.auth s

  store_token-IsServed :
      (scope token : Bytes) (exp : ℤ) (s : State E.World)
      → Post (IsServed scope token exp s.ctx.auth) (store_token scope token exp s)
  unfolding store_token IsKept
  store_token-IsServed scope token exp s =
      after_given (IsServed scope token exp s.ctx.auth) (IsKept s.ctx.auth) (ensure_auth s) _
        (ensure_auth-IsKept s)
        λ a s' same. keep_entry-IsServed scope token exp s.ctx.auth a _ s' same refl

  -- A stored token is served from the cache, under its scope, until its time is up and not after
  -- that; what is served for any other scope, at any time, is as before.
  pub store_token-cached_token :
      (scope token stored other : Bytes) (exp now : ℤ) (s s' : State E.World)
      → store_token scope token exp s ≡ (ok stored, s')
      → (stored ≡ token)
        × (cached_token s'.ctx.auth other now ≡ served_after s.ctx.auth scope token exp other now)
  store_token-cached_token scope token stored other exp now s s' h =
      let (same, looked) =
        post-ok (IsServed scope token exp s.ctx.auth) _ stored s'
          (store_token-IsServed scope token exp s) h in
      (
        same,
        rw
            (
              cached_token-serve s'.ctx.auth other now,
              cached_token-serve s.ctx.auth other now,
              looked other,
            )
            (serve-if now (bytes_eq scope other) _ _),
      )

  -- A token just stored, for as long as it has not expired, is given out without a request: the
  -- clock is read, and that is all that happens.
  pub store_token-ensure_token :
      (confirm : Bytes → ℕ → Prog (Unit {0})) (scope token stored : Bytes) (exp : ℤ)
      (s s' : State E.World)
      → store_token scope token exp s ≡ (ok stored, s')
      → ltb_ℤ (E.now s'.world).0 exp ≡ true
      → ensure_token confirm scope s' ≡ (ok token, record s' { world = (E.now s'.world).1 })
  unfolding ensure_token
  store_token-ensure_token confirm scope token stored exp s s' h fresh =
      let now = (E.now s'.world).0 in
      let hit : cached_token s'.ctx.auth scope now ≡ some token =
        (store_token-cached_token scope token stored scope exp now s s' h).1
        ∙ rw (bytes_eq_refl scope, fresh) in
      rw hit

  -- In a session whose cache has no two entries for a scope, dropping a scope's token (as a 401
  -- does) leaves nothing to serve for that scope at any time, and every other scope as it was; and
  -- still no scope has two entries.
  pub auth_invalidate-cached_token :
      (scope other : Bytes) (now : ℤ) (a : Auth) (s : State E.World)
      → s.ctx.auth ≡ some a
      → IsMap a.cache
      → (cached_token (auth_invalidate (some scope) s).1.ctx.auth other now
          ≡ (if bytes_eq scope other then none else cached_token s.ctx.auth other now))
        × ((a' : Auth) × ((auth_invalidate (some scope) s).1.ctx.auth ≡ some a') × IsMap a'.cache)
  unfolding auth_invalidate invalidate_in
  auth_invalidate-cached_token scope other now a s e m =
      let (gone, is_map) = token_at-unlink a.cache scope other m in
      (
        rw
            (
              e,
              cached_token-serve (some (record a { cache = unlink a.cache scope })) other now,
              cached_token-serve (some a) other now,
              gone,
            )
            (serve-if now (bytes_eq scope other) none (token_at a.cache other)),
        (record a { cache = unlink a.cache scope }, rw e, is_map),
      )

  -- After a logout there is no way to a token: for whatever scope, the answer is that a login is
  -- needed, and nothing but the clock is asked for it.
  pub logout-ensure_token :
      (confirm : Bytes → ℕ → Prog (Unit {0})) (scope : Bytes) (s : State E.World)
      → ((ensure_token confirm scope (logout s).1).0 ≡ err auth_expired)
        × ((ensure_token confirm scope (logout s).1).1.world ≡ (E.now s.world).1)
  unfolding logout clear_error ensure_token cached_token ensure_missing fail
  logout-ensure_token confirm scope s = (refl, refl)

  proactive_checkin-off :
      (s : State E.World) → is_due s.ctx ≡ false → proactive_checkin s ≡ (ok false, s)
  unfolding proactive_checkin
  proactive_checkin-off s h = rw h

  proactive_checkin-not_due :
      (s : State E.World) → is_due s.ctx ≡ true → is_due (proactive_checkin s).1.ctx ≡ false
  unfolding proactive_checkin
  proactive_checkin-not_due s h =
      let begun = record s { ctx = record (s.ctx) { checkin_on_login_done = true } } in
      rw (h, checkin_run-ctx true begun) (is_due-done _ refl)

  -- The check-in on login is not repeated: a second call, right behind the first, does nothing,
  -- whether the first ran the check-in or not and however that ended.
  pub proactive_checkin-once :
      (s : State E.World)
      → proactive_checkin (proactive_checkin s).1 ≡ (ok false, (proactive_checkin s).1)
  proactive_checkin-once s = elim (Bool-cases (is_due s.ctx)) [
    | inl due ↦ proactive_checkin-off _ (proactive_checkin-not_due s due)
    | inr not_due ↦ let same = proactive_checkin-off s not_due in rw same same
  ]

-- The clocks differ exactly if the expiry that the device names, which it sets 60 seconds ahead,
-- is in the past or more than 120 seconds away.
pub drifts-window :
    (exp now : ℤ) → drifts (some exp) now ≡ (ltb_ℤ exp now || ltb_ℤ (now +ℤ pos 120) exp)
unfolding drifts
drifts-window exp now = ground (
  arith,
  -ℤ_parts exp challenge_deadline,
  -ℤ_parts (exp -ℤ challenge_deadline) now,
  -ℤ_parts (pos 0) token_skew,
  +ℤ_parts now (pos 120),
)
