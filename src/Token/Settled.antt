-- ===== src/Token/Settled.antt =====
-- The tokens that src/proto_auth.c gives out, and the passphrase that it keeps.
use encedo_hem_c_api.Prelude.{
  Bool, true, Option, none, some, List, Bytes, ◌≡◌, refl, ap, ◌⊎◌, inl, inr, Bool-cases,
}
use encedo_hem_c_api.Prelude.Int.{ℤ}
use encedo_hem_c_api.Env.{Env, Result, ok, err}
use encedo_hem_c_api.Context.{Ctx, Auth, TokenEntry}
use encedo_hem_c_api.Cache.{put}
use encedo_hem_c_api.Cache.Laws.{put-IsStored}
use encedo_hem_c_api.Monad.{State, attempt, return, bind_result}
use encedo_hem_c_api.Session.{ensure_auth}
use encedo_hem_c_api.Global.{global_init}
use encedo_hem_c_api.Token.{cached, key_of, Recovery, token_of}
use encedo_hem_c_api.Token.Store.{decode_bearer_exp, expiry, keep_entry, store_token}
use encedo_hem_c_api.Token.Challenge.{
  keep_username, derive_ejwt, redeem_ejwt, scrub_in, scrub_unless_retained, hand_out, store_until,
  admit_bearer, after_derivation, answer_challenge, with_key, with_fields, malformed_challenge,
  use_challenge, fetch_challenge, after_fetch, after_init, acquire_token,
}
use encedo_hem_c_api.Monad.Post.{
  OnOk, Post, Gives, Gives-fail, Gives-bind, Gives-bind_with, post-ok,
}

-- The token is the one that the cache holds for the scope.
abbrev pub IsCached : Bytes → Bytes → Ctx → Type 0
IsCached scope token c = cached c.auth scope ≡ some token

-- A session that is not to keep the passphrase does not have it.
abbrev pub IsDiscreet : Option Auth → Type 0
IsDiscreet none = Unit
IsDiscreet (some a) = (a.retain ≡ true) ⊎ (a.passphrase ≡ none)

abbrev pub IsSettled : Bytes → Bytes → Ctx → Type 0
IsSettled scope token c = IsCached scope token c × IsDiscreet c.auth

module _ ⦃E : Env⦄ where
  keep_entry-IsCached :
      (a : Auth) (scope token : Bytes) (exp : ℤ)
      (r : Result (Option (List TokenEntry × TokenEntry)) × State E.World) (s : State E.World)
      → put a.cache scope token exp s ≡ r
      → Post (IsCached scope) (bind_result r (keep_entry a))
  unfolding keep_entry
  keep_entry-IsCached a scope token exp (err rc, s') s h = tt
  keep_entry-IsCached a scope token exp (ok none, s') s h =
      (Gives-fail (IsCached scope) _ 0 none _).holds s'
  keep_entry-IsCached a scope token exp (ok (some (cache, e)), s') s h =
      ap token_of (put-IsStored a.cache cache scope token exp e s s' h).stored

  pub store_token-IsCached :
      (scope token : Bytes) (exp : ℤ) → Gives (IsCached scope) (store_token scope token exp)
  unfolding store_token
  store_token-IsCached scope token exp =
      Gives-bind (IsCached scope) ensure_auth _
        λ a. record { holds = λ s. keep_entry-IsCached a scope token exp _ s refl }

  scrub_in-IsSettled :
      (scope token : Bytes) (auth : Option Auth) (s : State E.World)
      → s.ctx.auth ≡ auth
      → IsCached scope token s.ctx
      → Post (IsSettled scope) (bind_result (scrub_in auth s) λ _. return token)
  scrub_in-IsSettled scope token none s e h = (h, rw e tt)
  scrub_in-IsSettled scope token (some a) s e h = elim (Bool-cases a.retain) [
    | inl keeps ↦ rw keeps (h, rw e (inl keeps))
    | inr drops ↦ rw drops (rw e at h, inr refl)
  ]

  after_derivation-IsSettled :
      (scope : Bytes) (now : ℤ) (r : Result Bytes)
      → Gives (IsSettled scope) (after_derivation scope now r)
  unfolding after_derivation scrub_unless_retained
  after_derivation-IsSettled scope now (err rc) = Gives-fail (IsSettled scope) _ 0 none _
  after_derivation-IsSettled scope now (ok ejwt) =
      let P = IsSettled scope in
      Gives-bind P (redeem_ejwt ejwt) (admit_bearer scope now) λ token.
        Gives-bind P (decode_bearer_exp token) (store_until scope now token) λ real_exp.
          Gives-bind_with P hand_out (store_token-IsCached scope token (expiry now real_exp))
            λ stored s h. scrub_in-IsSettled scope stored s.ctx.auth s refl h

  with_key-IsSettled :
      (passphrase scope : Bytes) (now : ℤ) (eid spk jti : Bytes) (key : Option Bytes)
      → Gives (IsSettled scope) (with_key passphrase scope now eid spk jti key)
  with_key-IsSettled passphrase scope now eid spk jti none = Gives-fail (IsSettled scope) _ 0 none _
  with_key-IsSettled passphrase scope now eid spk jti (some peer_pub) =
      unfold answer_challenge in
      Gives-bind (IsSettled scope) (attempt (derive_ejwt passphrase eid jti spk peer_pub scope now))
        (after_derivation scope now) (after_derivation-IsSettled scope now)

  Gives-malformed : {P : Bytes → Ctx → Type 0} → Gives P malformed_challenge
  unfolding malformed_challenge
  Gives-malformed {P} = Gives-fail P _ 0 none _

  with_fields-IsSettled :
      (passphrase scope : Bytes) (now : ℤ) (eid spk jti lbl : Option Bytes)
      → Gives (IsSettled scope) (with_fields passphrase scope now eid spk jti lbl)
  with_fields-IsSettled passphrase scope now (some eid) (some spk) (some jti) lbl =
      Gives-bind (IsSettled scope) (keep_username lbl)
        (λ _. with_key passphrase scope now eid spk jti (key_of spk))
        λ _. with_key-IsSettled passphrase scope now eid spk jti (key_of spk)
  with_fields-IsSettled passphrase scope now none spk jti lbl = Gives-malformed
  with_fields-IsSettled passphrase scope now (some eid) none jti lbl = Gives-malformed
  with_fields-IsSettled passphrase scope now (some eid) (some spk) none lbl = Gives-malformed

  -- The result inside a pair, as `acquire_token` gives it with its flags.
  abbrev pub InPair : (Bytes → Ctx → Type 0) → Recovery × Result Bytes → Ctx → Type 0
  InPair P (flags, r) c = OnOk P r c

  after_fetch-IsSettled :
      (passphrase scope : Bytes) (now : ℤ) (flags : Recovery) (fetched : Bool × Result E.Node)
      → Gives (InPair (IsSettled scope)) (after_fetch passphrase scope now flags fetched)
  after_fetch-IsSettled passphrase scope now flags (spent, err rc) = record { holds = λ s. tt }
  after_fetch-IsSettled passphrase scope now flags (spent, ok challenge) = record {
    holds =
        λ s. unfold use_challenge in (with_fields-IsSettled passphrase scope now _ _ _ _).holds s;
  }

  pub acquire_token-Gives :
      (passphrase scope : Bytes) (now : ℤ) (flags : Recovery)
      → Gives (InPair (IsSettled scope)) (acquire_token passphrase scope now flags)
  unfolding acquire_token
  acquire_token-Gives passphrase scope now flags =
      let P = InPair (IsSettled scope) in
      Gives-bind P (attempt global_init) (after_init passphrase scope now flags) begun
    where
      begun :
          (g : Result (Unit {0}))
          → Gives (InPair (IsSettled scope)) (after_init passphrase scope now flags g)
      begun (err rc) = record { holds = λ s. (Gives-fail (IsSettled scope) rc 0 none _).holds s }
      begun (ok _) =
          Gives-bind (InPair (IsSettled scope)) (fetch_challenge flags.spent)
            (after_fetch passphrase scope now flags)
            (after_fetch-IsSettled passphrase scope now flags)

  -- A login that succeeds ends with the token in the cache, under the scope it was asked for, and
  -- with no passphrase left behind unless the session is to keep it. That holds whatever the device
  -- answered on the way, and whatever recovery it took.
  pub acquire_token-IsSettled :
      (passphrase scope : Bytes) (now : ℤ) (flags flags' : Recovery) (token : Bytes)
      (s s' : State E.World)
      → acquire_token passphrase scope now flags s ≡ (ok (flags', ok token), s')
      → IsSettled scope token s'.ctx
  acquire_token-IsSettled passphrase scope now flags flags' token s s' h =
      post-ok (InPair (IsSettled scope)) _ (flags', ok token) s'
        ((acquire_token-Gives passphrase scope now flags).holds s) h
