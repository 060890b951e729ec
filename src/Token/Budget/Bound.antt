-- ===== src/Token/Budget/Bound.antt =====
-- The requests that one acquisition of a token costs (src/proto_auth.c). The check-in that may
-- recover it is run once, so the recoveries add up and do not multiply.
use encedo_hem_c_api.Prelude.{ℕ, ◌+◌, ◌≤◌, Bool, true, Option, none, some, Bytes, codes, arith}
use encedo_hem_c_api.Prelude.Int.{ℤ}
use encedo_hem_c_api.Rc.{Rc, nomem, protocol}
use encedo_hem_c_api.Env.{Env, Result, ok, err, get, post, default}
use encedo_hem_c_api.Checkin.{checkin_run, no_ensure}
use encedo_hem_c_api.Json.{json_get_string}
use encedo_hem_c_api.Monad.{State, return}
use encedo_hem_c_api.Request.Budget.{
  SendCount, Sends, Sends-bind, Sends-le, Sends-return, Sends-fail, Sends-attempt, Sends-get_ctx,
  Sends-test,
}
use encedo_hem_c_api.Request.Budget.Bound.{
  AnyTimeout, Sends-request_plain, Sends-request_json, Sends-checkin_run,
}
use encedo_hem_c_api.Token.{token_path, key_of, Recovery}
use encedo_hem_c_api.Token.Store.{expiry}
use encedo_hem_c_api.Token.Challenge.{
  token_in, post_body, after_rescue, rescue, is_rescuable, after_challenge, challenge_request,
  fetch_challenge, redeem_ejwt, admit_bearer, after_derivation, answer_challenge, with_key,
  with_fields, malformed_challenge, use_challenge, after_fetch, after_init, acquire_token,
  drift_evident,
}
use encedo_hem_c_api.Token.Budget.{LocalCount}
use encedo_hem_c_api.Token.Budget.Local.{
  Sends-build_auth_body, Sends-derive_ejwt, Sends-decode_bearer_exp, Sends-store_token,
  Sends-keep_username, Sends-scrub, Sends-global_init,
}

module _ ⦃E : Env⦄ (count : SendCount) (fits : ℕ → Type 0) (local : LocalCount count) where
  open count use {sends}

  pub Sends-challenge_request : Sends count fits 5 challenge_request
  Sends-challenge_request =
      Sends-request_json count fits (checkin_run true) no_ensure get token_path none none default
        (Sends-request_plain count fits no_ensure get token_path none default)

  Sends-token_in : (o : Option Bytes) → Sends count fits 0 (token_in o)
  Sends-token_in none = Sends-fail count fits protocol 200 none _
  Sends-token_in (some token) = Sends-return count fits token

  Sends-post_body : (body : Option Bytes) → Sends count fits 5 (post_body body)
  Sends-post_body none = Sends-le count fits (Sends-fail count fits nomem 0 none _) (omega arith)
  Sends-post_body (some b) =
      Sends-bind count fits
        (Sends-request_json count fits (checkin_run true) no_ensure post token_path (some b) none
          default (Sends-request_plain count fits no_ensure post token_path (some b) default))
        λ result. Sends-token_in (json_get_string (some result) (some (codes "token")))

  Sends-redeem_ejwt : (ejwt : Bytes) → Sends count fits 5 (redeem_ejwt ejwt)
  unfolding redeem_ejwt
  Sends-redeem_ejwt ejwt =
      Sends-bind count fits (Sends-build_auth_body count fits local ejwt) Sends-post_body

  Sends-admit_bearer :
      (scope : Bytes) (now : ℤ) (token : Bytes) → Sends count fits 0 (admit_bearer scope now token)
  Sends-admit_bearer scope now token =
      Sends-bind count fits (Sends-decode_bearer_exp count fits local token) λ real_exp.
        Sends-bind count fits (Sends-store_token count fits local scope token (expiry now real_exp))
          λ stored.
            Sends-bind count fits (Sends-scrub count fits local) λ u. Sends-return count fits stored

  Sends-after_derivation :
      (scope : Bytes) (now : ℤ) (r : Result Bytes)
      → Sends count fits 5 (after_derivation scope now r)
  unfolding after_derivation
  Sends-after_derivation scope now (err rc) =
      Sends-le count fits (Sends-fail count fits protocol 0 none _) (omega arith)
  Sends-after_derivation scope now (ok ejwt) =
      Sends-bind count fits (Sends-redeem_ejwt ejwt) (Sends-admit_bearer scope now)

  Sends-with_key :
      (passphrase scope : Bytes) (now : ℤ) (eid spk jti : Bytes) (key : Option Bytes)
      → Sends count fits 5 (with_key passphrase scope now eid spk jti key)
  unfolding answer_challenge
  Sends-with_key passphrase scope now eid spk jti none =
      Sends-le count fits (Sends-fail count fits protocol 0 none _) (omega arith)
  Sends-with_key passphrase scope now eid spk jti (some peer_pub) =
      Sends-bind count fits
        (Sends-attempt count fits
          (Sends-derive_ejwt count fits local passphrase eid jti spk peer_pub scope now))
        (Sends-after_derivation scope now)

  Sends-malformed : Sends count fits {A = Bytes} 5 malformed_challenge
  unfolding malformed_challenge
  Sends-malformed = Sends-le count fits (Sends-fail count fits protocol 0 none _) (omega arith)

  Sends-with_fields :
      (passphrase scope : Bytes) (now : ℤ) (eid spk jti lbl : Option Bytes)
      → Sends count fits 5 (with_fields passphrase scope now eid spk jti lbl)
  Sends-with_fields passphrase scope now (some eid) (some spk) (some jti) lbl =
      Sends-bind count fits (Sends-keep_username count fits local lbl)
        λ u. Sends-with_key passphrase scope now eid spk jti (key_of spk)
  Sends-with_fields passphrase scope now none spk jti lbl = Sends-malformed
  Sends-with_fields passphrase scope now (some eid) none jti lbl = Sends-malformed
  Sends-with_fields passphrase scope now (some eid) (some spk) none lbl = Sends-malformed

  pub Sends-use_challenge :
      (passphrase scope : Bytes) (now : ℤ) (challenge : E.Node)
      → Sends count fits 5 (use_challenge passphrase scope now challenge)
  unfolding use_challenge
  Sends-use_challenge passphrase scope now challenge =
      Sends-with_fields passphrase scope now _ _ _ _

  pub Sends-after_rescue :
      (rc : Rc) (c : Result (Unit {0})) → Sends count fits 5 (after_rescue rc c)
  Sends-after_rescue rc (ok u) =
      Sends-bind count fits (Sends-attempt count fits Sends-challenge_request)
        λ r. Sends-return count fits (true, r)
  Sends-after_rescue rc (err e) =
      Sends-le count fits
        (Sends-bind count fits (Sends-get_ctx count fits) λ ctx.
          Sends-bind count fits (Sends-attempt count fits (Sends-fail count fits rc 403 none _))
            λ r. Sends-return count fits (true, r))
        (omega arith)

  pub Sends-rescue : (rc : Rc) → Sends count fits 8 (rescue rc)
  Sends-rescue rc =
      Sends-bind count fits (Sends-attempt count fits (Sends-checkin_run count fits true))
        (Sends-after_rescue rc)

  Sends-after_challenge :
      (spent : Bool) (r : Result E.Node) → Sends count fits 8 (after_challenge spent r)
  Sends-after_challenge spent (ok challenge) = record { bound = λ s h. (h, omega arith) }
  Sends-after_challenge spent (err rc) =
      Sends-test count fits (λ s. is_rescuable spent s.ctx) (λ s. rescue rc)
        (λ s. return (spent, err rc)) (λ s. Sends-rescue rc)
        (λ s. Sends-le count fits (Sends-return count fits (spent, err rc)) (omega arith))

  Sends-fetch_challenge : (spent : Bool) → Sends count fits 13 (fetch_challenge spent)
  unfolding fetch_challenge
  Sends-fetch_challenge spent =
      Sends-bind count fits (Sends-attempt count fits Sends-challenge_request)
        (Sends-after_challenge spent)

  Sends-after_fetch :
      (passphrase scope : Bytes) (now : ℤ) (flags : Recovery) (f : Bool × Result E.Node)
      → Sends count fits 5 (after_fetch passphrase scope now flags f)
  Sends-after_fetch passphrase scope now flags (spent, err rc) =
      Sends-le count fits (Sends-return count fits _) (omega arith)
  Sends-after_fetch passphrase scope now flags (spent, ok challenge) =
      Sends-bind count fits
        (Sends-attempt count fits (Sends-use_challenge passphrase scope now challenge))
        λ r.
          Sends-return count fits (record { spent = spent; drift = drift_evident challenge now }, r)

  Sends-after_init :
      (passphrase scope : Bytes) (now : ℤ) (flags : Recovery) (g : Result (Unit {0}))
      → Sends count fits 18 (after_init passphrase scope now flags g)
  Sends-after_init passphrase scope now flags (err rc) =
      Sends-le count fits
        (Sends-bind count fits (Sends-attempt count fits (Sends-fail count fits rc 0 none _))
          λ r. Sends-return count fits (flags, r))
        (omega arith)
  Sends-after_init passphrase scope now flags (ok u) =
      Sends-bind count fits (Sends-fetch_challenge flags.spent)
        (Sends-after_fetch passphrase scope now flags)

  Sends-acquire_token :
      (passphrase scope : Bytes) (now : ℤ) (flags : Recovery)
      → Sends count fits 18 (acquire_token passphrase scope now flags)
  unfolding acquire_token
  Sends-acquire_token passphrase scope now flags =
      Sends-bind count fits (Sends-attempt count fits (Sends-global_init count fits local))
        (Sends-after_init passphrase scope now flags)

module _ ⦃E : Env⦄ (count : SendCount) (local : LocalCount count) where
  open count use {sends}

  -- One acquisition of a token makes at most 18 transport requests, whatever the device answers
  -- and however it ends: the challenge costs at most 5, its one recovery by a check-in 3 and the
  -- challenge again 5, and the exchange of the signed token 5. Only the transport's send advances
  -- the count, and that by one a call.
  pub acquire_token-sends :
      (passphrase scope : Bytes) (now : ℤ) (flags : Recovery) (s : State E.World)
      → sends (acquire_token passphrase scope now flags s).1.world ≤ sends s.world + 18
  acquire_token-sends passphrase scope now flags s =
      ((Sends-acquire_token count AnyTimeout local passphrase scope now flags).bound s tt).1
