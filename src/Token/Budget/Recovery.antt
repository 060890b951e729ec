-- ===== src/Token/Budget/Recovery.antt =====
-- The recovery of a refused challenge (src/proto_auth.c: fetch_challenge and acquire_token), as
-- requests that are paid for in advance: where it is not spent, what it would cost is left.
use encedo_hem_c_api.Prelude.{ℕ, Bool, true, false, none, Bytes, ◌≡◌, arith}
use encedo_hem_c_api.Prelude.Int.{ℤ}
use encedo_hem_c_api.Rc.{Rc}
use encedo_hem_c_api.Env.{Env, Result, ok, err}
use encedo_hem_c_api.Monad.{return}
use encedo_hem_c_api.Request.Budget.{
  SendCount, Sends, Sends-bind, Sends-le, Sends-return, Sends-fail, Sends-attempt, Sends-get_ctx,
}
use encedo_hem_c_api.Request.Budget.Bound.{Sends-checkin_run}
use encedo_hem_c_api.Token.{Recovery}
use encedo_hem_c_api.Token.Challenge.{
  is_rescuable, rescue, after_rescue, after_challenge, fetch_challenge, after_fetch, after_init,
  acquire_token, drift_evident,
}
use encedo_hem_c_api.Token.Budget.{LocalCount}
use encedo_hem_c_api.Token.Budget.Local.{Sends-global_init}
use encedo_hem_c_api.Token.Budget.Bound.{Sends-challenge_request, Sends-use_challenge}
use encedo_hem_c_api.Token.Budget.Left.{
  Leaves, Leaves-return, Leaves-bind, Leaves-then, Leaves-le, Leaves-test,
}

-- What is still to be spent behind the challenge, and behind the acquisition.
abbrev challenge_left : {A : Type 0} → Bool × A → ℕ
challenge_left (true, r) = 5
challenge_left (false, r) = 18

abbrev pub drift_left : Bool → ℕ
drift_left true = 0
drift_left false = 13

abbrev pub acquired_left : {A : Type 0} → Recovery × A → ℕ
acquired_left (flags, r) = drift_left flags.spent

module _ ⦃E : Env⦄ (count : SendCount) (fits : ℕ → Type 0) (local : LocalCount count) where
  Leaves-after_rescue :
      (rc : Rc) (c : Result (Unit {0})) → Leaves count fits 10 challenge_left (after_rescue rc c)
  Leaves-after_rescue rc (ok u) =
      Leaves-bind count fits (Sends-attempt count fits (Sends-challenge_request count fits local))
        λ r. Leaves-return count fits (true, r)
  Leaves-after_rescue rc (err e) =
      Leaves-le count fits
        (Leaves-bind count fits (Sends-get_ctx count fits) λ ctx.
          Leaves-bind count fits (Sends-attempt count fits (Sends-fail count fits rc 403 none _))
            λ r. Leaves-return count fits (true, r))
        (omega arith)

  Leaves-rescue : (rc : Rc) → Leaves count fits 18 challenge_left (rescue rc)
  Leaves-rescue rc =
      Leaves-le count fits
        (Leaves-bind count fits (Sends-attempt count fits (Sends-checkin_run count fits true))
          (Leaves-after_rescue rc))
        (omega arith)

  Leaves-after_challenge :
      (r : Result E.Node) → Leaves count fits 18 challenge_left (after_challenge false r)
  Leaves-after_challenge (ok challenge) = record { covered = λ s h. (h, omega arith) }
  Leaves-after_challenge (err rc) =
      Leaves-test count fits (λ s. is_rescuable false s.ctx) (λ s. rescue rc)
        (λ s. return (false, err rc)) (λ s. Leaves-rescue rc)
        (λ s. Leaves-return count fits (false, err rc))

  Leaves-fetch_challenge : Leaves count fits 23 challenge_left (fetch_challenge false)
  unfolding fetch_challenge
  Leaves-fetch_challenge =
      Leaves-bind count fits (Sends-attempt count fits (Sends-challenge_request count fits local))
        Leaves-after_challenge

  Leaves-after_fetch :
      (passphrase scope : Bytes) (now : ℤ) (drift : Bool) (f : Bool × Result E.Node)
      → Leaves count fits
          (challenge_left f)
          acquired_left
          (after_fetch passphrase scope now (record { spent = false; drift = drift }) f)
  Leaves-after_fetch passphrase scope now drift (true, err rc) =
      Leaves-le count fits
        (Leaves-return count fits (record { spent = true; drift = drift }, err rc)) (omega arith)
  Leaves-after_fetch passphrase scope now drift (false, err rc) =
      Leaves-le count fits
        (Leaves-return count fits (record { spent = false; drift = drift }, err rc)) (omega arith)
  Leaves-after_fetch passphrase scope now drift (true, ok challenge) =
      Leaves-bind count fits
        (Sends-attempt count fits
          (Sends-use_challenge count fits local passphrase scope now challenge))
        λ r.
          Leaves-return count fits (record { spent = true; drift = drift_evident challenge now }, r)
  Leaves-after_fetch passphrase scope now drift (false, ok challenge) =
      Leaves-bind count fits
        (Sends-attempt count fits
          (Sends-use_challenge count fits local passphrase scope now challenge))
        λ r.
          Leaves-return count fits
            (record { spent = false; drift = drift_evident challenge now }, r)

  Leaves-after_init :
      (passphrase scope : Bytes) (now : ℤ) (drift : Bool) (g : Result (Unit {0}))
      → Leaves count fits 23 acquired_left
          (after_init passphrase scope now (record { spent = false; drift = drift }) g)
  Leaves-after_init passphrase scope now drift (err rc) =
      Leaves-le count fits
        (Leaves-bind count fits (Sends-attempt count fits (Sends-fail count fits rc 0 none _))
          λ r. Leaves-return count fits (record { spent = false; drift = drift }, r))
        (omega arith)
  Leaves-after_init passphrase scope now drift (ok u) =
      Leaves-then count fits Leaves-fetch_challenge (Leaves-after_fetch passphrase scope now drift)

  pub Leaves-acquire_token :
      (passphrase scope : Bytes) (now : ℤ) (drift : Bool)
      → Leaves count fits 23 acquired_left
          (acquire_token passphrase scope now (record { spent = false; drift = drift }))
  unfolding acquire_token
  Leaves-acquire_token passphrase scope now drift =
      Leaves-bind count fits (Sends-attempt count fits (Sends-global_init count fits local))
        (Leaves-after_init passphrase scope now drift)

  -- With the recovery spent, an acquisition costs 10.
  Sends-fetch_spent : Sends count fits 5 (fetch_challenge true)
  unfolding fetch_challenge
  Sends-fetch_spent =
      Sends-bind count fits (Sends-attempt count fits (Sends-challenge_request count fits local))
        unrescued
    where
      unrescued : (r : Result E.Node) → Sends count fits 0 (after_challenge true r)
      unrescued (ok challenge) = record { bound = λ s h. (h, omega arith) }
      unrescued (err rc) = record {
        bound = λ s h.
            let closed : is_rescuable true s.ctx ≡ false = grind arith in
            rw closed (h, omega arith);
      }

  pub Sends-acquire_spent :
      (passphrase scope : Bytes) (now : ℤ) (drift : Bool)
      → Sends count fits 10
          (acquire_token passphrase scope now (record { spent = true; drift = drift }))
  unfolding acquire_token
  Sends-acquire_spent passphrase scope now drift =
      Sends-bind count fits (Sends-attempt count fits (Sends-global_init count fits local)) inited
    where
      fetched :
          (f : Bool × Result E.Node)
          → Sends count fits 5
              (after_fetch passphrase scope now (record { spent = true; drift = drift }) f)
      fetched (spent, err rc) =
          Sends-le count fits
            (Sends-return count fits (record { spent = spent; drift = drift }, err rc))
            (omega arith)
      fetched (spent, ok challenge) =
          Sends-bind count fits
            (Sends-attempt count fits
              (Sends-use_challenge count fits local passphrase scope now challenge))
            λ r.
              Sends-return count fits
                (record { spent = spent; drift = drift_evident challenge now }, r)

      inited :
          (g : Result (Unit {0}))
          → Sends count fits 10
              (after_init passphrase scope now (record { spent = true; drift = drift }) g)
      inited (err rc) =
          Sends-le count fits
            (Sends-bind count fits (Sends-attempt count fits (Sends-fail count fits rc 0 none _))
              λ r. Sends-return count fits (record { spent = true; drift = drift }, r))
            (omega arith)
      inited (ok u) = Sends-bind count fits Sends-fetch_spent fetched
