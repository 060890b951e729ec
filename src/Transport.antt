-- ===== src/Transport.antt =====
-- src/transport.c: dispatch through the ops table. A transport is the address that leads to the
-- table, `none` for a NULL pointer; `transport_ops` gives `none` where `ops` is NULL.
use encedo_hem_c_api.Prelude.{ℕ, Bool, false, Option, none, some, [], Bytes}
use encedo_hem_c_api.Rc.{Rc, ok_rc, arg}
use encedo_hem_c_api.Env.{Env, Request, Response, Result, ok, err, TransportOps}
use encedo_hem_c_api.Monad.{State, Prog}

-- `ehem_response_free` leaves the response empty; `ehem_request` is by value.
abbrev pub no_response : Response
no_response = record { status = 0; headers = []; body = none }

-- `rc` with the response that came with it, which the caller reads only after `EHEM_OK`.
abbrev pub received : Rc × Response → Result Response
received (ok_rc, resp) = ok resp
received (rc, resp) = err rc

module _ ⦃E : Env⦄ where
  ops_of : Option ℕ → Option (TransportOps E.World)
  ops_of none = none
  ops_of (some t) = E.transport_ops t

  unfoldable pub transport_send : Option ℕ → Request → Prog Response
  unfolding ops_of
  transport_send t req s = elim (ops_of t) [
    | none ↦ (err arg, s)
    | some ops ↦ elim (ops.send) [
      | none ↦ (err arg, s)
      | some send ↦ let (r, w) = send req s.world in (received r, record s { world = w })
    ]
  ]

  unfoldable pub last_detail : Option ℕ → State E.World → Bytes
  unfolding ops_of
  last_detail t s = elim (ops_of t) [
    | none ↦ []
    | some ops ↦ elim (ops.last_detail) [
      | none ↦ []
      | some detail ↦ elim (detail s.world) [ none ↦ [] | some d ↦ d ]
    ]
  ]

  unfoldable pub last_tls_expired : Option ℕ → State E.World → Bool
  unfolding ops_of
  last_tls_expired t s = elim (ops_of t) [
    | none ↦ false
    | some ops ↦ elim (ops.last_tls_expired) [ none ↦ false | some expired ↦ expired s.world ]
  ]

  unfoldable pub transport_destroy : Option ℕ → State E.World → State E.World
  unfolding ops_of
  transport_destroy t s = elim (ops_of t) [
    | none ↦ s
    | some ops ↦ elim (ops.destroy) [
      | none ↦ s
      | some destroy ↦ record s { world = destroy s.world }
    ]
  ]
