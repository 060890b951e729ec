-- ===== src/Context.antt =====
-- src/context.c and src/context.h: the context, its last error, and how it is created. A pointer
-- to a transport, a callback or its argument is the address, `none` or 0 where it is NULL.
pub mod Fail
use encedo_hem_c_api.Prelude.{
  ℕ, zero, suc, ◌+◌, ◌<◌, ◌≤◌, Bool, true, false, not, ◌&&◌, Option, none, some, List, [], ◌∷◌,
  ◌++◌, Bytes, codes, bytes_eq, take, drop, leb, ltb, if◌then◌else◌,
}
use encedo_hem_c_api.Prelude.Int.{ℤ}
use encedo_hem_c_api.Rc.{Rc}
use encedo_hem_c_api.Env.{Env, TlsMode}

-- `ehem_error`
pub record LastError : Type 0 where
  pub http_status : ℕ
  pub device_payload : Option Bytes
  pub message : Bytes
  pub tls_expired : Bool

-- `struct token_entry` and `struct ehem_auth` of src/proto_auth.c; the list is the chain of `next`.
pub record TokenEntry : Type 0 where
  pub scope : Bytes
  pub token : Bytes
  pub exp : ℤ

pub record Auth : Type 0 where
  pub passphrase : Option Bytes
  pub retain : Bool
  pub username : Option Bytes
  pub mobile : Bool
  pub cache : List TokenEntry

-- `struct ehem_ctx`; the payload copy and the message buffer are the fields of `last_error` that
-- point at them.
pub record Ctx : Type 0 where
  pub url : Bytes
  pub connect_timeout_ms : ℕ
  pub total_timeout_ms : ℕ
  pub request_pace_ms : ℕ
  pub tls_mode : TlsMode
  pub ca_file : Option Bytes
  pub transport : Option ℕ
  pub owns_transport : Bool
  pub checkin_url : Bytes
  pub no_auto_checkin : Bool
  pub cert_refreshed : Bool
  pub in_checkin : Bool
  pub checkin_on_login : Bool
  pub checkin_on_login_done : Bool
  pub confirm_timeout_ms : ℕ
  pub confirm_notice : Option ℕ
  pub confirm_notice_arg : ℕ
  pub auth : Option Auth
  pub no_credential_retention : Bool
  pub last_error : LastError

abbrev pub err_msg_max : ℕ
err_msg_max = 256

abbrev pub no_error : LastError
no_error = record { http_status = 0; device_payload = none; message = []; tls_expired = false }

unfoldable pub clear_error : Ctx → Ctx
clear_error ctx = record ctx { last_error = no_error }
