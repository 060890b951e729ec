-- ===== src/Options.antt =====
-- src/context.c: the options and what they make of a context's settings. A context under
-- construction has empty texts where the C code has NULL. The offsets are those of the LP64 data
-- model.
use encedo_hem_c_api.Prelude.{
  ℕ, suc, Bool, true, false, Option, none, some, [], ◌∷◌, Bytes, codes, leb, ◌==◌, if◌then◌else◌,
}
use encedo_hem_c_api.Prelude.Int.{ℤ, pos}
use encedo_hem_c_api.Env.{TlsMode, system, ca_file}
use encedo_hem_c_api.Context.{Ctx, no_error}

-- What is left of a text behind a prefix.
unfoldable pub behind : Bytes → Bytes → Option Bytes
behind [] url = some url
behind (p ∷ ps) [] = none
behind (p ∷ ps) (c ∷ cs) = if p == c then behind ps cs else none

abbrev pub is_filled : Bytes → Bool
is_filled [] = false
is_filled (c ∷ cs) = true

abbrev pub http_host : Option Bytes → Bool
http_host none = false
http_host (some rest) = is_filled rest

abbrev pub https_host : Option Bytes → Bytes → Bool
https_host (some rest) url = is_filled rest
https_host none url = http_host (behind (codes "http://") url)

unfoldable pub url_is_valid : Bytes → Bool
url_is_valid url = https_host (behind (codes "https://") url) url

-- `ehem_options`; a flag is nonzero.
pub record Options : Type 0 where
  pub abi_size : ℕ
  pub connect_timeout_ms : ℤ
  pub total_timeout_ms : ℤ
  pub tls_mode : TlsMode
  pub ca_file : Option Bytes
  pub transport : Option ℕ
  pub no_auto_checkin : Bool
  pub checkin_url : Option Bytes
  pub no_credential_retention : Bool
  pub request_pace_ms : ℤ
  pub checkin_on_login : Bool
  pub confirm_timeout_ms : ℤ
  pub confirm_notice : Option ℕ
  pub confirm_notice_arg : ℕ

abbrev pub options_size : ℕ
options_size = 112

abbrev pub default_checkin_url : Bytes
default_checkin_url = codes "https://api.encedo.com/checkin"

-- `ehem_options_init`
abbrev pub options_init : Options
options_init = record {
  abi_size = options_size;
  connect_timeout_ms = pos 10000;
  total_timeout_ms = pos 30000;
  tls_mode = system;
  ca_file = none;
  transport = none;
  no_auto_checkin = false;
  checkin_url = none;
  no_credential_retention = false;
  request_pace_ms = pos 0;
  checkin_on_login = false;
  confirm_timeout_ms = pos 0;
  confirm_notice = none;
  confirm_notice_arg = 0;
}

-- `if (EHEM_OPT_HAS(opts, f) && opts->f > 0) ctx->f = opts->f;`
abbrev pub if_positive : Bool → ℤ → ℕ → ℕ
if_positive true (pos (suc n)) d = suc n
if_positive has v d = d

-- `if (EHEM_OPT_HAS(opts, f)) ctx->f = opts->f;`
abbrev pub if_has : {A : Type 0} → Bool → A → A → A
if_has true v d = v
if_has false v d = d

-- What `calloc` gives for the context.
abbrev pub zero_ctx : Ctx
zero_ctx = record {
  url = [];
  connect_timeout_ms = 0;
  total_timeout_ms = 0;
  request_pace_ms = 0;
  tls_mode = system;
  ca_file = none;
  transport = none;
  owns_transport = false;
  checkin_url = [];
  no_auto_checkin = false;
  cert_refreshed = false;
  in_checkin = false;
  checkin_on_login = false;
  checkin_on_login_done = false;
  confirm_timeout_ms = 0;
  confirm_notice = none;
  confirm_notice_arg = 0;
  auth = none;
  no_credential_retention = false;
  last_error = no_error;
}

-- The defaults that `apply_options` writes first.
abbrev pub default_ctx : Ctx → Ctx
default_ctx c = record c {
  connect_timeout_ms = 10000;
  total_timeout_ms = 30000;
  request_pace_ms = 0;
  tls_mode = system;
  ca_file = none;
  transport = none;
  owns_transport = false;
  no_auto_checkin = false;
  checkin_url = [];
  no_credential_retention = false;
  checkin_on_login = false;
  checkin_on_login_done = false;
  confirm_timeout_ms = 60000;
}

-- `EHEM_OPT_HAS`, by the end of the field.
abbrev pub opt_has : Options → ℕ → Bool
opt_has o end = leb end o.abi_size

abbrev pub wants_ca : TlsMode → Option Bytes → Bool
wants_ca ca_file none = true
wants_ca mode file = false

-- The fields up to the TLS mode, and those behind the CA file.
abbrev pub with_timeouts : Options → Ctx → Ctx
with_timeouts o c = record c {
  connect_timeout_ms = if_positive (opt_has o 16) o.connect_timeout_ms c.connect_timeout_ms;
  total_timeout_ms = if_positive (opt_has o 24) o.total_timeout_ms c.total_timeout_ms;
  request_pace_ms = if_positive (opt_has o 80) o.request_pace_ms c.request_pace_ms;
  tls_mode = if_has (opt_has o 28) o.tls_mode c.tls_mode;
}

abbrev pub given : {A : Type 0} → Bool → Option A → Option A
given true v = v
given false v = none

abbrev pub if_given : {A : Type 0} → Option A → Option A → Option A
if_given none d = d
if_given (some v) d = some v

abbrev pub with_flags : Options → Ctx → Ctx
with_flags o c = record c {
  transport = if_given (given (opt_has o 48) o.transport) c.transport;
  owns_transport = false;
  no_auto_checkin = if_has (opt_has o 52) o.no_auto_checkin c.no_auto_checkin;
  no_credential_retention =
      if_has (opt_has o 68) o.no_credential_retention c.no_credential_retention;
  confirm_timeout_ms = if_positive (opt_has o 96) o.confirm_timeout_ms c.confirm_timeout_ms;
  confirm_notice = if_has (opt_has o 104) o.confirm_notice c.confirm_notice;
  confirm_notice_arg = if_has (opt_has o 112) o.confirm_notice_arg c.confirm_notice_arg;
  checkin_on_login = if_has (opt_has o 84) o.checkin_on_login c.checkin_on_login;
}

abbrev pub or_default : Option Bytes → Bytes
or_default none = default_checkin_url
or_default (some url) = url
