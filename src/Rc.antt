-- ===== src/Rc.antt =====
-- The result codes of include/ehem/ehem.h, their names (src/context.c) and the mapping of HTTP
-- statuses (src/proto_common.c).
use encedo_hem_c_api.Prelude.{ℕ, Bytes, codes, leb, ◌==◌, if◌then◌else◌}

-- `EHEM_OK`, and the errors by the source's names without their prefix `EHEM_ERR_`.
pub data Rc : Type 0 where
  ok_rc network unreachable auth_expired auth_failed scope_denied user_rejected : Rc
  confirm_timeout not_found device protocol arg nomem unsupported backend_mismatch : Rc

unfoldable pub rc_str : Rc → Bytes
rc_str ok_rc = codes "EHEM_OK"
rc_str network = codes "EHEM_ERR_NETWORK"
rc_str unreachable = codes "EHEM_ERR_UNREACHABLE"
rc_str auth_expired = codes "EHEM_ERR_AUTH_EXPIRED"
rc_str auth_failed = codes "EHEM_ERR_AUTH_FAILED"
rc_str scope_denied = codes "EHEM_ERR_SCOPE_DENIED"
rc_str user_rejected = codes "EHEM_ERR_USER_REJECTED"
rc_str confirm_timeout = codes "EHEM_ERR_CONFIRM_TIMEOUT"
rc_str not_found = codes "EHEM_ERR_NOT_FOUND"
rc_str device = codes "EHEM_ERR_DEVICE"
rc_str protocol = codes "EHEM_ERR_PROTOCOL"
rc_str arg = codes "EHEM_ERR_ARG"
rc_str nomem = codes "EHEM_ERR_NOMEM"
rc_str unsupported = codes "EHEM_ERR_UNSUPPORTED"
rc_str backend_mismatch = codes "EHEM_ERR_BACKEND_MISMATCH"

unfoldable pub map_http_status : ℕ → Rc
map_http_status status =
    if status == 401
    then auth_failed
    else if status == 403
    then scope_denied
    else if status == 404
    then not_found
    else if leb 400 status
    then device
    else protocol
