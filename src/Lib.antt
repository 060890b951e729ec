-- ===== src/Lib.antt =====
-- Verification of the encedo-hem C SDK.
--
-- The SDK (src/ of the repository) is a client library for a hardware security device with an
-- HTTP interface. A context holds the configuration, the session and the account of the last
-- error. Every binding goes through one request path, which acquires a bearer token, sends the
-- request through a transport, and recovers where it can: from an expired device certificate by a
-- check-in, which calls the request path again, and from a refused token by a new one, which is
-- come by with requests of its own and may run a check-in too. A session with a phone gets its
-- tokens from the confirmation engine instead, which pushes a request through a broker and polls
-- for the answer. This development models that core, with the codecs and the cache it stands on.
--
-- The files, and the code that each is about:
--   Rc          the result codes (include/ehem/ehem.h), `ehem_rc_str` (src/context.c) and
--               `ehem_proto_map_http_status` (src/proto_common.c)
--   Base64      the base64 codecs of src/ejwt.c; Alphabet, Sextets, Decode and RoundTrip hold
--               their theory
--   Env         what the SDK calls and does not implement: a record of functions on a `World`
--   Context     the context and the session it owns (src/context.h, src/proto_auth.c); Fail is
--               `ehem_ctx_fail` (src/context.c)
--   Monad       the calling convention: explicit state passing with a result code; Post states
--               what holds of a result where there is one
--   Transport   the dispatch of src/transport.c
--   Json        the facade of src/json.c over cJSON
--   Cache       the token cache of src/proto_auth.c; Laws reads it as a map
--   Global      `ehem_global_init` and `ehem_global_cleanup` (src/context.c)
--   Options     the options with their ABI-size guard, and the check of the URL (src/context.c),
--               with the offsets of the LP64 data model
--   Create      `apply_options`, `ehem_ctx_create` and `ehem_ctx_destroy` (src/context.c); Abi and
--               Outcome are about them
--   Session     `ehem_login`, `ehem_login_mobile`, `ehem_logout`, `ehem_auth_invalidate`
--               (src/proto_auth.c)
--   Ejwt        the signed compact tokens of src/ejwt.c
--   Send        `do_send` and what it uses (src/proto_common.c)
--   Request     `ehem_proto_request_raw` and `ehem_proto_request_json` (src/proto_common.c);
--               Guard, Budget and Reply are about its recursion, its cost and its outcome, Keeps
--               about what leaves the session alone
--   Checkin     `ehem_checkin_run` with a NULL `out` (src/proto_system.c)
--   Token       `acquire_token` and `ehem_auth_ensure_token` (src/proto_auth.c): Store, Challenge
--               and Ensure are the code; Settled, Kept, Served, Payload and Budget are about it
--   KeyType     the classifier of key types (src/keytype.c); Tokens and Names are about it
--   Binding     the helpers that the files of the bindings repeat; Budget is about their cost, Refused
--               about the checks of arguments
--   Notify      the client of the broker (src/proto_notify.c): Pairing and Event are code too,
--               Budget is about the cost of its calls
--   Ext         the login pair of src/proto_ext.c; Pair is its pairing calls, Budget is about the cost
--               of the login pair
--   Confirm     the confirmation engine of src/proto_ext.c; Budget, Wait, Bearer and Unapproved are
--               about it
--   Device      the request path with its callbacks in place, as the bindings use it
--   Key         key management (src/proto_keymgmt.c): Pages, Change and Search are code too; Walk,
--               Refused and Named are about them
--   Bip39       the mnemonic codec of src/bip39.c; Search, Bits, Copy, Words and RoundTrip are about it
--   Mnemonic    `ehem_mnemonic_generate` and `ehem_master_secret_from_mnemonic` (src/proto_auth.c)
--   Logger      the log files (src/proto_logger.c)
--   Storage     the lock of the disks (src/proto_storage.c)
--   Crypto      `ehem_sign`, `ehem_verify` and `ehem_ecdh` (src/proto_crypto.c), which Refused is
--               about; Hmac, Cipher, Wrap and Pqc are the codes, the ciphers, the wrapping of keys
--               and the post-quantum calls, and Random the random numbers
--   Fixture     an environment for the tests: a scripted device, a clock, a limited memory
--
-- How the C code is read. A function on a context is a function on a `State`: the context, the
-- process-wide flag, and the world outside. `ehem_rc` with an out parameter is a `Result`. A C
-- string is the list of its bytes without the NUL, and a NULL pointer is `none`; where a NULL
-- context is refused with EHEM_ERR_ARG there is no state to speak of, and that guard is left out.
-- Freed memory is gone and scrubbing it first leaves no trace. Allocation may fail at each call of
-- `malloc`. Sizes wrap around at 2 ^ 64 and the accumulators of the codecs at 2 ^ 32. Signed
-- 64-bit times are exact integers, since their overflow is undefined in C. The status of a reply is a
-- natural number: a `long` below zero, which no status line of HTTP has, is outside the model. A
-- message that is formatted from the last error's own message takes the old one.
--
-- How the recursion is cut. The request path, the check-in and the token acquisition call one
-- another. `Request` takes the other two as arguments. `Checkin` uses it with arguments that are
-- never called, since its requests carry no scope and run under the guard `in_checkin`;
-- Request.Guard proves that they make no difference. `Token` uses it with the check-in, and with no
-- acquisition for the requests of the login, which carry no scope; Token.Ensure puts the result
-- back into the request path as `bound_request_raw`. The push confirmation is the argument
-- `confirm` of the acquisition; `Confirm.push_confirm` is what the code passes there, and its own
-- requests carry no scope. Loops are structural recursions on lists, but for the wait of the
-- confirmation engine: it recurs on the time that is left, of which every turn uses up at least
-- a millisecond; for the binary search in the word list, whose fuel is the list's length; for the
-- random numbers, whose fuel is the number of bytes, of which a step takes one at least; and for
-- the walk over the pages of a key list, which has fuel: more than there are keys is enough where
-- the device's totals are bounded.
--
-- Parameters, the fields of `Env`: the allocator, the clock, the sleep, the ops table that a
-- transport's address leads to, the init and cleanup of the backends, cJSON, and the functions of
-- src/crypto_shim.h, and the callback that announces a push. The BIP39 word list is a function from
-- indices to words, sorted where a theorem says so. Nothing is assumed of them but for the budgets,
-- where a count of requests is raised by `send` alone. The budgets follow the timeout of a
-- confirmation through the context: it is the condition `fits` of their judgement.
--
-- Not modelled: the rest of src/proto_system.c, `ehem_device_init` of src/proto_auth.c, the libcurl
-- transport, the two crypto backends, and vendored code.
pub mod Prelude
pub mod Rc
pub mod Base64
pub mod Env
pub mod Context
pub mod Monad
pub mod Transport
pub mod Json
pub mod Cache
pub mod Global
pub mod Options
pub mod Create
pub mod Session
pub mod Ejwt
pub mod Send
pub mod Request
pub mod Checkin
pub mod Token
pub mod KeyType
pub mod Binding
pub mod Notify
pub mod Ext
pub mod Confirm
pub mod Device
pub mod Key
pub mod Bip39
pub mod Mnemonic
pub mod Crypto
pub mod Logger
pub mod Storage
pub mod Fixture
