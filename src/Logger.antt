-- ===== src/Logger.antt =====
-- src/proto_logger.c: the device's log files and the key that signs them.
use encedo_hem_c_api.Prelude.{
  ℕ, zero, suc, ◌+◌, ◌%◌, Bool, true, ◌&&◌, Option, none, some, List, [], ◌∷◌, ◌++◌, Bytes, codes,
  c_string, decimal, length, ltb, ◌==◌, if◌then◌else◌,
}
use encedo_hem_c_api.Prelude.Int.{ℤ}
use encedo_hem_c_api.Rc.{arg, protocol}
use encedo_hem_c_api.Env.{Env, get}
use encedo_hem_c_api.Base64.{bytes, b64_std_decode, u32_mod}
use encedo_hem_c_api.Context.Fail.{fail}
use encedo_hem_c_api.Json.{
  json_get, json_get_string, json_get_int64, json_array_get, json_as_string,
}
use encedo_hem_c_api.Send.{is_hex}
use encedo_hem_c_api.Key.{listed, or_zero}
use encedo_hem_c_api.Device.{device_json, device_raw}
use encedo_hem_c_api.Binding.{clear_last_error, dup_str, or_nomem, require}
use encedo_hem_c_api.Monad.{Prog, alloc, return, throw, ◌>>=◌, ◌>>◌}

abbrev pub logger_scope : Bytes
logger_scope = codes "logger:get"

pub record LoggerKey : Type 0 where
  pub key : Bytes
  pub nonce : Bytes
  pub nonce_signed : Bytes

-- `ehem_logger_page`; `count` is the length of `ids`.
pub record LoggerPage : Type 0 where
  pub total : ℤ
  pub ids : List Bytes

abbrev pub if_sized : ℕ → Option Bytes → Option Bytes
if_sized want none = none
if_sized want (some raw) = if length raw == want then some raw else none

-- Through a buffer of 128 bytes.
abbrev pub fixed_b64 : ℕ → Option Bytes → Option Bytes
fixed_b64 want none = none
fixed_b64 want (some s) = if_sized want (b64_std_decode (bytes s) (some 128))

unfoldable pub all_hex : Bytes → Bool
unfolding is_hex
all_hex [] = true
all_hex (c ∷ cs) = is_hex c && all_hex cs

module _ ⦃E : Env⦄ where
  unfoldable pub decode_fixed_b64 : E.Node → Bytes → ℕ → Option Bytes
  decode_fixed_b64 obj key want = fixed_b64 want (json_get_string (some obj) (some key))

  abbrev pub whole_key : Option Bytes → Option Bytes → Option Bytes → Prog LoggerKey
  whole_key (some key) (some nonce) (some nonce_signed) =
      return (record { key = key; nonce = nonce; nonce_signed = nonce_signed })
  whole_key _ _ _ =
      fail protocol 200 none
        (codes "logger/key: key/nonce/nonce_signed must base64-decode to 32/32/64 bytes")

  unfoldable pub logger_key : Prog LoggerKey
  logger_key = do
    clear_last_error
    root ← device_json get (codes "/api/logger/key") none (some logger_scope)
    room ← alloc
    or_nomem room tt
    whole_key (decode_fixed_b64 root (codes "key") 32) (decode_fixed_b64 root (codes "nonce") 32)
        (decode_fixed_b64 root (codes "nonce_signed") 64)

  abbrev pub id_at : ℕ → Option Bytes → Prog Bytes
  id_at i none =
      fail protocol 200 none
        (codes "logger/list: 'id' element " ++ decimal (i % u32_mod) ++ codes " is not a string")
  id_at i (some s) = dup_str s

  -- The elements from the index `i` on, of which `left` are left.
  unfoldable pub parse_ids : Option E.Node → ℕ → ℕ → Prog (List Bytes)
  parse_ids list zero i = return []
  parse_ids list (suc left) i =
      let later = parse_ids list left (i + 1) in
      do id ← id_at i (json_as_string (json_array_get list i)); ids ← later; return (id ∷ ids)

  abbrev pub ids_of : Option E.Node → ℕ → Prog (List Bytes)
  ids_of list zero = return []
  ids_of list (suc n) = do room ← alloc; or_nomem room tt; parse_ids list (suc n) 0

  unfoldable pub logger_list : ℕ → Prog LoggerPage
  logger_list offset = do
    clear_last_error
    root ← device_json get (codes "/api/logger/list/" ++ decimal offset) none (some logger_scope)
    room ← alloc
    or_nomem room tt
    ids ←
        ids_of (json_get (some root) (some (codes "id")))
          (listed (json_get (some root) (some (codes "id"))))
    return
        (record { total = or_zero (json_get_int64 (some root) (some (codes "total"))); ids = ids })

  abbrev pub get_file : Bytes → Prog Bytes
  get_file id = do
    clear_last_error
    require (all_hex id) (codes "logger/get: id must be hex")
    require (ltb (length id) 32) (codes "logger/get: id too long")
    body ← device_raw get (codes "/api/logger/" ++ id) none (some logger_scope)
    return (c_string body)

  -- The file up to its first NUL. An empty id is refused before anything else.
  unfoldable pub logger_get : Bytes → Prog Bytes
  logger_get [] = throw arg
  logger_get (c ∷ cs) = get_file (c ∷ cs)
