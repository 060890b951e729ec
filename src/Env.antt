-- ===== src/Env.antt =====
-- What the SDK calls and does not implement: the allocator and the clock of the C library, the
-- transport behind the vtable of src/transport.h, cJSON (src/vendor/cjson), and the crypto
-- library behind src/crypto_shim.h. All of it acts on one `World`, which no model function looks
-- into. The wire types are those of src/transport.h.
use encedo_hem_c_api.Prelude.{ℕ, Bool, Option, List, Bytes}
use encedo_hem_c_api.Prelude.Int.{ℤ}
use encedo_hem_c_api.Rc.{Rc}

pub data HttpMethod : Type 0 where
  get post put delete patch : HttpMethod

pub data TlsReqOverride : Type 0 where
  default relax verify : TlsReqOverride

-- `ehem_tls_mode` of include/ehem/ehem.h.
pub data TlsMode : Type 0 where
  system ca_file insecure : TlsMode

pub record Header : Type 0 where
  pub name : Bytes
  pub value : Bytes

-- `ehem_request`; a list carries its length, and `none` is a NULL body.
pub record Request : Type 0 where
  pub method : HttpMethod
  pub path : Bytes
  pub headers : List Header
  pub body : Option Bytes
  pub connect_timeout_ms : ℕ
  pub total_timeout_ms : ℕ
  pub tls_override : TlsReqOverride
  pub fresh_connection : Bool

pub record Response : Type 0 where
  pub status : ℕ
  pub headers : List Header
  pub body : Option Bytes

-- `ehem_transport_ops`, bound to the instance's state; `none` is a NULL function pointer.
pub record TransportOps (W : Type 0) : Type 0 where
  pub send : Option (Request → W → (Rc × Response) × W)
  pub last_detail : Option (W → Option Bytes)
  pub last_tls_expired : Option (W → Bool)
  pub destroy : Option (W → W)

-- A result, or the code that the C function returns in its place.
pub data Result {ℓ} (A : Type ℓ) : Type ℓ where
  ok : A → Result A
  err : Rc → Result A

pub record Env : Type 1 where
  pub World : Type 0
  -- One `malloc` or `calloc`: whether it succeeds.
  pub alloc : World → Bool × World
  -- `auth_now()`: `time(NULL)`, or the clock that a test sets.
  pub now : World → ℤ × World
  -- `time(NULL)` where no test can set the clock.
  pub wall_time : World → ℤ × World
  pub sleep_ms : ℕ → World → World
  -- The callback at an address, with the scope, the timeout and its own argument.
  pub confirm_notice : ℕ → Bytes → ℕ → ℕ → World → World
  -- The ops table that a transport's address leads to.
  pub transport_ops : ℕ → Option (TransportOps World)
  -- `ehem_transport_default_new`, the built-in transport.
  pub transport_default_new : Bytes → TlsMode → Option Bytes → World → Option ℕ × World
  pub crypto_backend_init : World → Rc × World
  pub crypto_backend_cleanup : World → World
  pub transport_backend_init : World → Rc × World
  pub transport_backend_cleanup : World → World
  -- cJSON. `valuedouble` is read as the integer that `(int64_t)` makes of it.
  pub Node : Type 0
  pub parse_with_length : Bytes → World → Option Node × World
  pub is_object : Node → Bool
  pub is_array : Node → Bool
  pub is_string : Node → Bool
  pub is_number : Node → Bool
  pub is_bool : Node → Bool
  pub is_true : Node → Bool
  pub valuestring : Node → Option Bytes
  pub valuedouble : Node → ℤ
  pub get_object_item : Node → Bytes → Option Node
  pub get_array_size : Node → ℤ
  pub get_array_item : Node → ℕ → Option Node
  pub create_object : World → Option Node × World
  pub add_string_to_object : Node → Bytes → Bytes → World → Option Node × World
  pub add_number_to_object : Node → Bytes → ℤ → World → Option Node × World
  pub add_bool_to_object : Node → Bytes → Bool → World → Option Node × World
  pub print_unformatted : Node → World → Option Bytes × World
  -- The crypto shim.
  pub pbkdf2_sha256 : Bytes → Bytes → ℕ → World → Result Bytes × World
  pub x25519_keypair_from_seed : Bytes → World → Result (Bytes × Bytes) × World
  pub x25519_shared : Bytes → Bytes → World → Result Bytes × World
  pub hmac_sha256 : Bytes → Bytes → World → Result Bytes × World
  pub sha256 : Bytes → World → Result Bytes × World
  pub pbkdf2_sha512 : Bytes → Bytes → ℕ → World → Result Bytes × World
  pub random_bytes : ℕ → World → Result Bytes × World
