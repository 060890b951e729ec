-- ===== src/Fixture.antt =====
-- An environment for the tests, in the place of tests/support/fake_transport.c: a clock, a number of
-- allocations that succeed, and a script of replies at the transport 1, which keeps what it is sent.
use encedo_hem_c_api.Prelude.{
  ℕ, zero, suc, ◌+◌, ◌≤◌, Bool, true, false, Option, none, some, List, [], ◌∷◌, Bytes, codes,
  bytes_eq, ◌≡◌, refl, ap, ◌∙◌, arith, if◌then◌else◌, ◌==◌,
}
use encedo_hem_c_api.Prelude.Int.{ℤ, pos}
use encedo_hem_c_api.Rc.{Rc, ok_rc, network}
use encedo_hem_c_api.Env.{Env, Request, Response, TransportOps, ok, system}
use encedo_hem_c_api.Context.{Ctx, no_error}
use encedo_hem_c_api.Monad.{State}
use encedo_hem_c_api.Request.Budget.{SendCount}
use encedo_hem_c_api.Token.Budget.{LocalCount}
use mathlib.Core.Option.{some-injective}

pub data Node : Type 0 where
  object : List (Bytes × Bytes) → List (Bytes × ℤ) → Node
  text : Bytes → Node
  number : ℤ → Node

pub record World : Type 0 where
  pub clock : ℤ
  pub memory : ℕ
  pub replies : List (Rc × Response)
  pub sent : ℕ

abbrev no_reply : Response
no_reply = record { status = 0; headers = []; body = none }

abbrev use_memory : ℕ → Bool × ℕ
use_memory zero = (false, zero)
use_memory (suc n) = (true, n)

abbrev allocate : World → Bool × World
allocate w = let (b, n) = use_memory w.memory in (b, record w { memory = n })

abbrev answer_with : List (Rc × Response) → (Rc × Response) × List (Rc × Response)
answer_with [] = ((network, no_reply), [])
answer_with (r ∷ rest) = (r, rest)

abbrev send_one : Request → World → (Rc × Response) × World
send_one req w =
    let (r, rest) = answer_with w.replies in (r, record w { replies = rest; sent = w.sent + 1 })

abbrev scripted : TransportOps World
scripted = record {
  send = some send_one;
  last_detail = some (λ w. some (codes "no route"));
  last_tls_expired = some (λ w. false);
  destroy = none;
}

abbrev ops_at : ℕ → Option (TransportOps World)
ops_at t = if t == 1 then some scripted else none

abbrev pub challenge : Node
challenge =
    object
      ((codes "eid", codes "device")
        ∷ (codes "spk", codes "AAAAAAAAAAAAAAAAAAAAAAAAAAAAAAAAAAAAAAAAAAA=")
        ∷ (codes "jti", codes "nonce")
        ∷ (codes "lbl", codes "alice")
        ∷ [])
      ((codes "exp", pos 1060) ∷ [])

-- What a confirmation reads from the broker and the device, in one document.
abbrev pub approval : Node
approval =
    object
      ((codes "epk", codes "AAAAAAAAAAAAAAAAAAAAAAAAAAAAAAAAAAAAAAAAAAA=")
        ∷ (codes "authreq", codes "a.b.c")
        ∷ (codes "eventid", codes "event")
        ∷ (codes "authreply", codes "a.b.c")
        ∷ (codes "token", codes "a.b.c")
        ∷ [])
      []

-- An encryption with its initial value.
abbrev encrypted : Node
encrypted =
    object
      ((codes "ciphertext", codes "AAAA") ∷ (codes "iv", codes "AAAAAAAAAAAAAAAAAAAAAA==") ∷ []) []

-- The documents that the script's devices send.
abbrev document : Bytes → Option Node
document input =
    if bytes_eq input (codes "{challenge}")
    then some challenge
    else if bytes_eq input (codes "{token}")
    then some (object ((codes "token", codes "a.b.c") ∷ []) [])
    else if bytes_eq input (codes "{approval}")
    then some approval
    else if bytes_eq input (codes "{kid}")
    then some (object ((codes "kid", codes "0123456789abcdef0123456789ABCDEF") ∷ []) [])
    else if bytes_eq input (codes "{iv}")
    then some encrypted
    else none

abbrev text_item : List (Bytes × Bytes) → Bytes → Option Node
text_item [] key = none
text_item ((k, v) ∷ rest) key = if bytes_eq k key then some (text v) else text_item rest key

abbrev number_item : List (Bytes × ℤ) → Bytes → Option Node
number_item [] key = none
number_item ((k, v) ∷ rest) key = if bytes_eq k key then some (number v) else number_item rest key

abbrev first_item : Option Node → Option Node → Option Node
first_item none n = n
first_item (some m) n = some m

abbrev item : Node → Bytes → Option Node
item (object texts numbers) key = first_item (text_item texts key) (number_item numbers key)
item _ key = none

abbrev is_object : Node → Bool
is_object (object texts numbers) = true
is_object _ = false

abbrev is_text : Node → Bool
is_text (text v) = true
is_text _ = false

abbrev is_number : Node → Bool
is_number (number v) = true
is_number _ = false

abbrev text_of : Node → Option Bytes
text_of (text v) = some v
text_of _ = none

abbrev number_of : Node → ℤ
number_of (number v) = v
number_of _ = pos 0

instance abbrev pub test_env : Env
test_env = record {
  World = World;
  alloc = allocate;
  now = λ w. (w.clock, w);
  wall_time = λ w. (w.clock, w);
  sleep_ms = λ ms w. w;
  confirm_notice = λ callback scope timeout arg w. w;
  transport_ops = ops_at;
  transport_default_new = λ url mode file w. (some 1, w);
  crypto_backend_init = λ w. (ok_rc, w);
  crypto_backend_cleanup = λ w. w;
  transport_backend_init = λ w. (ok_rc, w);
  transport_backend_cleanup = λ w. w;
  Node = Node;
  parse_with_length = λ input w. (document input, w);
  is_object = is_object;
  is_array = λ n. false;
  is_string = is_text;
  is_number = is_number;
  is_bool = λ n. false;
  is_true = λ n. false;
  valuestring = text_of;
  valuedouble = number_of;
  get_object_item = item;
  get_array_size = λ n. pos 0;
  get_array_item = λ n i. none;
  create_object = λ w. (some (object [] []), w);
  add_string_to_object = λ n key v w. (some n, w);
  add_number_to_object = λ n key v w. (some n, w);
  add_bool_to_object = λ n key v w. (some n, w);
  print_unformatted = λ n w. (some (codes "{}"), w);
  pbkdf2_sha256 = λ password salt iters w. (ok password, w);
  x25519_keypair_from_seed = λ seed w. (ok (codes "priv", codes "pub"), w);
  x25519_shared = λ priv peer w. (ok (codes "shared"), w);
  hmac_sha256 = λ key input w. (ok (codes "mac"), w);
  sha256 = λ input w. (ok input, w);
  pbkdf2_sha512 = λ password salt iters w. (ok password, w);
  random_bytes = λ n w. (ok [], w);
}

abbrev pub test_ctx : Ctx
test_ctx = record {
  url = codes "https://device";
  connect_timeout_ms = 10000;
  total_timeout_ms = 30000;
  request_pace_ms = 0;
  tls_mode = system;
  ca_file = none;
  transport = some 1;
  owns_transport = true;
  checkin_url = codes "https://cloud/checkin";
  no_auto_checkin = false;
  cert_refreshed = false;
  in_checkin = false;
  checkin_on_login = false;
  checkin_on_login_done = false;
  confirm_timeout_ms = 60000;
  confirm_notice = none;
  confirm_notice_arg = 0;
  auth = none;
  no_credential_retention = false;
  last_error = no_error;
}

abbrev pub success : Bytes → Rc × Response
success body = (ok_rc, record { status = 200; headers = []; body = some body })

abbrev pub start : State World
start = record {
  ctx = test_ctx;
  global_ready = false;
  world = record { clock = pos 1000; memory = 100; replies = []; sent = 0 };
}

abbrev pub with_replies : List (Rc × Response) → State World
with_replies replies = record start { world = record (start.world) { replies = replies } }

-- How often the script has been asked.
abbrev pub test_count : SendCount
test_count = record {
  sends = λ w. w.sent;
  send_once = counted;
  alloc_none = λ w. refl;
  sleep_none = λ ms w. refl;
  parse_none = λ input w. refl;
}
  where
    counted_at :
        (b : Bool) (ops : TransportOps World) (f : Request → World → (Rc × Response) × World)
        (req : Request) (w : World)
        → (if b then some scripted else none) ≡ some ops
        → ops.send ≡ some f
        → (f req w).1.sent ≤ w.sent + 1
    counted_at true ops f req w h g =
        let same : some send_one ≡ some f =
          ap (λ (o : TransportOps World). o.send) (some-injective scripted ops h) ∙ g in
        rw (← some-injective send_one f same) (omega arith)
    counted_at false ops f req w h g = cc

    counted :
        (t : ℕ) (ops : TransportOps World) (f : Request → World → (Rc × Response) × World)
        (req : Request) (w : World)
        → ops_at t ≡ some ops
        → ops.send ≡ some f
        → (f req w).1.sent ≤ w.sent + 1
    counted t ops f req w h g = counted_at (t == 1) ops f req w h g

-- No other call raises the count.
abbrev pub test_local : LocalCount test_count
test_local = record {
  now_none = λ w. refl;
  object_none = λ w. refl;
  string_none = λ n key v w. refl;
  number_none = λ n key v w. refl;
  print_none = λ n w. refl;
  pbkdf2_none = λ password salt iters w. refl;
  keypair_none = λ seed w. refl;
  shared_none = λ priv peer w. refl;
  hmac_none = λ key input w. refl;
  crypto_init_none = λ w. refl;
  crypto_cleanup_none = λ w. refl;
  transport_init_none = λ w. refl;
  wall_none = λ w. refl;
  notice_none = λ callback scope timeout_ms argument w. refl;
}
