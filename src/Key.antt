-- ===== src/Key.antt =====
-- src/proto_keymgmt.c, what its calls share: the records that they read from the device's replies,
-- and the checks of their arguments.
pub mod Pages
pub mod Change
pub mod Search
pub mod Walk
pub mod Refused
pub mod Named
mod Tests
use encedo_hem_c_api.Prelude.{
  ℕ, zero, suc, ◌+◌, ◌%◌, Bool, true, false, ◌&&◌, Option, none, some, List, [], ◌∷◌, ◌++◌, Bytes,
  codes, decimal, length, take, ltb, leb, ◌==◌, if◌then◌else◌,
}
use encedo_hem_c_api.Prelude.Int.{ℤ, pos}
use encedo_hem_c_api.Rc.{Rc, protocol, device, not_found}
use encedo_hem_c_api.Env.{Env, Result, ok, err}
use encedo_hem_c_api.Base64.{bytes, b64_std_decode, u32_mod}
use encedo_hem_c_api.Context.{Ctx}
use encedo_hem_c_api.Context.Fail.{fail}
use encedo_hem_c_api.Json.{
  json_get, json_get_string, json_get_int64, json_is_array, json_array_size, json_array_get,
}
use encedo_hem_c_api.Send.{is_kid_hex}
use encedo_hem_c_api.Binding.{clear_last_error, dup_optional, dup_str, or_nomem}
use encedo_hem_c_api.Monad.{Prog, alloc, get_ctx, return, throw, ◌>>=◌, ◌>>◌}

-- `ehem_key_entry`
pub record KeyEntry : Type 0 where
  pub kid : Bytes
  pub type : Bytes
  pub label : Option Bytes
  pub descr : Option Bytes
  pub created : ℤ
  pub updated : ℤ

-- `ehem_key_page`; `listed` is the length of `entries`.
pub record KeyPage : Type 0 where
  pub offset : ℤ
  pub total : ℤ
  pub entries : List KeyEntry

abbrev pub or_zero : Option ℤ → ℤ
or_zero none = pos 0
or_zero (some n) = n

-- `isprint` in the C locale.
unfoldable pub is_print : ℕ → Bool
is_print c = leb 32 c && leb c 126

unfoldable pub all_print : Bytes → Bool
unfolding is_print
all_print [] = true
all_print (c ∷ cs) = is_print c && all_print cs

-- 1 to 32 printable bytes.
unfoldable pub label_ok : Bytes → Bool
unfolding all_print
label_ok label = leb 1 (length label) && leb (length label) 32 && all_print label

unfoldable pub descr_ok : Option Bytes → Bool
descr_ok none = true
descr_ok (some descr) = leb (length descr) 64

-- `snprintf` into 256 bytes, and NULL in place of an empty text.
abbrev pub non_empty : Bytes → Option Bytes
non_empty [] = none
non_empty (c ∷ cs) = some (c ∷ cs)

abbrev pub payload_copy : Option Bytes → Option Bytes
payload_copy none = none
payload_copy (some payload) = non_empty (take 255 payload)

module _ ⦃E : Env⦄ where
  -- The field of an entry that must be there. The failure is recorded where it arises; the C code
  -- does so in the caller, with nothing but the release of memory in between.
  abbrev pub entry_field : ℕ → Bytes → Option Bytes → Prog Bytes
  entry_field i key none = fail protocol 200 none (
      codes "keymgmt/list: entry "
      ++ decimal (i % u32_mod)
      ++ codes " missing required field '"
      ++ key
      ++ codes "'")
  entry_field i key (some s) = dup_str s

  abbrev pub opt_str : Option E.Node → Bytes → Prog (Option Bytes)
  opt_str obj key = dup_optional (json_get_string obj (some key))

  -- A text that does not decode counts as absent.
  abbrev pub decoded_blob : Option Bytes → Prog (Option Bytes)
  decoded_blob none = return none
  decoded_blob (some []) = return none
  decoded_blob (some (c ∷ cs)) = do
    room ← alloc
    or_nomem room (b64_std_decode (bytes (c ∷ cs)) (some (length (c ∷ cs))))

  unfoldable pub decode_opt_b64 : Option E.Node → Bytes → Prog (Option Bytes)
  decode_opt_b64 obj key = decoded_blob (json_get_string obj (some key))

  -- One element of the list, at its index.
  unfoldable pub parse_entry : ℕ → Option E.Node → Prog KeyEntry
  parse_entry i obj = do
    kid ← entry_field i (codes "kid") (json_get_string obj (some (codes "kid")))
    type ← entry_field i (codes "type") (json_get_string obj (some (codes "type")))
    label ← opt_str obj (codes "label")
    descr ← decode_opt_b64 obj (codes "descr")
    return (record {
      kid = kid;
      type = type;
      label = label;
      descr = descr;
      created = or_zero (json_get_int64 obj (some (codes "created")));
      updated = or_zero (json_get_int64 obj (some (codes "updated")));
    })

  -- The elements from the index `i` on, of which `left` are left.
  unfoldable pub parse_entries : Option E.Node → ℕ → ℕ → Prog (List KeyEntry)
  parse_entries list zero i = return []
  parse_entries list (suc left) i =
      let later = parse_entries list left (i + 1) in
      do e ← parse_entry i (json_array_get list i); es ← later; return (e ∷ es)

  abbrev pub listed : Option E.Node → ℕ
  listed list = if json_is_array list then json_array_size list else 0

  abbrev pub page_of : ℤ → ℤ → Option E.Node → ℕ → Prog KeyPage
  page_of offset total list zero = return (record { offset = offset; total = total; entries = [] })
  page_of offset total list (suc n) = do
    room ← alloc
    or_nomem room tt
    entries ← parse_entries list (suc n) 0
    return (record { offset = offset; total = total; entries = entries })

  unfoldable pub parse_key_page : E.Node → Prog KeyPage
  parse_key_page root = do
    room ← alloc
    or_nomem room tt
    page_of (or_zero (json_get_int64 (some root) (some (codes "offset"))))
        (or_zero (json_get_int64 (some root) (some (codes "total"))))
        (json_get (some root) (some (codes "list")))
        (listed (json_get (some root) (some (codes "list"))))

  -- A refusal with 406 says that the key is not there.
  unfoldable pub map_406_not_found : {A : Type 0} → Rc → Bytes → Ctx → Prog A
  map_406_not_found device what ctx =
      if ctx.last_error.http_status == 406
      then fail not_found 406 (payload_copy ctx.last_error.device_payload)
          (what ++ codes ": key not found")
      else throw device
  map_406_not_found rc what ctx = throw rc

  -- A key id in a reply.
  abbrev pub kid_of : Bytes → Option Bytes → Prog Bytes
  kid_of what none = fail protocol 200 none (what ++ codes ": response missing 'kid'")
  kid_of what (some kid) =
      if is_kid_hex kid
      then return kid
      else fail protocol 200 none (what ++ codes ": 'kid' is not 32 hex chars")

  abbrev pub reply_kid : Bytes → E.Node → Prog Bytes
  reply_kid what root = kid_of what (json_get_string (some root) (some (codes "kid")))

  -- An empty reply of 200 is what success looks like; the request path takes it for a failure.
  abbrev pub unless_empty : Bytes → Rc → Ctx → Prog (Unit {0})
  unless_empty what protocol ctx =
      if ctx.last_error.http_status == 200
      then clear_last_error
      else map_406_not_found protocol what ctx
  unless_empty what rc ctx = map_406_not_found rc what ctx

  unfoldable pub changed : Bytes → Result Bytes → Prog (Unit {0})
  changed what (ok body) = clear_last_error
  changed what (err rc) = do ctx ← get_ctx; unless_empty what rc ctx
