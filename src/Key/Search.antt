-- ===== src/Key/Search.antt =====
-- src/proto_keymgmt.c: the search by a pattern, and the details of one key.
use encedo_hem_c_api.Prelude.{
  ℕ, zero, suc, ◌+◌, ◌%◌, Bool, true, false, Option, none, some, List, [], ◌∷◌, ◌++◌, Bytes, codes,
  length, if◌then◌else◌,
}
use encedo_hem_c_api.Prelude.Int.{ℤ, pos}
use encedo_hem_c_api.Rc.{arg, nomem, protocol, not_found}
use encedo_hem_c_api.Env.{Env, Result, ok, err, get, post}
use encedo_hem_c_api.Base64.{Slice, null, bytes, size_mod, b64_std_encode, b64_std_encoded_len}
use encedo_hem_c_api.Context.Fail.{fail}
use encedo_hem_c_api.Ejwt.{string_field, int64_field}
use encedo_hem_c_api.Json.{json_get_string, json_get_int64}
use encedo_hem_c_api.Key.{KeyPage, or_zero, parse_key_page, decode_opt_b64, map_406_not_found}
use encedo_hem_c_api.Key.Pages.{as_int64, walk, walk_page}
use encedo_hem_c_api.Key.Change.{check_kid}
use encedo_hem_c_api.Device.{device_json}
use encedo_hem_c_api.Binding.{body_with, clear_last_error, dup_str, or_nomem}
use encedo_hem_c_api.Monad.{Prog, alloc, attempt, get_ctx, return, throw, ◌>>=◌, ◌>>◌}

pub data SearchMode : Type 0 where
  substring prefix suffix : SearchMode

-- `ehem_key_details`
pub record KeyDetails : Type 0 where
  pub type : Bytes
  pub updated : ℤ
  pub pubkey : Option Bytes
  pub der : Option Bytes
  pub descr : Option Bytes

abbrev pub slice_len : Slice → ℕ
slice_len (null n) = n
slice_len (bytes b) = length b

-- `search_args_ok` on a mode of the enumeration.
unfoldable pub search_args_ok : Slice → Bool
search_args_ok (null zero) = true
search_args_ok (null (suc n)) = false
search_args_ok (bytes b) = true

unfoldable pub anchored : SearchMode → Bytes → Bytes
anchored substring b64 = b64
anchored prefix b64 = b'^' ∷ b64
anchored suffix b64 = b64 ++ b'$' ∷ []

module _ ⦃E : Env⦄ where
  abbrev pub anchor : SearchMode → Option Bytes → Prog Bytes
  anchor mode none = throw nomem
  anchor mode (some b64) = return (anchored mode b64)

  unfoldable pub build_search_descr : SearchMode → Slice → Prog Bytes
  unfolding anchored
  build_search_descr mode pattern = do
    room ← alloc
    if room
        then anchor mode (
            b64_std_encode pattern
              (some ((b64_std_encoded_len (slice_len pattern) + 1) % size_mod)))
        else throw nomem

  abbrev pub search_fields : Bytes → ℕ → ℕ → List (Option E.Node → Prog (Option E.Node))
  search_fields descr offset limit =
      string_field (codes "descr") descr
      ∷ int64_field (codes "offset") (as_int64 offset)
      ∷ int64_field (codes "limit") (as_int64 limit)
      ∷ []

  -- No match is an empty page.
  abbrev pub page_of_search : Result E.Node → Prog KeyPage
  page_of_search (ok root) = parse_key_page root
  page_of_search (err not_found) = do
    room ← alloc
    or_nomem room tt
    clear_last_error
    return (record { offset = pos 0; total = pos 0; entries = [] })
  page_of_search (err rc) = throw rc

  unfoldable pub search_one_page : Bytes → ℕ → ℕ → Prog KeyPage
  search_one_page descr offset limit = do
    body ← body_with (search_fields descr offset limit)
    r ←
        attempt (
          device_json post (codes "/api/keymgmt/search") (some body)
            (some (codes "keymgmt:search")))
    page_of_search r

  abbrev pub recorded : Result Bytes → Prog Bytes
  recorded (ok descr) = return descr
  recorded (err rc) = fail rc 0 none (codes "out of memory")

  abbrev pub search_descr : SearchMode → Slice → Prog Bytes
  search_descr mode pattern = do
    clear_last_error
    descr ← attempt (build_search_descr mode pattern)
    recorded descr

  abbrev pub search_given : Slice → SearchMode → ℕ → ℕ → Prog KeyPage
  search_given pattern mode offset limit = do
    descr ← search_descr mode pattern
    search_one_page descr offset limit

  unfoldable pub key_search : Slice → SearchMode → ℕ → ℕ → Prog KeyPage
  key_search pattern mode offset limit =
      if search_args_ok pattern then search_given pattern mode offset limit else throw arg

  abbrev pub search_walk : ℕ → Bytes → Prog (Option KeyPage)
  search_walk fuel descr = do
    room ← alloc
    or_nomem room tt
    walk (λ offset. search_one_page descr offset walk_page) fuel [] 0

  unfoldable pub key_search_all : ℕ → Slice → SearchMode → Prog (Option KeyPage)
  key_search_all fuel pattern mode =
      if search_args_ok pattern then search_descr mode pattern >>= search_walk fuel else throw arg

  abbrev pub details_type : Option Bytes → Prog Bytes
  details_type none = fail protocol 200 none (codes "keymgmt/get: missing required field 'type'")
  details_type (some type) = dup_str type

  unfoldable pub parse_key_details : E.Node → Prog KeyDetails
  parse_key_details root = do
    room ← alloc
    or_nomem room tt
    type ← details_type (json_get_string (some root) (some (codes "type")))
    pubkey ← decode_opt_b64 (some root) (codes "pubkey")
    der ← decode_opt_b64 (some root) (codes "der")
    descr ← decode_opt_b64 (some root) (codes "descr")
    return (record {
      type = type;
      updated = or_zero (json_get_int64 (some root) (some (codes "updated")));
      pubkey = pubkey;
      der = der;
      descr = descr;
    })

  abbrev pub details_of : Result E.Node → Prog KeyDetails
  details_of (ok root) = parse_key_details root
  details_of (err rc) = do ctx ← get_ctx; map_406_not_found rc (codes "keymgmt/get") ctx

  -- With the scope of this one key.
  unfoldable pub key_get : Bytes → Prog KeyDetails
  key_get kid = do
    clear_last_error
    check_kid (codes "keymgmt/get") kid
    r ← attempt (
        device_json get (codes "/api/keymgmt/get/" ++ kid) none
          (some (codes "keymgmt:use:" ++ kid)))
    details_of r
