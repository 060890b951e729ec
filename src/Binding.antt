-- ===== src/Binding.antt =====
-- What the bindings of src/proto_ext.c, src/proto_notify.c and src/proto_keymgmt.c share: copies of
-- strings, the fields that a reply must have, and the bodies of requests.
pub mod Budget
pub mod Refused
use encedo_hem_c_api.Prelude.{
  ◌+◌, ◌%◌, Bool, true, false, Option, none, some, List, [], ◌∷◌, ◌++◌, Bytes, codes, length,
  if◌then◌else◌,
}
use encedo_hem_c_api.Rc.{arg, nomem, protocol}
use encedo_hem_c_api.Env.{Env}
use encedo_hem_c_api.Context.{clear_error}
use encedo_hem_c_api.Context.Fail.{fail}
use encedo_hem_c_api.Base64.{bytes, size_mod, b64_std_encode, b64_std_encoded_len}
use encedo_hem_c_api.Json.{json_add_string, json_get_string, json_new_object}
use encedo_hem_c_api.Ejwt.{fields, string_field, print_all}
use encedo_hem_c_api.Monad.{Prog, alloc, get_ctx, put_ctx, return, ◌>>=◌}

module _ ⦃E : Env⦄ where
  abbrev pub out_of_memory : {A : Type 0} → Prog A
  out_of_memory = fail nomem 0 none (codes "out of memory")

  -- `if (!…) return ehem_ctx_fail(ctx, EHEM_ERR_ARG, …)`
  abbrev pub require : Bool → Bytes → Prog (Unit {0})
  require true message = return tt
  require false message = fail arg 0 none message

  -- `p = malloc(…)` or `calloc(…)`, and the way out where it is NULL.
  abbrev pub or_nomem : {A : Type 0} → Bool → A → Prog A
  or_nomem true a = return a
  or_nomem false a = out_of_memory

  -- `dup_str` with its caller's test: the copy, or the failure.
  unfoldable pub dup_str : Bytes → Prog Bytes
  dup_str s = do room ← alloc; or_nomem room s

  -- The copy of a string that may be NULL.
  abbrev pub dup_optional : Option Bytes → Prog (Option Bytes)
  dup_optional none = return none
  dup_optional (some s) = do copy ← dup_str s; return (some copy)

  abbrev pub copy_field : Bytes → Bytes → Bytes → Option Bytes → Prog Bytes
  copy_field what lacks key none = fail protocol 200 none (what ++ lacks ++ key ++ codes "'")
  copy_field what lacks key (some s) = dup_str s

  -- `req_str`; the files differ in the words that report a missing field.
  abbrev pub required : Bytes → E.Node → Bytes → Bytes → Prog Bytes
  required lacks root what key = copy_field what lacks key (json_get_string (some root) (some key))

  abbrev pub req_str : E.Node → Bytes → Bytes → Prog Bytes
  req_str = required (codes ": response missing '")

  -- A field that is added where the string is not NULL.
  abbrev pub optional_field : Bytes → Option Bytes → List (Option E.Node → Prog (Option E.Node))
  optional_field key none = []
  optional_field key (some v) = string_field key v ∷ []

  abbrev pub some_body : Option Bytes → Prog Bytes
  some_body none = out_of_memory
  some_body (some body) = return body

  abbrev pub add_encoded : Bytes → Option Bytes → Option E.Node → Prog (Option E.Node)
  add_encoded key none obj = return none
  add_encoded key (some b64) obj = json_add_string obj (some key) (some b64)

  -- `add_b64_field`: the text of `raw` in standard base64, through a buffer of its own.
  unfoldable pub b64_field : Bytes → Bytes → Option E.Node → Prog (Option E.Node)
  b64_field key raw obj = do
    room ← alloc
    if room
        then add_encoded key
            (b64_std_encode (bytes raw) (some ((b64_std_encoded_len (length raw) + 1) % size_mod)))
            obj
        else return none

  -- `x != NULL && x_len > 0`: a field for bytes that are there.
  abbrev pub b64_given : Bytes → Bytes → List (Option E.Node → Prog (Option E.Node))
  b64_given key [] = []
  b64_given key (c ∷ cs) = b64_field key (c ∷ cs) ∷ []

  abbrev pub b64_optional : Bytes → Option Bytes → List (Option E.Node → Prog (Option E.Node))
  b64_optional key none = []
  b64_optional key (some raw) = b64_given key raw

  -- The object with the fields added one by one, and printed: NULL where a step fails.
  abbrev pub printed : List (Option E.Node → Prog (Option E.Node)) → Prog (Option Bytes)
  printed adds = do obj ← json_new_object; obj' ← fields adds obj; print_all obj'

  unfoldable pub body_with : List (Option E.Node → Prog (Option E.Node)) → Prog Bytes
  body_with adds = do body ← printed adds; some_body body

  abbrev pub clear_last_error : Prog (Unit {0})
  clear_last_error = do ctx ← get_ctx; put_ctx (clear_error ctx)
