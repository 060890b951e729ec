-- ===== src/Json.antt =====
-- src/json.c: the tolerant JSON layer over cJSON. A node pointer is an `Option`, `none` for NULL.
-- A getter whose `out` the caller may leave NULL is read by its result: `none` for false.
use encedo_hem_c_api.Prelude.{
  ℕ, ◌-◌, ◌^◌, Bool, true, false, not, Option, none, some, Bytes, ltb, if◌then◌else◌,
}
use encedo_hem_c_api.Prelude.Int.{ℤ, pos_part}
use encedo_hem_c_api.Env.{Env}
use encedo_hem_c_api.Monad.{Prog, outside, return}

abbrev int_max : ℕ
int_max = 2 ^ 31 - 1

module _ ⦃E : Env⦄ where
  -- A test of cJSON on a node that may be NULL, which cJSON answers by false.
  abbrev test : (E.Node → Bool) → Option E.Node → Bool
  test p none = false
  test p (some node) = p node

  unfoldable pub json_parse : Option Bytes → Prog (Option E.Node)
  json_parse none = return none
  json_parse (some input) = outside (E.parse_with_length input)

  unfoldable pub json_print : E.Node → Prog (Option Bytes)
  json_print node = outside (E.print_unformatted node)

  unfoldable pub json_is_object : Option E.Node → Bool
  json_is_object = test E.is_object

  unfoldable pub json_is_array : Option E.Node → Bool
  json_is_array = test E.is_array

  unfoldable pub json_array_size : Option E.Node → ℕ
  json_array_size none = 0
  json_array_size (some arr) = if E.is_array arr then pos_part (E.get_array_size arr) else 0

  unfoldable pub json_array_get : Option E.Node → ℕ → Option E.Node
  json_array_get none i = none
  json_array_get (some arr) i =
      if not (E.is_array arr) then none else if ltb int_max i then none else E.get_array_item arr i

  unfoldable pub json_as_string : Option E.Node → Option Bytes
  json_as_string none = none
  json_as_string (some node) = if E.is_string node then E.valuestring node else none

  unfoldable pub json_get : Option E.Node → Option Bytes → Option E.Node
  json_get none key = none
  json_get (some obj) none = none
  json_get (some obj) (some key) = if E.is_object obj then E.get_object_item obj key else none

  abbrev is_some : Option E.Node → Bool
  is_some none = false
  is_some (some _) = true

  unfoldable pub json_has : Option E.Node → Option Bytes → Bool
  json_has none key = false
  json_has (some obj) none = false
  json_has (some obj) (some key) =
      if E.is_object obj then is_some (E.get_object_item obj key) else false

  unfoldable pub json_get_string : Option E.Node → Option Bytes → Option Bytes
  unfolding json_get json_as_string
  json_get_string obj key = json_as_string (json_get obj key)

  abbrev read : {A : Type 0} → (E.Node → Bool) → (E.Node → A) → Option E.Node → Option A
  read p f none = none
  read p f (some node) = if p node then some (f node) else none

  unfoldable pub json_get_int64 : Option E.Node → Option Bytes → Option ℤ
  unfolding json_get
  json_get_int64 obj key = read E.is_number E.valuedouble (json_get obj key)

  unfoldable pub json_get_bool : Option E.Node → Option Bytes → Option Bool
  unfolding json_get
  json_get_bool obj key = read E.is_bool E.is_true (json_get obj key)

  unfoldable pub json_new_object : Prog (Option E.Node)
  json_new_object = outside E.create_object

  -- The adders give the object with the field, `none` for false. cJSON changes it in place.
  unfoldable pub json_add_string :
      Option E.Node → Option Bytes → Option Bytes → Prog (Option E.Node)
  json_add_string (some obj) (some key) (some val) = outside (E.add_string_to_object obj key val)
  json_add_string _ _ _ = return none

  unfoldable pub json_add_int64 : Option E.Node → Option Bytes → ℤ → Prog (Option E.Node)
  json_add_int64 (some obj) (some key) val = outside (E.add_number_to_object obj key val)
  json_add_int64 _ _ val = return none

  unfoldable pub json_add_bool : Option E.Node → Option Bytes → Bool → Prog (Option E.Node)
  json_add_bool (some obj) (some key) val = outside (E.add_bool_to_object obj key val)
  json_add_bool _ _ val = return none
