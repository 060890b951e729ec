-- ===== src/Key/Pages.antt =====
-- src/proto_keymgmt.c: the pages of the key list, and the walk over all of them. The walk is shared
-- by the list and the search; it recurs on fuel, and gives `none` where that runs out.
use encedo_hem_c_api.Prelude.{
  ℕ, zero, suc, ◌+◌, ◌%◌, ◌^◌, Bool, true, false, ◌||◌, Option, none, some, List, [], ◌∷◌, ◌++◌,
  Bytes, codes, decimal, length, ltb, ◌==◌, if◌then◌else◌,
}
use encedo_hem_c_api.Prelude.Int.{ℤ, pos, sub_ℕ, ltb_ℤ}
use encedo_hem_c_api.Env.{Env, get}
use encedo_hem_c_api.Base64.{size_mod}
use encedo_hem_c_api.Key.{KeyEntry, KeyPage, parse_key_page}
use encedo_hem_c_api.Device.{device_json}
use encedo_hem_c_api.Binding.{clear_last_error, or_nomem}
use encedo_hem_c_api.Monad.{Prog, alloc, return, ◌>>=◌, ◌>>◌}

abbrev pub walk_page : ℕ
walk_page = 10

-- `(int64_t)n`
abbrev pub as_int64 : ℕ → ℤ
as_int64 n = if ltb n (2 ^ 63) then pos n else sub_ℕ n size_mod

abbrev pub list_path : ℕ → ℕ → Bytes
list_path offset limit =
    if ltb 0 limit
    then codes "/api/keymgmt/list/" ++ decimal offset ++ codes "/" ++ decimal limit
    else if ltb 0 offset
    then codes "/api/keymgmt/list/" ++ decimal offset
    else codes "/api/keymgmt/list"

-- `listed == 0 || (int64_t)offset >= acc->total`
abbrev pub is_last : KeyPage → ℕ → Bool
is_last page offset = length page.entries == 0 || not_below (as_int64 offset) page.total
  where
    not_below : ℤ → ℤ → Bool
    not_below a b = if ltb_ℤ a b then false else true

module _ ⦃E : Env⦄ where
  unfoldable pub key_list : ℕ → ℕ → Prog KeyPage
  key_list offset limit = do
    clear_last_error
    root ← device_json get (list_path offset limit) none (some (codes "keymgmt:list"))
    parse_key_page root

  -- The array grows only for a page that has entries.
  abbrev pub page_append : List KeyEntry → List KeyEntry → Prog (List KeyEntry)
  page_append acc [] = return acc
  page_append acc (e ∷ es) = do room ← alloc; or_nomem room (acc ++ e ∷ es)

  abbrev pub go_on :
      (List KeyEntry → ℕ → Prog (Option KeyPage))
      → KeyPage
      → ℕ
      → List KeyEntry
      → Prog (Option KeyPage)
  go_on rest page offset acc =
      if is_last page offset
      then return (some (record { offset = pos 0; total = page.total; entries = acc }))
      else rest acc offset

  -- Behind a page: its entries are taken over, and the offset grows by their number.
  abbrev pub take_page :
      (List KeyEntry → ℕ → Prog (Option KeyPage))
      → List KeyEntry
      → ℕ
      → KeyPage
      → Prog (Option KeyPage)
  take_page rest acc offset page = do
    acc' ← page_append acc page.entries
    go_on rest page ((offset + length page.entries) % size_mod) acc'

  unfoldable pub walk : (ℕ → Prog KeyPage) → ℕ → List KeyEntry → ℕ → Prog (Option KeyPage)
  walk fetch zero acc offset = return none
  walk fetch (suc fuel) acc offset =
      let rest = walk fetch fuel in do page ← fetch offset; take_page rest acc offset page

  abbrev pub list_page : ℕ → Prog KeyPage
  list_page offset = key_list offset walk_page

  unfoldable pub key_list_all : ℕ → Prog (Option KeyPage)
  key_list_all fuel = do clear_last_error; room ← alloc; or_nomem room tt; walk list_page fuel [] 0
