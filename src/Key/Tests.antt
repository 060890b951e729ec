-- ===== src/Key/Tests.antt =====
-- The keys of a scripted device.
use encedo_hem_c_api.Prelude.{
  ℕ, ◌≤◌, ◌≢◌, true, false, none, some, List, [], ◌∷◌, Bytes, codes, c_string, bytes_eq, length,
  take, drop, length-take, ◌&&◌, ◌≡◌, refl, arith,
}
use encedo_hem_c_api.Prelude.Int.{pos}
use encedo_hem_c_api.Env.{ok}
use encedo_hem_c_api.Base64.{bytes, b64_std_encode, b64_std_encoded_len}
use encedo_hem_c_api.Context.{Auth, clear_error}
use encedo_hem_c_api.Monad.{State, Prog, return}
use encedo_hem_c_api.Monad.Post.{Post}
use encedo_hem_c_api.Json.{
  json_parse, json_is_object, json_get_string, json_new_object, json_add_string, json_print,
}
use encedo_hem_c_api.Transport.{transport_send}
use encedo_hem_c_api.Send.{request_of, pace, do_send, is_kid_hex, kid_hex_loop, is_hex}
use encedo_hem_c_api.Request.{
  bearer_for, exchange, after_first, reauthenticate, deliver, deliver_body, request_over,
  request_raw, request_json,
}
use encedo_hem_c_api.Token.Ensure.{ensure_token}
use encedo_hem_c_api.Token.{cached_token}
use encedo_hem_c_api.Cache.{find}
use encedo_hem_c_api.Binding.{body_with, b64_field}
use encedo_hem_c_api.Device.{device_json}
use encedo_hem_c_api.Key.{KeyEntry, KeyPage, label_ok, all_print, is_print, descr_ok}
use encedo_hem_c_api.Key.Pages.{walk}
use encedo_hem_c_api.Key.Change.{
  CreateParams, ImportParams, DeriveParams, key_create, key_import, key_update, key_delete,
  key_derive, check_label,
}
use encedo_hem_c_api.Key.Search.{key_get, suffix, build_search_descr}
use encedo_hem_c_api.Key.Walk.{IsWhole, walk-IsWhole, walk-IsDone}
use encedo_hem_c_api.Binding.Refused.{IsRefused}
use encedo_hem_c_api.Key.Refused.{
  create_with, import_with, derive_with, label-IsRefused, kid-IsRefused,
}
use encedo_hem_c_api.Key.Named.{IsKid, made-IsKid, Decodes, build_search_descr-Decodes}
use encedo_hem_c_api.Fixture.{World, test_env, start, test_ctx, with_replies, success}

abbrev key_at : Bytes → KeyEntry
key_at kid = record {
  kid = kid;
  type = codes "ED25519";
  label = none;
  descr = none;
  created = pos 0;
  updated = pos 0;
}

abbrev keys : List KeyEntry
keys = key_at (codes "a") ∷ key_at (codes "b") ∷ key_at (codes "c") ∷ []

-- A device that gives two keys at a time.
abbrev two_at_a_time : ℕ → Prog KeyPage
two_at_a_time offset =
    return (record { offset = pos offset; total = pos 3; entries = take 2 (drop offset keys) })

walk-IsWhole_example : IsWhole keys (walk two_at_a_time 4 [] 0 start).0
walk-IsWhole_example =
    walk-IsWhole two_at_a_time keys 4 start (λ offset s'. (refl, (2, refl, λ h. omega arith)))
      (omega arith) (omega arith)

merges : IsWhole keys (walk two_at_a_time 2 [] 0 start).0
unfolding walk
merges = (refl, refl)

no_more_than_two : (offset : ℕ) → length (take 2 (drop offset keys)) ≤ 2
no_more_than_two offset = omega (arith, length-take 2 (drop offset keys))

walk-IsDone_example : (walk two_at_a_time 4 [] 0 start).0 ≢ ok none
walk-IsDone_example =
    walk-IsDone two_at_a_time 3 2 4 0 [] start
      (λ offset' s'. (omega arith, no_more_than_two offset')) (omega arith) (omega arith)
      (omega arith)

-- A session with a token for the scope of new keys.
abbrev session : Auth
session = record {
  passphrase = some (codes "secret");
  retain = true;
  username = none;
  mobile = false;
  cache = record { scope = codes "keymgmt:gen"; token = codes "t"; exp = pos 5000 } ∷ [];
}

abbrev ready : State World
ready = record (with_replies (success (codes "{kid}") ∷ [])) {
  ctx = record test_ctx { auth = some session };
}

abbrev new_key : CreateParams
new_key = create_with (codes "ED25519") (codes "signing") none (some (1 ∷ 2 ∷ []))

abbrev public_key : ImportParams
public_key = import_with (codes "ED25519") (codes "peer") (1 ∷ 2 ∷ []) none none

abbrev kid : Bytes
kid = codes "0123456789abcdef0123456789ABCDEF"

abbrev agreed : DeriveParams
agreed = derive_with (codes "shared") (codes "AES256") none (1 ∷ 2 ∷ []) none none

creates : (key_create new_key ready).0 ≡ ok kid
unfolding key_create check_label label_ok all_print is_print descr_ok body_with b64_field
    b64_std_encode b64_std_encoded_len json_new_object json_add_string json_print device_json
    request_json request_raw request_over bearer_for ensure_token find bytes_eq exchange after_first
    do_send pace transport_send request_of reauthenticate deliver deliver_body json_parse c_string
    json_is_object json_get_string is_kid_hex kid_hex_loop is_hex clear_error cached_token
creates = refl

made-IsKid_example :
    Post IsKid (key_create new_key ready)
    × Post IsKid (key_import public_key ready)
    × Post IsKid (key_derive kid agreed ready)
made-IsKid_example = made-IsKid new_key public_key agreed kid ready

bad_label : (label_ok (codes "a\nb") && descr_ok none) ≡ false
unfolding label_ok all_print is_print
bad_label = refl

label-IsRefused_example :
    IsRefused ready (key_create (create_with (codes "AES256") (codes "a\nb") none none) ready)
    × IsRefused ready
        (key_import (import_with (codes "AES256") (codes "a\nb") (1 ∷ []) none none) ready)
    × IsRefused ready (key_update kid (codes "a\nb") none ready)
    × IsRefused ready
        (key_derive kid (derive_with (codes "a\nb") (codes "AES256") none (1 ∷ []) none none) ready)
label-IsRefused_example =
    label-IsRefused (codes "AES256") (codes "a\nb") (1 ∷ []) kid none none none ready bad_label

short_kid : is_kid_hex (codes "0123") ≡ false
unfolding is_kid_hex kid_hex_loop is_hex
short_kid = refl

kid-IsRefused_example :
    IsRefused ready (key_delete (codes "0123") ready)
    × IsRefused ready (key_get (codes "0123") ready)
    × IsRefused ready (key_update (codes "0123") (codes "a") none ready)
    × IsRefused ready (key_derive (codes "0123") agreed ready)
kid-IsRefused_example = kid-IsRefused (codes "0123") (codes "a") none agreed ready short_kid

abbrev pattern_bytes : Bytes
pattern_bytes = 1 ∷ 255 ∷ 0 ∷ 7 ∷ []

build_search_descr-Decodes_example :
    Decodes suffix pattern_bytes true (build_search_descr suffix (bytes pattern_bytes) ready).0
build_search_descr-Decodes_example =
    build_search_descr-Decodes suffix pattern_bytes ready (omega arith) (omega arith)
