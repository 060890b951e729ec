-- ===== src/Key/Change.antt =====
-- src/proto_keymgmt.c: the calls that make, change and remove a key.
use encedo_hem_c_api.Prelude.{
  Bool, true, false, ◌&&◌, Option, none, some, List, [], ◌∷◌, ◌++◌, Bytes, codes, length, leb, ◌==◌,
  if◌then◌else◌,
}
use encedo_hem_c_api.Rc.{arg}
use encedo_hem_c_api.Env.{Env, delete, post}
use encedo_hem_c_api.Ejwt.{string_field}
use encedo_hem_c_api.Send.{is_kid_hex}
use encedo_hem_c_api.Key.{label_ok, descr_ok, reply_kid, changed}
use encedo_hem_c_api.Device.{device_json, device_raw}
use encedo_hem_c_api.Binding.{
  b64_given, b64_optional, body_with, clear_last_error, optional_field, require,
}
use encedo_hem_c_api.Monad.{Prog, attempt, throw, ◌>>=◌, ◌>>◌}

-- `ehem_key_create_params`
pub record CreateParams : Type 0 where
  pub type : Bytes
  pub label : Bytes
  pub mode : Option Bytes
  pub descr : Option Bytes

-- `ehem_key_import_params`; a public key that is NULL is one of no bytes.
pub record ImportParams : Type 0 where
  pub type : Bytes
  pub label : Bytes
  pub pubkey : Bytes
  pub mode : Option Bytes
  pub descr : Option Bytes

-- The arguments of `ehem_key_derive` behind the key id. An external key id may be NULL.
pub record DeriveParams : Type 0 where
  pub label : Bytes
  pub type : Bytes
  pub ext_kid : Option Bytes
  pub pubkey : Bytes
  pub mode : Option Bytes
  pub descr : Option Bytes

-- `have_ext != have_pub`
unfoldable pub one_peer : Option Bytes → Bytes → Bool
one_peer none [] = false
one_peer none (c ∷ cs) = true
one_peer (some e) [] = true
one_peer (some e) (c ∷ cs) = false

unfoldable pub ext_ok : Option Bytes → Bool
ext_ok none = true
ext_ok (some kid) = is_kid_hex kid

module _ ⦃E : Env⦄ where
  unfoldable pub check_label : Bytes → Bytes → Option Bytes → Prog (Unit {0})
  check_label what label descr = do
    require (label_ok label) (what ++ codes ": label must be 1..32 printable bytes")
    require (descr_ok descr) (what ++ codes ": descr must be at most 64 bytes")

  unfoldable pub check_kid : Bytes → Bytes → Prog (Unit {0})
  check_kid what kid = require (is_kid_hex kid) (what ++ codes ": kid must be exactly 32 hex chars")

  -- A request whose answer names a key.
  abbrev pub ask_for_key :
      Bytes → Bytes → Bytes → List (Option E.Node → Prog (Option E.Node)) → Prog Bytes
  ask_for_key what path scope adds = do
    body ← body_with adds
    root ← device_json post path (some body) (some scope)
    reply_kid what root

  abbrev pub create_fields : CreateParams → List (Option E.Node → Prog (Option E.Node))
  create_fields p =
      string_field (codes "type") p.type
        ∷ string_field (codes "label") p.label
        ∷ optional_field (codes "mode") p.mode
      ++ b64_optional (codes "descr") p.descr

  unfoldable pub key_create : CreateParams → Prog Bytes
  key_create p = do
    clear_last_error
    check_label (codes "keymgmt/create") p.label p.descr
    ask_for_key (codes "keymgmt/create") (codes "/api/keymgmt/create") (codes "keymgmt:gen")
        (create_fields p)

  unfoldable pub key_delete : Bytes → Prog (Unit {0})
  key_delete kid = do
    clear_last_error
    check_kid (codes "keymgmt/delete") kid
    r ←
        attempt (
          device_raw delete (codes "/api/keymgmt/delete/" ++ kid) none (some (codes "keymgmt:del")))
    changed (codes "keymgmt/delete") r

  abbrev pub update_fields :
      Bytes → Bytes → Option Bytes → List (Option E.Node → Prog (Option E.Node))
  update_fields kid label descr =
      string_field (codes "kid") kid
      ∷ string_field (codes "label") label
      ∷ b64_optional (codes "descr") descr

  unfoldable pub key_update : Bytes → Bytes → Option Bytes → Prog (Unit {0})
  key_update kid label descr = do
    clear_last_error
    check_kid (codes "keymgmt/update") kid
    check_label (codes "keymgmt/update") label descr
    body ← body_with (update_fields kid label descr)
    r ←
        attempt
          (device_raw post (codes "/api/keymgmt/update") (some body) (some (codes "keymgmt:upd")))
    changed (codes "keymgmt/update") r

  abbrev pub import_fields : ImportParams → List (Option E.Node → Prog (Option E.Node))
  import_fields p =
      string_field (codes "type") p.type
        ∷ string_field (codes "label") p.label
        ∷ b64_given (codes "pubkey") p.pubkey
      ++ optional_field (codes "mode") p.mode
      ++ b64_optional (codes "descr") p.descr

  abbrev pub import_given : ImportParams → Prog Bytes
  import_given p = do
    clear_last_error
    check_label (codes "keymgmt/import") p.label p.descr
    ask_for_key (codes "keymgmt/import") (codes "/api/keymgmt/import") (codes "keymgmt:imp")
        (import_fields p)

  -- A key of no bytes is refused before anything else, and the last error stays.
  unfoldable pub key_import : ImportParams → Prog Bytes
  key_import p = if length p.pubkey == 0 then throw arg else import_given p

  unfoldable pub check_derive : Bytes → DeriveParams → Prog (Unit {0})
  unfolding check_kid
  check_derive kid p = do
    check_kid (codes "keymgmt/derive") kid
    require (label_ok p.label) (codes "keymgmt/derive: label must be 1..32 printable bytes")
    require (leb 1 (length p.type) && leb (length p.type) 16)
        (codes "keymgmt/derive: type must be 1..16 chars")
    require (one_peer p.ext_kid p.pubkey) (codes "keymgmt/derive: exactly one of ext_kid / pubkey")
    require (ext_ok p.ext_kid) (codes "keymgmt/derive: ext_kid must be exactly 32 hex chars")
    require (leb (length p.pubkey) 67) (codes "keymgmt/derive: pubkey must be at most 67 bytes")
    require (descr_ok p.descr) (codes "keymgmt/derive: descr must be at most 64 bytes")

  abbrev pub derive_fields : Bytes → DeriveParams → List (Option E.Node → Prog (Option E.Node))
  derive_fields kid p =
      string_field (codes "kid") kid
        ∷ string_field (codes "label") p.label
        ∷ string_field (codes "type") p.type
        ∷ optional_field (codes "ext_kid") p.ext_kid
      ++ b64_given (codes "pubkey") p.pubkey
      ++ optional_field (codes "mode") p.mode
      ++ b64_optional (codes "descr") p.descr

  unfoldable pub key_derive : Bytes → DeriveParams → Prog Bytes
  key_derive kid p = do
    clear_last_error
    check_derive kid p
    ask_for_key (codes "keymgmt/derive") (codes "/api/keymgmt/derive") (codes "keymgmt:gen")
        (derive_fields kid p)
