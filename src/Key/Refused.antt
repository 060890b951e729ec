-- ===== src/Key/Refused.antt =====
-- The calls of src/proto_keymgmt.c on arguments that they refuse.
use encedo_hem_c_api.Prelude.{
  Bool, true, false, ◌&&◌, Option, Bytes, codes, length, leb, ◌==◌, ◌≡◌, refl, if◌then◌else◌, arith,
}
use encedo_hem_c_api.Rc.{arg}
use encedo_hem_c_api.Env.{Env}
use encedo_hem_c_api.Monad.{State, throw}
use encedo_hem_c_api.Send.{is_kid_hex}
use encedo_hem_c_api.Binding.Refused.{
  IsRefused, Checks, Checks-require, IsRefused-then, Checks-then, IsRefused-second, cleared,
}
use encedo_hem_c_api.Key.{label_ok, descr_ok}
use encedo_hem_c_api.Key.Change.{
  CreateParams, ImportParams, DeriveParams, check_label, check_kid, check_derive, key_create,
  key_delete, key_update, key_import, import_given, key_derive, one_peer, ext_ok,
}
use encedo_hem_c_api.Key.Search.{key_get}

abbrev pub create_with : Bytes → Bytes → Option Bytes → Option Bytes → CreateParams
create_with type label mode descr = record {
  type = type;
  label = label;
  mode = mode;
  descr = descr;
}

abbrev pub import_with : Bytes → Bytes → Bytes → Option Bytes → Option Bytes → ImportParams
import_with type label pubkey mode descr = record {
  type = type;
  label = label;
  pubkey = pubkey;
  mode = mode;
  descr = descr;
}

abbrev pub derive_with :
    Bytes → Bytes → Option Bytes → Bytes → Option Bytes → Option Bytes → DeriveParams
derive_with label type ext_kid pubkey mode descr = record {
  label = label;
  type = type;
  ext_kid = ext_kid;
  pubkey = pubkey;
  mode = mode;
  descr = descr;
}

module _ ⦃E : Env⦄ where
  Checks-label :
      (what label : Bytes) (descr : Option Bytes)
      → Checks (label_ok label && descr_ok descr) (check_label what label descr)
  unfolding check_label
  Checks-label what label descr =
      Checks-then (label_ok label) (descr_ok descr) _ _ (Checks-require (label_ok label) _)
        (Checks-require (descr_ok descr) _)

  Checks-kid : (what kid : Bytes) → Checks (is_kid_hex kid) (check_kid what kid)
  unfolding check_kid
  Checks-kid what kid = Checks-require (is_kid_hex kid) _

  create-IsRefused :
      (p : CreateParams) (s : State E.World)
      → (label_ok p.label && descr_ok p.descr) ≡ false
      → IsRefused s (key_create p s)
  unfolding key_create
  create-IsRefused p s h =
      IsRefused-then _ (cleared s) (Checks-label (codes "keymgmt/create") p.label p.descr) h

  import-IsRefused :
      (p : ImportParams) (s : State E.World)
      → (label_ok p.label && descr_ok p.descr) ≡ false
      → IsRefused s (key_import p s)
  unfolding key_import
  import-IsRefused p s h = by_key (length p.pubkey == 0)
    where
      by_key : (b : Bool) → IsRefused s ((if b then throw arg else import_given p) s)
      by_key true = (refl, refl)
      by_key false =
          IsRefused-then _ (cleared s) (Checks-label (codes "keymgmt/import") p.label p.descr) h

  update-IsRefused :
      (kid label : Bytes) (descr : Option Bytes) (s : State E.World)
      → (is_kid_hex kid && (label_ok label && descr_ok descr)) ≡ false
      → IsRefused s (key_update kid label descr s)
  unfolding key_update
  update-IsRefused kid label descr s h =
      IsRefused-second (is_kid_hex kid) (label_ok label && descr_ok descr) _ (cleared s)
        (Checks-kid (codes "keymgmt/update") kid)
        (Checks-label (codes "keymgmt/update") label descr) h

  -- What `ehem_key_derive` asks of its arguments: the ids, the label, a type of 1 to 16 bytes,
  -- exactly one peer, and the bounds of the public key and the blob.
  abbrev pub derive_ok : Bytes → DeriveParams → Bool
  derive_ok kid p =
      is_kid_hex kid
      && (label_ok p.label
          && ((leb 1 (length p.type) && leb (length p.type) 16)
              && (one_peer p.ext_kid p.pubkey
                  && (ext_ok p.ext_kid && (leb (length p.pubkey) 67 && descr_ok p.descr)))))

  Checks-derive : (kid : Bytes) (p : DeriveParams) → Checks (derive_ok kid p) (check_derive kid p)
  unfolding check_derive
  Checks-derive kid p =
      Checks-then (is_kid_hex kid) _ _ _ (Checks-kid (codes "keymgmt/derive") kid) (
        Checks-then (label_ok p.label) _ _ _ (Checks-require (label_ok p.label) _) (
          Checks-then (leb 1 (length p.type) && leb (length p.type) 16) _ _ _
            (Checks-require (leb 1 (length p.type) && leb (length p.type) 16) _)
            (Checks-then (one_peer p.ext_kid p.pubkey) _ _ _
              (Checks-require (one_peer p.ext_kid p.pubkey) _)
              (Checks-then (ext_ok p.ext_kid) _ _ _ (Checks-require (ext_ok p.ext_kid) _) (
                Checks-then (leb (length p.pubkey) 67) (descr_ok p.descr) _ _
                  (Checks-require (leb (length p.pubkey) 67) _)
                  (Checks-require (descr_ok p.descr) _))))))

  -- Arguments outside of what `derive_ok` asks for are refused by the derivation: it gives
  -- EHEM_ERR_ARG, and the world outside is as before, so that no request has been sent.
  pub key_derive-IsRefused :
      (kid : Bytes) (p : DeriveParams) (s : State E.World)
      → derive_ok kid p ≡ false
      → IsRefused s (key_derive kid p s)
  unfolding key_derive
  key_derive-IsRefused kid p s h = IsRefused-then _ (cleared s) (Checks-derive kid p) h

  -- A label that is not 1 to 32 printable bytes, or a blob of more than 64, is refused by each call
  -- that takes them, whatever its other arguments: it gives EHEM_ERR_ARG, and the world outside is
  -- as before, so that no request has been sent.
  pub label-IsRefused :
      (type label pubkey kid : Bytes) (mode descr ext_kid : Option Bytes) (s : State E.World)
      → (label_ok label && descr_ok descr) ≡ false
      → IsRefused s (key_create (create_with type label mode descr) s)
        × IsRefused s (key_import (import_with type label pubkey mode descr) s)
        × IsRefused s (key_update kid label descr s)
        × IsRefused s (key_derive kid (derive_with label type ext_kid pubkey mode descr) s)
  label-IsRefused type label pubkey kid mode descr ext_kid s h = (
    create-IsRefused (create_with type label mode descr) s h,
    import-IsRefused (import_with type label pubkey mode descr) s h,
    update-IsRefused kid label descr s (ground (arith, h)),
    key_derive-IsRefused kid (derive_with label type ext_kid pubkey mode descr) s
        (ground (arith, h)),
  )

  -- An id that is not 32 hex digits is refused by each call on a key: it gives EHEM_ERR_ARG, and
  -- the world outside is as before, so that no request has been sent.
  pub kid-IsRefused :
      (kid label : Bytes) (descr : Option Bytes) (p : DeriveParams) (s : State E.World)
      → is_kid_hex kid ≡ false
      → IsRefused s (key_delete kid s)
        × IsRefused s (key_get kid s)
        × IsRefused s (key_update kid label descr s)
        × IsRefused s (key_derive kid p s)
  unfolding key_delete key_get
  kid-IsRefused kid label descr p s h = (
    IsRefused-then _ (cleared s) (Checks-kid (codes "keymgmt/delete") kid) h,
    IsRefused-then _ (cleared s) (Checks-kid (codes "keymgmt/get") kid) h,
    update-IsRefused kid label descr s (ground (arith, h)),
    key_derive-IsRefused kid p s (ground (arith, h)),
  )
