-- ===== src/Key/Named.antt =====
-- The key ids that the calls of src/proto_keymgmt.c give, and the patterns that they search for.
use encedo_hem_c_api.Prelude.{
  ℕ, ◌<◌, ◌^◌, ◌%◌, ◌+◌, Bool, true, false, Option, none, some, List, ◌++◌, Bytes, codes, All,
  length, ◌≡◌, refl, ◌==◌, if◌then◌else◌, arith,
}
use encedo_hem_c_api.Rc.{arg, protocol, nomem}
use encedo_hem_c_api.Env.{Env, Result, ok, err, post}
use encedo_hem_c_api.Base64.{bytes, size_mod, b64_std_encode, b64_std_encoded_len, b64_std_decode}
use encedo_hem_c_api.Base64.Sextets.{IsByte}
use encedo_hem_c_api.Base64.RoundTrip.{b64_std_decode-b64_std_encode, b64_std_encode-fits}
use encedo_hem_c_api.Context.{Ctx, clear_error}
use encedo_hem_c_api.Context.Fail.{fail}
use encedo_hem_c_api.Json.{json_get_string}
use encedo_hem_c_api.Binding.{body_with}
use encedo_hem_c_api.Device.{device_json}
use encedo_hem_c_api.Monad.{State, Prog, throw, return, ◌>>◌}
use encedo_hem_c_api.Monad.Post.{Gives, Post, Gives-fail, Gives-bind}
use encedo_hem_c_api.Send.{is_kid_hex}
use encedo_hem_c_api.Key.{kid_of}
use encedo_hem_c_api.Key.Change.{
  CreateParams, ImportParams, DeriveParams, key_create, key_import, import_given, key_derive,
  check_label, check_derive, ask_for_key, create_fields, import_fields, derive_fields,
}
use encedo_hem_c_api.Key.Search.{
  SearchMode, substring, prefix, suffix, anchored, anchor, build_search_descr,
}

module _ ⦃E : Env⦄ where
  abbrev pub IsKid : Bytes → Ctx → Type 0
  IsKid kid c = is_kid_hex kid ≡ true

  Gives-kid_of : (what : Bytes) (field : Option Bytes) → Gives IsKid (kid_of what field)
  Gives-kid_of what none = Gives-fail IsKid protocol 200 none _
  Gives-kid_of what (some kid) = checked (is_kid_hex kid) refl
    where
      checked :
          (b : Bool)
          → is_kid_hex kid ≡ b
          → Gives IsKid (
              if b
              then return kid
              else fail protocol 200 none (what ++ codes ": 'kid' is not 32 hex chars"))
      checked true h = record { holds = λ s. h }
      checked false h = Gives-fail IsKid protocol 200 none _

  Gives-ask_for_key :
      (what path scope : Bytes) (adds : List (Option E.Node → Prog (Option E.Node)))
      → Gives IsKid (ask_for_key what path scope adds)
  Gives-ask_for_key what path scope adds = Gives-bind IsKid (body_with adds) _ (λ body.
      Gives-bind IsKid (device_json post path (some body) (some scope)) _
        (λ root. Gives-kid_of what (json_get_string (some root) (some (codes "kid")))))

  behind :
      (m : Prog (Unit {0})) {n : Prog Bytes}
      → Gives IsKid n
      → (s : State E.World) → Post IsKid ((m >> n) s)
  behind m {n = n} g s = (Gives-bind IsKid m (λ _. n) (λ _. g)).holds s

  import-IsKid : (i : ImportParams) (s : State E.World) → Post IsKid (key_import i s)
  unfolding key_import
  import-IsKid i s = by_key (length i.pubkey == 0)
    where
      by_key : (b : Bool) → Post IsKid ((if b then throw arg else import_given i) s)
      by_key true = tt
      by_key false =
          behind (check_label (codes "keymgmt/import") i.label i.descr)
            (Gives-ask_for_key (codes "keymgmt/import") (codes "/api/keymgmt/import")
              (codes "keymgmt:imp") (import_fields i))
            (record s { ctx = clear_error s.ctx })

  -- A key id that a creation, an import or a derivation gives is 32 hex digits, whatever the device
  -- replies.
  pub made-IsKid :
      (c : CreateParams) (i : ImportParams) (d : DeriveParams) (kid : Bytes) (s : State E.World)
      → Post IsKid (key_create c s) × Post IsKid (key_import i s) × Post IsKid (key_derive kid d s)
  unfolding key_create key_derive
  made-IsKid c i d kid s = (
    behind (check_label (codes "keymgmt/create") c.label c.descr)
        (Gives-ask_for_key (codes "keymgmt/create") (codes "/api/keymgmt/create")
          (codes "keymgmt:gen") (create_fields c))
        (record s { ctx = clear_error s.ctx }),
    import-IsKid i s,
    behind (check_derive kid d)
        (Gives-ask_for_key (codes "keymgmt/derive") (codes "/api/keymgmt/derive")
          (codes "keymgmt:gen") (derive_fields kid d))
        (record s { ctx = clear_error s.ctx }),
  )

-- The pattern of a mode about a text: a caret in front of it for a prefix, a dollar sign behind it for a
-- suffix.
abbrev pub IsPattern : SearchMode → Bytes → Bytes → Type 0
IsPattern substring descr b64 = descr ≡ b64
IsPattern prefix descr b64 = descr ≡ codes "^" ++ b64
IsPattern suffix descr b64 = descr ≡ b64 ++ codes "$"

anchored-IsPattern : (mode : SearchMode) (b64 : Bytes) → IsPattern mode (anchored mode b64) b64
unfolding anchored
anchored-IsPattern substring b64 = refl
anchored-IsPattern prefix b64 = refl
anchored-IsPattern suffix b64 = refl

module _ ⦃E : Env⦄ where
  -- With memory, a pattern about a text that decodes to the bytes; without, the lack of it is reported.
  abbrev pub Decodes : SearchMode → Bytes → Bool → Result Bytes → Type 0
  Decodes mode pattern true r =
      (descr b64 : Bytes) × (r ≡ ok descr)
      × IsPattern mode descr b64
      × (b64_std_decode (bytes b64) (some (length pattern)) ≡ some pattern)
  Decodes mode pattern false r = r ≡ err nomem

  -- Where memory is allocated, the pattern of a search for any bytes (fewer than 2 ^ 62 of them) is
  -- built, and it is a text that decodes to them: on its own for a substring, behind a caret for a
  -- prefix, before a dollar sign for a suffix. Where no memory is to be had, and only then, the
  -- outcome is EHEM_ERR_NOMEM.
  pub build_search_descr-Decodes :
      (mode : SearchMode) (pattern : Bytes) (s : State E.World)
      → All IsByte pattern
      → length pattern < 2 ^ 62
      → Decodes mode pattern (E.alloc s.world).0 (build_search_descr mode (bytes pattern) s).0
  unfolding build_search_descr
  build_search_descr-Decodes mode pattern s h small = made (E.alloc s.world)
    where
      cap : ℕ
      cap = (b64_std_encoded_len (length pattern) + 1) % size_mod

      built :
          (o : Option Bytes) (w : E.World)
          → b64_std_encode (bytes pattern) (some cap) ≡ o
          → ((b64 : Bytes) × (b64_std_encode (bytes pattern) (some cap) ≡ some b64))
          → Decodes mode pattern true (anchor mode o (record s { world = w })).0
      built none w e (b64, f) = cc
      built (some b64) w e f = (
        anchored mode b64,
        b64,
        refl,
        anchored-IsPattern mode b64,
        b64_std_decode-b64_std_encode pattern b64 cap (length pattern) h small (omega arith) e,
      )

      made :
          (r : Bool × E.World)
          → Decodes mode pattern r.0
              ((if r.0
                  then anchor mode (b64_std_encode (bytes pattern) (some cap))
                  else throw nomem)
                (record s { world = r.1 })).0
      made (true, w) =
          built (b64_std_encode (bytes pattern) (some cap)) w refl
            (b64_std_encode-fits pattern h small)
      made (false, w) = refl
