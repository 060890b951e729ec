-- ===== src/Key/Walk.antt =====
-- The walk of src/proto_keymgmt.c over the pages of a list, against the repository that the pages
-- are cut from, and its end.
use encedo_hem_c_api.Prelude.{
  ℕ, zero, suc, ◌+◌, ◌%◌, ◌^◌, ◌≤◌, ◌<◌, Bool, true, false, Option, none, some, List, [], ◌∷◌, ◌++◌,
  length, take, drop, take-all, take-drop, length-take, length-drop, append-nil, ◌≡◌, ◌≢◌, refl,
  ◌∙◌, if◌then◌else◌, arith,
}
use encedo_hem_c_api.Prelude.Int.{pos, ◌≤ℤ◌}
use encedo_hem_c_api.Rc.{Rc, nomem}
use encedo_hem_c_api.Env.{Env, Result, ok, err}
use encedo_hem_c_api.Base64.{size_mod}
use encedo_hem_c_api.Monad.{State, Prog, bind_result, return}
use encedo_hem_c_api.Context.Fail.{fail}
use encedo_hem_c_api.Binding.{or_nomem}
use encedo_hem_c_api.Key.{KeyEntry, KeyPage}
use encedo_hem_c_api.Key.Pages.{is_last, page_append, go_on, take_page, walk}

-- The offset behind a page.
abbrev next : ℕ → KeyPage → ℕ
next offset page = (offset + length page.entries) % size_mod

-- Behind a page that is not the last one the walk goes on further down, and not behind T.
not_last :
    (T L offset : ℕ) (page : KeyPage)
    → page.total ≤ℤ pos T
    → length page.entries ≤ L
    → T + L < 2 ^ 63
    → offset ≤ T
    → is_last page (next offset page) ≡ false
    → (offset + 1 ≤ next offset page) × (next offset page ≤ T)
not_last T L offset page h k room o f = ground arith

-- Behind the last page of a list the offset is the list's length.
last_is_full :
    (len offset : ℕ) (page : KeyPage)
    → page.total ≡ pos len
    → ((offset < len) → (1 ≤ length page.entries))
    → offset + length page.entries ≤ len
    → len < 2 ^ 63
    → is_last page (next offset page) ≡ true
    → offset + length page.entries ≡ len
last_is_full len offset page t g k room f = ground arith

-- Where entries are cut out of a list behind an offset: how many there are.
cut_length :
    {A : Type 0} (keys es : List A) (offset n : ℕ)
    → es ≡ take n (drop offset keys)
    → offset ≤ length keys
    → ((offset < length keys) → (1 ≤ n))
    → (offset + length es ≤ length keys) × ((offset < length keys) → (1 ≤ length es))
cut_length keys es offset n e k g = rw e (
  omega (arith, length-take n (drop offset keys), length-drop offset keys),
  λ l. omega (arith, g l, length-take n (drop offset keys), length-drop offset keys),
)

-- The entries up to an offset, and those of the page that starts there.
take-cut :
    {A : Type 0} (keys es : List A) (offset n : ℕ)
    → es ≡ take n (drop offset keys)
    → take offset keys ++ es ≡ take (offset + length es) keys
take-cut keys es offset n e =
    rw e (take-drop offset n (offset + length (take n (drop offset keys))) keys refl)

abbrev merged : KeyPage → List KeyEntry → KeyPage
merged page acc = record { offset = pos 0; total = page.total; entries = acc }

module _ ⦃E : Env⦄ where
  abbrev pub OnPage : (KeyPage → Type 0) → Result KeyPage → Type 0
  OnPage P (err rc) = Unit {0}
  OnPage P (ok page) = P page

  -- One turn of the walk, for a condition that every failure satisfies.
  module _ (Q : Result (Option KeyPage) → Type 0) (failed : (rc : Rc) → Q (err rc))
      (rest : List KeyEntry → ℕ → Prog (Option KeyPage)) (acc : List KeyEntry) (offset : ℕ) where
    grown :
        (b : Bool) (acc' : List KeyEntry) (s : State E.World)
        (f : List KeyEntry → Prog (Option KeyPage))
        → ((s' : State E.World) → Q (f acc' s').0)
        → Q (bind_result (or_nomem b acc' s) f).0
    unfolding fail
    grown true acc' s f q = q s
    grown false acc' s f q = failed nomem

    after_append :
        (es : List KeyEntry) (s : State E.World) (f : List KeyEntry → Prog (Option KeyPage))
        → ((s' : State E.World) → Q (f (acc ++ es) s').0)
        → Q (bind_result (page_append acc es s) f).0
    after_append [] s f q = rw (append-nil acc) at (q s)
    after_append (e ∷ es) s f q =
        let (room, w) = E.alloc s.world in grown room (acc ++ e ∷ es) (record s { world = w }) f q

    chosen :
        (b : Bool) (page : KeyPage) (m : Prog (Option KeyPage)) (s : State E.World)
        → (b ≡ true → Q (ok (some page)))
        → (b ≡ false → Q (m s).0)
        → Q ((if b then return (some page) else m) s).0
    chosen true page m s p q = p refl
    chosen false page m s p q = q refl

    turn :
        {P : KeyPage → Type 0} (r : Result KeyPage × State E.World)
        → OnPage P r.0
        → ((page : KeyPage)
            → P page
            → is_last page (next offset page) ≡ true
            → Q (ok (some (merged page (acc ++ page.entries)))))
        → ((page : KeyPage) (s : State E.World)
            → P page
            → is_last page (next offset page) ≡ false
            → Q (rest (acc ++ page.entries) (next offset page) s).0)
        → Q (bind_result r (take_page rest acc offset)).0
    turn (err rc, s) p end go = failed rc
    turn (ok page, s) p end go =
        after_append page.entries s (go_on rest page (next offset page)) (λ s'.
          chosen (is_last page (next offset page)) (merged page (acc ++ page.entries))
            (rest (acc ++ page.entries) (next offset page)) s' (end page p) (go page s' p))

  abbrev IsDone : Result (Option KeyPage) → Type 0
  IsDone r = r ≢ ok none

  -- What is known of a page that was fetched: bounds on the total it reports and on its length.
  abbrev pub IsBounded : ℕ → ℕ → KeyPage → Type 0
  IsBounded T L page = (page.total ≤ℤ pos T) × (length page.entries ≤ L)

  -- The walk comes to an end: where no page reports a total above T or lists more than L entries,
  -- and T + L is below 2 ^ 63, a walk from an offset of at most T does not use up its fuel, if that
  -- is more than T less the offset.
  pub walk-IsDone :
      (fetch : ℕ → Prog KeyPage) (T L fuel offset : ℕ) (acc : List KeyEntry) (s : State E.World)
      → ((offset' : ℕ) (s' : State E.World) → OnPage (IsBounded T L) (fetch offset' s').0)
      → T + L < 2 ^ 63
      → T < fuel + offset
      → offset ≤ T
      → IsDone (walk fetch fuel acc offset s).0
  unfolding walk
  walk-IsDone fetch T L zero offset acc s bounded room h k = omega arith
  walk-IsDone fetch T L (suc fuel) offset acc s bounded room h k =
      turn IsDone (λ rc. cc) (walk fetch fuel) acc offset (fetch offset s) (bounded offset s)
        (λ page p f. cc)
        (λ page s' (p, q) f.
          let (low, high) = not_last T L offset page p q room k f in
          walk-IsDone fetch T L fuel (next offset page) (acc ++ page.entries) s' bounded room
            (omega arith) high)

  -- A page of a list of keys that starts at an offset: entries from there on, at least one where
  -- there is one, and the list's length as the total.
  abbrev pub IsPageOf : List KeyEntry → ℕ → KeyPage → Type 0
  IsPageOf keys offset page =
      (page.total ≡ pos (length keys))
      × ((n : ℕ) × (page.entries ≡ take n (drop offset keys)) × ((offset < length keys) → (1 ≤ n)))

  abbrev pub IsAll : List KeyEntry → Result (Option KeyPage) → Type 0
  IsAll keys (ok (some page)) = (page.entries ≡ keys) × (page.total ≡ pos (length keys))
  IsAll keys (ok none) = Unit {0}
  IsAll keys (err rc) = Unit {0}

  -- The whole list, unless memory or a fetch fails or the fuel runs out.
  pub walk-IsAll :
      (fetch : ℕ → Prog KeyPage) (keys : List KeyEntry) (fuel offset : ℕ) (s : State E.World)
      → ((offset' : ℕ) (s' : State E.World) → OnPage (IsPageOf keys offset') (fetch offset' s').0)
      → length keys < 2 ^ 63
      → offset ≤ length keys
      → IsAll keys (walk fetch fuel (take offset keys) offset s).0
  unfolding walk
  walk-IsAll fetch keys zero offset s pages room k = tt
  walk-IsAll fetch keys (suc fuel) offset s pages room k =
      turn (IsAll keys) (λ rc. tt) (walk fetch fuel) (take offset keys) offset (fetch offset s)
        (pages offset s)
        (λ page (t, (n, e, g)) f.
          let (low, high) = cut_length keys page.entries offset n e k g in
          let full = last_is_full (length keys) offset page t high low room f in
          (
            take-cut keys page.entries offset n e
                ∙ take-all (offset + length page.entries) keys (omega arith),
            t,
          ))
        (λ page s' (t, (n, e, g)) f.
          let (low, high) = cut_length keys page.entries offset n e k g in
          let same : next offset page ≡ offset + length page.entries = omega arith in
          rw (take-cut keys page.entries offset n e, same)
            (walk-IsAll fetch keys fuel (offset + length page.entries) s' pages room low))

  abbrev pub IsWhole : List KeyEntry → Result (Option KeyPage) → Type 0
  IsWhole keys (ok (some page)) = (page.entries ≡ keys) × (page.total ≡ pos (length keys))
  IsWhole keys (ok none) = ⊥
  IsWhole keys (err rc) = Unit {0}

  whole :
      (keys : List KeyEntry) (r : Result (Option KeyPage))
      → IsDone r
      → IsAll keys r
      → IsWhole keys r
  whole keys (ok (some page)) d a = a
  whole keys (ok none) d a = d refl
  whole keys (err rc) d a = tt

  page-IsBounded :
      (keys : List KeyEntry) (offset : ℕ) (r : Result KeyPage)
      → OnPage (IsPageOf keys offset) r
      → OnPage (IsBounded (length keys) (length keys)) r
  page-IsBounded keys offset (ok page) (t, (n, e, g)) = (
    rw t (omega arith),
    rw e (omega (arith, length-take n (drop offset keys), length-drop offset keys)),
  )
  page-IsBounded keys offset (err rc) p = tt

  -- Over a list of fewer than 2 ^ 62 keys whose pages all have the list's length as their total and
  -- at least one entry where any is left: a walk with fuel for more pages than there are keys
  -- either reports a failure, or merges the pages into the whole list in its order, each key once.
  pub walk-IsWhole :
      (fetch : ℕ → Prog KeyPage) (keys : List KeyEntry) (fuel : ℕ) (s : State E.World)
      → ((offset : ℕ) (s' : State E.World) → OnPage (IsPageOf keys offset) (fetch offset s').0)
      → length keys < 2 ^ 62
      → length keys < fuel
      → IsWhole keys (walk fetch fuel [] 0 s).0
  walk-IsWhole fetch keys fuel s pages room h =
      whole keys (walk fetch fuel [] 0 s).0
        (walk-IsDone fetch (length keys) (length keys) fuel 0 [] s
          (λ offset s'. page-IsBounded keys offset (fetch offset s').0 (pages offset s'))
          (omega arith) (omega arith) (omega arith))
        (walk-IsAll fetch keys fuel 0 s pages (omega arith) (omega arith))
