-- ===== src/ModulePins/Check/Sound.antt =====
-- What a run of scripts/check_module_pins.py without errors has established of each pin.
use ci_workflows.Base.{
  Bool, true, false, not, ◌&&◌, Option, none, some, List, [], ◌∷◌, ◌++◌, if◌then◌else◌, is_nil, any,
  All, ◌≡◌, inl, inr, refl, arith, ◌∙◌, Bool-cases, append-eq-nil,
}
use mathlib.Core.Path.{subst₂}
use ci_workflows.Base.Text.{Str, codes, str_eq, str_eq_iff, elem}
use ci_workflows.Base.Sorting.{any-sort_by}
use ci_workflows.Version.{semver, is_stable, triple_ltb, Triple}
use ci_workflows.ModulePins.{Floor, Dict, lookup, Parsed}
use ci_workflows.ModulePins.Check.{
  needs_stable, nothing, error, Policy, binds, compare_floor, check_floor, check_version,
  well_formed, label_of, check_required, check_modules, is_governed, check_governed, sorted_items,
  check_parsed,
}

module _ (p : Policy) where
  -- The floor is a stable tag, and on a release branch the version is one that is no lower.
  abbrev pub MeetsFloor : Str → Floor → Type 0
  MeetsFloor version f =
      (want : Triple) × (semver f.minimum ≡ some want)
      × (p.strict ≡ true
          → (got : Triple) × (semver version ≡ some got) × (triple_ltb got want ≡ false))

  -- No replace directive overrides the module, its version is stable on a release branch, and it
  -- meets the floor that is declared for the module, where that binds this role.
  pub record IsGoodPin (replaced : List Str) (m version : Str) : Type 0 where
    pub not_replaced : elem m replaced ≡ false
    pub stable : p.strict ≡ true → is_stable version ≡ true
    pub floor_met :
        (f : Floor) → lookup m p.floor_of ≡ some f → binds p f ≡ true → MeetsFloor version f

  compare_floor-MeetsFloor :
      (f : Floor) (version label : Str) (want got : Option Triple)
      → semver f.minimum ≡ want
      → semver version ≡ got
      → (compare_floor p f version label want got).errors ≡ []
      → MeetsFloor version f
  unfolding compare_floor
  compare_floor-MeetsFloor f version label none got e e' h = cc
  compare_floor-MeetsFloor f version label (some want) none e e' h =
      (want, e, λ s. absurd (ground arith))
  compare_floor-MeetsFloor f version label (some want) (some got) e e' h =
      (want, e, λ s. (got, e', ground arith))

  check_floor-MeetsFloor :
      (o : Option Floor) (f : Floor) (version label : Str)
      → o ≡ some f
      → binds p f ≡ true
      → (check_floor p o version label).errors ≡ []
      → MeetsFloor version f
  check_floor-MeetsFloor none f version label e b h = cc
  check_floor-MeetsFloor (some g) f version label e b h =
      compare_floor-MeetsFloor f version label (semver f.minimum) (semver version) refl refl
        (unfold check_floor in ground arith)

  check_version-IsGoodPin :
      (replaced : List Str) (m version label : Str)
      → elem m replaced ≡ false
      → (check_version p m version label).errors ≡ []
      → IsGoodPin replaced m version
  unfolding check_version
  check_version-IsGoodPin replaced m version label kept h =
      let needed =
        if p.strict && not (is_stable version)
        then error (needs_stable label version)
        else nothing in
      let (stable, floor) = append-eq-nil needed.errors _ h in
      record {
        not_replaced = kept;
        stable = λ s. ground (arith, stable, s);
        floor_met = λ f e b. check_floor-MeetsFloor _ f version label e b floor;
      }

  -- A pin is reported without an error only if it is good.
  pub well_formed-IsGoodPin :
      (replaced : List Str) (m version label : Str)
      → (well_formed p replaced m version label).errors ≡ []
      → IsGoodPin replaced m version
  unfolding well_formed
  well_formed-IsGoodPin replaced m version label h = elim (Bool-cases (elem m replaced)) [
    | inl over ↦ absurd (ground (arith, over))
    | inr kept ↦ check_version-IsGoodPin replaced m version label kept (ground (arith, kept))
  ]

  -- The module is a direct requirement, and its pin is good.
  abbrev pub IsPinned : Parsed → Str → Type 0
  IsPinned parsed m =
      (version : Str) × (lookup m parsed.requires ≡ some version)
      × IsGoodPin parsed.replaced m version

  check_required-IsPinned :
      (parsed : Parsed) (m : Str) (o : Option Str)
      → lookup m parsed.requires ≡ o
      → (check_required p parsed m o).errors ≡ []
      → IsPinned parsed m
  unfolding check_required
  check_required-IsPinned parsed m none e h = cc
  check_required-IsPinned parsed m (some version) e h =
      (version, e, well_formed-IsGoodPin parsed.replaced m version (label_of m) h)

  check_modules-IsPinned :
      (parsed : Parsed) (ms : List Str)
      → (check_modules p parsed ms).errors ≡ []
      → All (IsPinned parsed) ms
  unfolding check_modules
  check_modules-IsPinned parsed [] h = tt
  check_modules-IsPinned parsed (m ∷ ms) h =
      let o = lookup m parsed.requires in
      let (here, later) = append-eq-nil (check_required p parsed m o).errors _ h in
      (check_required-IsPinned parsed m o refl here, check_modules-IsPinned parsed ms later)

  module _ (parsed : Parsed) (prefix : Str) (modules : List Str) where
    has_item : Str → Str → Str × Str → Bool
    has_item m version (k, v) = str_eq m k && str_eq version v

    check_governed-IsGoodPin :
        (d : Dict Str) (m version : Str)
        → (check_governed p parsed prefix modules d).errors ≡ []
        → is_governed prefix modules m ≡ true
        → any (has_item m version) d ≡ true
        → IsGoodPin parsed.replaced m version
    unfolding check_governed any has_item
    check_governed-IsGoodPin [] m version h g i = cc
    check_governed-IsGoodPin ((k, v) ∷ d) m version h g i =
        let this =
          if is_governed prefix modules k
          then well_formed p parsed.replaced k v (label_of k ++ codes " (governed)")
          else nothing in
        let (here, later) = append-eq-nil this.errors _ h in
        elim (Bool-cases (has_item m version (k, v))) [
          | inr other ↦ check_governed-IsGoodPin d m version later g (ground (arith, other))
          | inl same ↦
              let ek : k ≡ m = ground (arith, same, str_eq_iff m k) in
              let ev : v ≡ version = ground (arith, same, str_eq_iff version v) in
              subst₂ (IsGoodPin parsed.replaced) ek ev (
                well_formed-IsGoodPin parsed.replaced k v (label_of k ++ codes " (governed)")
                  (ground (arith, here, ek, g)))
        ]

    lookup-has_item :
        (d : Dict Str) (m version : Str)
        → lookup m d ≡ some version
        → any (has_item m version) d ≡ true
    unfolding lookup any has_item
    lookup-has_item [] m version h = cc
    lookup-has_item ((k, v) ∷ d) m version h =
        ground
          (arith, lookup-has_item d m version, str_eq_iff k m, str_eq_iff m k, str_eq_iff version v)

    -- A run without errors: every required module is a direct requirement whose pin is good.
    pub check_parsed-IsPinned :
        (check_parsed p parsed prefix modules).errors ≡ [] → All (IsPinned parsed) modules
    unfolding check_parsed
    check_parsed-IsPinned h =
        check_modules-IsPinned parsed modules
          (append-eq-nil (check_modules p parsed modules).errors _ h).0

    -- A run without errors, with a prefix for the platform's modules: a module under the prefix that
    -- is required and is not in the list of required modules has a good pin, too.
    check_parsed-IsGoodPin :
        (m version : Str)
        → (check_parsed p parsed prefix modules).errors ≡ []
        → is_nil prefix ≡ false
        → is_governed prefix modules m ≡ true
        → lookup m parsed.requires ≡ some version
        → IsGoodPin parsed.replaced m version
    unfolding check_parsed
    check_parsed-IsGoodPin m version h given g e =
        let (here, later) = append-eq-nil (check_modules p parsed modules).errors _ h in
        check_governed-IsGoodPin (sorted_items parsed.requires) m version
          (ground (arith, later, given)) g
          (any-sort_by (λ item. item.0) (has_item m version) parsed.requires
            ∙ lookup-has_item parsed.requires m version e)
