-- ===== src/ModulePins/Roles.antt =====
-- Roles and modes in scripts/check_module_pins.py: whom a floor binds, and what a mode changes.
use ci_workflows.Base.{
  true, false, ◌||◌, Option, none, some, List, [], ◌∷◌, ◌++◌, if◌then◌else◌, is_nil, ◌≡◌, refl,
  arith, append-eq-nil,
}
use ci_workflows.Base.Text.{Str, codes}
use ci_workflows.Version.{semver, Triple}
use ci_workflows.ModulePins.{
  Checkout, has_gateway_suffix, is_gateway_contract, detect_role, Floor, Dict, lookup, Parsed,
}
use ci_workflows.ModulePins.Check.{
  Report, nothing, ◌⊕◌, Policy, compare_floor, check_floor, check_version, well_formed, label_of,
  check_required, check_modules, is_governed, check_governed, sorted_items, check_parsed,
}

-- A checkout whose contract or whose folder's name says gateway has no other role.
pub detect_role-gateway :
    (c : Checkout) (role : Str)
    → (is_gateway_contract c.contract || has_gateway_suffix c.root_name) ≡ true
    → detect_role c ≡ some role
    → role ≡ codes "gateway"
unfolding detect_role
detect_role-gateway c role h e = ground arith

-- No error and no warning.
abbrev pub IsQuiet : Report → Type 0
IsQuiet r = (r.errors ≡ []) × (r.warnings ≡ [])

module _ (p : Policy) where
  abbrev pub strictly : Policy
  strictly = record p { strict = true }

  abbrev pub advisory : Policy
  advisory = record p { strict = false }

  compare_floor-IsQuiet :
      (f : Floor) (version label : Str) (want got : Option Triple)
      → (compare_floor strictly f version label want got).errors ≡ []
      → IsQuiet (compare_floor advisory f version label want got)
  unfolding compare_floor
  compare_floor-IsQuiet f version label none got h = cc
  compare_floor-IsQuiet f version label (some want) none h = cc
  compare_floor-IsQuiet f version label (some want) (some got) h = ground arith

  check_floor-IsQuiet :
      (o : Option Floor) (version label : Str)
      → (check_floor strictly o version label).errors ≡ []
      → IsQuiet (check_floor advisory o version label)
  unfolding check_floor
  check_floor-IsQuiet none version label h = (refl, refl)
  check_floor-IsQuiet (some f) version label h =
      ground (arith, compare_floor-IsQuiet f version label (semver f.minimum) (semver version))

  well_formed-IsQuiet :
      (replaced : List Str) (m version label : Str)
      → (well_formed strictly replaced m version label).errors ≡ []
      → IsQuiet (well_formed advisory replaced m version label)
  unfolding well_formed check_version
  well_formed-IsQuiet replaced m version label h =
      ground (arith, check_floor-IsQuiet (lookup m p.floor_of) version label)

  ⊕-IsQuiet : (a b : Report) → IsQuiet a → IsQuiet b → IsQuiet (a ⊕ b)
  ⊕-IsQuiet a b (e, w) (e', w') = (rw (e, e') refl, rw (w, w') refl)

  check_required-IsQuiet :
      (parsed : Parsed) (m : Str) (o : Option Str)
      → (check_required strictly parsed m o).errors ≡ []
      → IsQuiet (check_required advisory parsed m o)
  unfolding check_required
  check_required-IsQuiet parsed m none h = cc
  check_required-IsQuiet parsed m (some version) h =
      well_formed-IsQuiet parsed.replaced m version (label_of m) h

  check_modules-IsQuiet :
      (parsed : Parsed) (ms : List Str)
      → (check_modules strictly parsed ms).errors ≡ []
      → IsQuiet (check_modules advisory parsed ms)
  unfolding check_modules
  check_modules-IsQuiet parsed [] h = (refl, refl)
  check_modules-IsQuiet parsed (m ∷ ms) h =
      let o = lookup m parsed.requires in
      let (here, later) = append-eq-nil (check_required strictly parsed m o).errors _ h in
      ⊕-IsQuiet (check_required advisory parsed m o) (check_modules advisory parsed ms)
        (check_required-IsQuiet parsed m o here) (check_modules-IsQuiet parsed ms later)

  check_governed-IsQuiet :
      (parsed : Parsed) (prefix : Str) (modules : List Str) (d : Dict Str)
      → (check_governed strictly parsed prefix modules d).errors ≡ []
      → IsQuiet (check_governed advisory parsed prefix modules d)
  unfolding check_governed
  check_governed-IsQuiet parsed prefix modules [] h = (refl, refl)
  check_governed-IsQuiet parsed prefix modules ((m, v) ∷ d) h =
      let label = label_of m ++ codes " (governed)" in
      let this = λ (q : Policy).
        if is_governed prefix modules m then well_formed q parsed.replaced m v label else nothing in
      let (here, later) = append-eq-nil (this strictly).errors _ h in
      ⊕-IsQuiet (this advisory) (check_governed advisory parsed prefix modules d)
        (ground (arith, here, well_formed-IsQuiet parsed.replaced m v label))
        (check_governed-IsQuiet parsed prefix modules d later)

  -- What a release branch accepts passes everywhere: a go.mod without errors in a strict mode has
  -- neither errors nor warnings in an advisory one.
  check_parsed-IsQuiet :
      (parsed : Parsed) (prefix : Str) (modules : List Str)
      → (check_parsed strictly parsed prefix modules).errors ≡ []
      → IsQuiet (check_parsed advisory parsed prefix modules)
  unfolding check_parsed
  check_parsed-IsQuiet parsed prefix modules h =
      let governed = λ (q : Policy).
        if is_nil prefix
        then nothing
        else check_governed q parsed prefix modules (sorted_items parsed.requires) in
      let (here, later) = append-eq-nil (check_modules strictly parsed modules).errors _ h in
      ⊕-IsQuiet (check_modules advisory parsed modules) (governed advisory)
        (check_modules-IsQuiet parsed modules here)
        (ground (
          arith,
          later,
          check_governed-IsQuiet parsed prefix modules (sorted_items parsed.requires),
        ))
