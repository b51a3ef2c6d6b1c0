-- ===== src/ModulePins/Check.antt =====
-- `check` and `main` of scripts/check_module_pins.py: what a pin's report says, and the exit code.
pub mod Sound
use ci_workflows.Base.{
  ℕ, Bool, true, false, not, ◌&&◌, ◌||◌, Option, none, some, List, [], ◌∷◌, ◌++◌, if◌then◌else◌,
  is_nil, last_or,
}
use ci_workflows.Base.Text.{Str, codes, str_eq, elem, starts_with, split_on}
use ci_workflows.Base.Sorting.{sort_by}
use ci_workflows.Version.{semver, is_stable, is_pseudo, triple_ltb, Triple}
use ci_workflows.ModulePins.{
  strict_modes, Floor, Dict, lookup, Checkout, detect_role, Parsed, parse_go_mod, Floors, floors,
  FloorsFile, load_floors,
}

-- `_describe`
pub data Description : Type 0 where
  pseudo released non_standard : Description

unfoldable pub describe : Str → Description
describe version =
    if is_pseudo version then pseudo else if is_stable version then released else non_standard

-- A line of the report, by its message, with the label of the module and the values in it.
pub data Message : Type 0 where
  go_mod_not_found : Message
  not_direct : Str → Str → Message
  overridden : Str → Message
  -- the version, its description, and the floor where it binds
  pinned : Str → Str → Description → Option Str → Message
  needs_stable : Str → Str → Message
  other_role : Str → Floor → Str → Message
  floor_not_stable : Str → Str → Message
  not_comparable below_floor : Str → Str → Str → Message

pub record Report : Type 0 where
  pub errors : List Message
  pub warnings : List Message
  pub report : List Message

abbrev pub nothing : Report
nothing = record { errors = []; warnings = []; report = [] }

-- What one step appends, and then the next.
infixl 60 ◌⊕◌
abbrev pub ◌⊕◌ : Report → Report → Report
a ⊕ b = record {
  errors = a.errors ++ b.errors;
  warnings = a.warnings ++ b.warnings;
  report = a.report ++ b.report;
}

abbrev pub error : Message → Report
error m = record { errors = m ∷ []; warnings = []; report = [] }

abbrev pub line : Message → Report
line m = record { errors = []; warnings = []; report = m ∷ [] }

-- `sink = errors if strict else warnings`
abbrev pub sink : Bool → Message → Report
sink strict m = if strict then error m else record { errors = []; warnings = m ∷ []; report = [] }

-- The mode, the floors and the role that a run goes by.
pub record Policy : Type 0 where
  pub strict : Bool
  pub floor_of : Dict Floor
  pub role : Str

-- The floor is for the whole fleet, or for this role.
abbrev pub binds : Policy → Floor → Bool
binds p f = is_nil f.applies_to || str_eq f.applies_to p.role

unfoldable pub compare_floor : Policy → Floor → Str → Str → Option Triple → Option Triple → Report
compare_floor p f version label none got = error (floor_not_stable label f.minimum)
compare_floor p f version label (some want) none =
    sink p.strict (not_comparable label version f.minimum)
compare_floor p f version label (some want) (some got) =
    if triple_ltb got want then sink p.strict (below_floor label version f.minimum) else nothing

unfoldable pub check_floor : Policy → Option Floor → Str → Str → Report
check_floor p none version label = nothing
check_floor p (some f) version label =
    if not (binds p f)
    then line (other_role label f p.role)
    else compare_floor p f version label (semver f.minimum) (semver version)

abbrev binding_floor : Policy → Option Floor → Option Str
binding_floor p none = none
binding_floor p (some f) = if binds p f then some f.minimum else none

-- `well_formed` behind the test for a replace directive
unfoldable pub check_version : Policy → Str → Str → Str → Report
check_version p m version label =
    let spec = lookup m p.floor_of in
    line (pinned label version (describe version) (binding_floor p spec))
    ⊕ (if p.strict && not (is_stable version) then error (needs_stable label version) else nothing)
    ⊕ check_floor p spec version label

unfoldable pub well_formed : Policy → List Str → Str → Str → Str → Report
well_formed p replaced m version label =
    if elem m replaced then error (overridden label) else check_version p m version label

-- `module.rsplit("/", 1)[-1]`
abbrev pub label_of : Str → Str
label_of m = last_or [] (split_on b'/' m)

unfoldable pub check_required : Policy → Parsed → Str → Option Str → Report
check_required p parsed m none = error (not_direct (label_of m) m)
check_required p parsed m (some version) = well_formed p parsed.replaced m version (label_of m)

unfoldable pub check_modules : Policy → Parsed → List Str → Report
check_modules p parsed [] = nothing
check_modules p parsed (m ∷ ms) =
    check_required p parsed m (lookup m parsed.requires) ⊕ check_modules p parsed ms

abbrev pub is_governed : Str → List Str → Str → Bool
is_governed prefix modules m = starts_with prefix m && not (elem m modules)

unfoldable pub check_governed : Policy → Parsed → Str → List Str → Dict Str → Report
check_governed p parsed prefix modules [] = nothing
check_governed p parsed prefix modules ((m, version) ∷ d) =
    (if is_governed prefix modules m
      then well_formed p parsed.replaced m version (label_of m ++ codes " (governed)")
      else nothing)
    ⊕ check_governed p parsed prefix modules d

-- `sorted(requires.items())`: the keys differ, so the order is theirs.
abbrev pub sorted_items : Dict Str → Dict Str
sorted_items = sort_by (λ item. item.0)

unfoldable pub check_parsed : Policy → Parsed → Str → List Str → Report
check_parsed p parsed prefix modules =
    check_modules p parsed modules
    ⊕ (if is_nil prefix
        then nothing
        else check_governed p parsed prefix modules (sorted_items parsed.requires))

-- `role or detect_role(go_mod)`
abbrev pub role_or : Str → Option Str → Option Str
role_or role detected = if is_nil role then detected else some role

-- `check`; nothing where `detect_role` raises.
unfoldable pub check : Checkout → List Str → Str → Str → Dict Floor → Str → Option Report
check c modules mode prefix floor_of role = elim c.go_mod [
  | none ↦ some (error go_mod_not_found)
  | some text ↦ (elim (role_or role (detect_role c)) [
    | none ↦ none
    | some r ↦ some (
        check_parsed (record { strict = elem mode strict_modes; floor_of = floor_of; role = r })
          (parse_go_mod text) prefix modules)
  ])
]

abbrev code_of : Option Report → ℕ
code_of none = 1
code_of (some r) = if is_nil r.errors then 0 else 1

-- The exit code of `main`, for the JSON array of `--modules` if it can be parsed; an uncaught
-- exception and a message end the process with 1.
unfoldable pub main_code : Checkout → Option (List Str) → Str → Str → FloorsFile → Str → ℕ
main_code c none mode prefix file role = 2
main_code c (some modules) mode prefix file role = elim (load_floors file) [
  | floors d ↦ code_of (check c modules mode prefix d role)
  | _ ↦ 1
]
