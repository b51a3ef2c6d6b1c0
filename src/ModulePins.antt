-- ===== src/ModulePins.antt =====
-- scripts/check_module_pins.py: how a repository may pin the platform's own Go modules.
pub mod GoMod
pub mod Roles
pub mod Check
use ci_workflows.Base.{
  ℕ, Bool, true, false, not, ◌&&◌, ◌||◌, Option, none, some, List, [], ◌∷◌, ◌++◌, ◌==◌,
  if◌then◌else◌, is_nil, any, filter, last_or, leb, length,
}
use ci_workflows.Base.Text.{
  Str, codes, str_eq, elem, strip, starts_with, ends_with, has_sub, split_on, words, splitlines,
  lower,
}
use ci_workflows.Base.Sorting.{sort_by}
use ci_workflows.Version.{semver, is_stable, is_pseudo, triple_ltb, Triple}

abbrev pub strict_modes : List Str
strict_modes = codes "preprod" ∷ codes "prod" ∷ []

-- `ROLES`
abbrev pub roles : List Str
roles = codes "gateway" ∷ codes "service" ∷ []

abbrev pub gateway_suffixes : List Str
gateway_suffixes = codes "-gateway" ∷ codes "-bff" ∷ []

-- An empty role is the whole fleet.
pub record Floor : Type 0 where
  pub minimum : Str
  pub applies_to : Str

-- A `dict` in the order of insertion.
abbrev pub Dict : Type 0 → Type 0
Dict A = List (Str × A)

unfoldable pub lookup : {A : Type 0} → Str → Dict A → Option A
lookup k [] = none
lookup k ((j, v) ∷ d) = if str_eq j k then some v else lookup k d

unfoldable pub insert : {A : Type 0} → Str → A → Dict A → Dict A
insert k v [] = (k, v) ∷ []
insert k v ((j, w) ∷ d) = if str_eq j k then (j, v) ∷ d else (j, w) ∷ insert k v d

-- What the YAML file declares for a module: a version, or a mapping with `min` and `applies_to`.
pub data Spec : Type 0 where
  plain : Str → Spec
  scoped : Option Str → Option Str → Spec

-- The floors file: absent, without PyYAML, without a mapping, or with one.
pub data FloorsFile : Type 0 where
  no_file no_yaml no_mapping : FloorsFile
  mapping : Dict Spec → FloorsFile

-- The floors, or why the script ends: a message, or a `KeyError` on `min`.
pub data Floors : Type 0 where
  floors : Dict Floor → Floors
  needs_yaml needs_mapping key_error : Floors
  unknown_role : Str → Str → Floors

abbrev pub or_empty : Option Str → Str
or_empty none = []
or_empty (some s) = s

add_floor : Str → Floor → Floors → Floors
add_floor m f (floors d) = floors ((m, f) ∷ d)
add_floor m f end = end

scoped_floor : Str → Str → Option Str → Floors → Floors
scoped_floor m scope none rest = key_error
scoped_floor m scope (some v) rest = add_floor m (record { minimum = v; applies_to = scope }) rest

unfoldable pub read_floors : Dict Spec → Floors
unfolding add_floor scoped_floor
read_floors [] = floors []
read_floors ((m, plain v) ∷ d) =
    add_floor m (record { minimum = v; applies_to = [] }) (read_floors d)
read_floors ((m, scoped min applies_to) ∷ d) =
    let scope = or_empty applies_to in
    let rest = read_floors d in
    if not (is_nil scope) && not (elem scope roles)
    then unknown_role m scope
    else scoped_floor m scope min rest

unfoldable pub load_floors : FloorsFile → Floors
load_floors no_file = floors []
load_floors no_yaml = needs_yaml
load_floors no_mapping = needs_mapping
load_floors (mapping d) = read_floors d

-- The service contract: absent, unreadable or without a service, or a service with its type and
-- name.
pub data Contract : Type 0 where
  no_contract : Contract
  service : Option Str → Option Str → Contract

-- A checkout: the text of go.mod, if it is a file, the contract beside it and the folder's name.
pub record Checkout : Type 0 where
  pub go_mod : Option Str
  pub contract : Contract
  pub root_name : Str

abbrev pub has_gateway_suffix : Str → Bool
has_gateway_suffix s = any (λ suffix. ends_with suffix s) gateway_suffixes

unfoldable pub is_gateway_contract : Contract → Bool
is_gateway_contract no_contract = false
is_gateway_contract (service kind name) =
    elem (lower (or_empty kind)) (codes "gateway" ∷ codes "bff" ∷ [])
    || has_gateway_suffix (or_empty name)

-- `line.split()[1]`; a line without a second word is an `IndexError`, which is `none`.
abbrev pub second_word : List Str → Option Str
second_word [] = none
second_word (w ∷ []) = none
second_word (w ∷ v ∷ ws) = some v

-- The module line's path, and nothing where no line begins so.
unfoldable pub module_path : List Str → Option Str
module_path [] = some []
module_path (line ∷ lines) =
    if starts_with (codes "module ") line then second_word (words line) else module_path lines

unfoldable pub detect_role : Checkout → Option Str
detect_role c =
    if is_gateway_contract c.contract
    then some (codes "gateway")
    else (elim (module_path (splitlines (or_empty c.go_mod))) [
      | none ↦ none
      | some path ↦ some (
          if has_gateway_suffix path || has_gateway_suffix c.root_name
          then codes "gateway"
          else codes "service")
    ])

-- The state of the loop over go.mod.
pub data Block : Type 0 where
  outside in_require in_replace : Block

pub record Parsed : Type 0 where
  pub requires : Dict Str
  pub replaced : List Str

-- `raw.split("//")[0]`
unfoldable pub before_comment : Str → Str
before_comment [] = []
before_comment (c ∷ s) = if starts_with (codes "//") (c ∷ s) then [] else c ∷ before_comment s

abbrev pub require_module : Bool → Str → Str → Parsed → Parsed
require_module indirect m v p =
    if indirect then p else record p { requires = insert m v p.requires }

abbrev pub replace_module : Str → Parsed → Parsed
replace_module m p = record p {
  replaced = if elem m p.replaced then p.replaced else p.replaced ++ m ∷ [];
}

-- `require a v` and `replace a ...` on one line, by the words of the line.
abbrev pub on_directive : Bool → Block → List Str → Parsed → Parsed
on_directive indirect in_require (m ∷ v ∷ ws) p = require_module indirect m v p
on_directive indirect in_replace (m ∷ ws) p = replace_module m p
on_directive indirect _ _ p = p

abbrev pub drop_first : List Str → List Str
drop_first [] = []
drop_first (w ∷ ws) = ws

-- A line that opens or closes no block.
unfoldable pub on_entry : Bool → Block → Str → Parsed → Parsed
on_entry indirect block line p =
    let parts = words line in
    if starts_with (codes "require ") line && leb 3 (length parts)
    then on_directive indirect in_require (drop_first parts) p
    else if starts_with (codes "replace ") line && leb 2 (length parts)
    then on_directive indirect in_replace (drop_first parts) p
    else on_directive indirect block parts p

unfoldable pub on_line : Str → Block × Parsed → Block × Parsed
unfolding before_comment on_entry
on_line raw (block, p) =
    let line = strip (before_comment raw) in
    let indirect = has_sub (codes "// indirect") raw in
    if is_nil line
    then (block, p)
    else if starts_with (codes "require (") line || str_eq line (codes "require(")
    then (in_require, p)
    else if starts_with (codes "replace (") line || str_eq line (codes "replace(")
    then (in_replace, p)
    else if str_eq line (codes ")")
    then (outside, p)
    else (block, on_entry indirect block line p)

unfoldable pub parse_lines : List Str → Block × Parsed → Parsed
parse_lines [] (block, p) = p
parse_lines (raw ∷ lines) state = parse_lines lines (on_line raw state)

unfoldable pub parse_go_mod : Str → Parsed
parse_go_mod text = parse_lines (splitlines text) (outside, record { requires = []; replaced = [] })
