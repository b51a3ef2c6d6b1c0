-- ===== src/OperationIds/Registry.antt =====
-- The lock of scripts/check_operation_ids.py, and `do_check`.
use ci_workflows.Base.{
  ℕ, Bool, true, false, not, ◌&&◌, Option, none, some, List, [], ◌∷◌, if◌then◌else◌, is_nil, all,
  filter, length,
}
use ci_workflows.Base.Text.{Str, str_eq, elem}
use ci_workflows.Base.Sorting.{sorted}
use ci_workflows.ModulePins.{Dict, insert}
use ci_workflows.OperationIds.{
  visibilities, Spec, spec_missing, lock_missing, malformed_entry, metadata_failed, version_differs,
  set_drifted, Result, died, ok, Contexts, bounded_contexts, keys, spec_operation_ids,
}

-- A field that is missing, null, or a text.
pub data Field : Type 0 where
  missing null : Field
  text : Str → Field

-- A value under "deprecated": whether it is a Boolean, and whether it counts as true.
pub record Flag : Type 0 where
  pub is_boolean : Bool
  pub truthy : Bool

-- `since` is the text of its value.
pub record Entry : Type 0 where
  pub operation_id : Option Str
  pub since : Option Str
  pub deprecated : Option Flag
  pub visibility : Field

-- An element of "operations" is no object, or an object.
pub data Element : Type 0 where
  no_object : Element
  object : Entry → Element

pub record Lock : Type 0 where
  pub version : Option Str
  pub bounded : Contexts
  pub operations : List Element

abbrev pub is_given : {A : Type 0} → Option A → Bool
is_given none = false
is_given (some a) = true

abbrev pub good_visibility : Field → Bool
good_visibility missing = false
good_visibility null = true
good_visibility (text v) = elem v visibilities

abbrev pub good_flag : Option Flag → Bool
good_flag none = false
good_flag (some f) = f.is_boolean

-- The entry has its four fields, of the right kind. On no object the script raises.
unfoldable pub good_entry : Element → Bool
good_entry no_object = false
good_entry (object e) =
    is_given e.operation_id
    && (is_given e.since && (good_flag e.deprecated && good_visibility e.visibility))

-- `validate_lock_metadata` passes.
unfoldable pub metadata_valid : Lock → Bool
metadata_valid lock = all good_entry lock.operations

abbrev register : Entry → Option Str → Dict Entry → Option (Dict Entry)
register e none d = none
register e (some oid) d = some (insert oid e d)

unfoldable pub register_all : List Element → Dict Entry → Option (Dict Entry)
register_all [] d = some d
register_all (no_object ∷ es) d = none
register_all (object e ∷ es) d = elim (register e e.operation_id d) [
  | none ↦ none
  | some d' ↦ register_all es d'
]

unfoldable pub lock_operations : Lock → Result (Dict Entry)
lock_operations lock = elim (register_all lock.operations []) [
  | none ↦ died malformed_entry
  | some d ↦ ok d
]

-- `a - b` on sets
unfoldable pub difference : List Str → List Str → List Str
difference xs ys = filter (λ x. not (elem x ys)) xs

abbrev pub or_text : Option Str → Str → Str
or_text none d = d
or_text (some s) d = s

-- `do_check` from the comparison of the versions on
unfoldable pub compare_sets : Str → Str → List Str → List Str → Result ℕ
compare_sets spec_version lock_version ids lock_ids =
    let added = sorted (difference ids lock_ids) in
    let removed = sorted (difference lock_ids ids) in
    if not (str_eq lock_version spec_version)
    then died (version_differs lock_version spec_version)
    else if is_nil added && is_nil removed
    then ok (length ids)
    else died (set_drifted added removed)

unfoldable pub check_registry : Spec → Lock → Dict Str → Result ℕ
check_registry spec lock ops =
    if not (metadata_valid lock) then died metadata_failed else (elim (lock_operations lock) [
      | died why ↦ died why
      | ok prior ↦ compare_sets spec.version (or_text lock.version []) (keys ops) (keys prior)
    ])

unfoldable pub check_contexts : Spec → Lock → Result (List Str) → Result ℕ
check_contexts spec lock (died why) = died why
check_contexts spec lock (ok cs) = elim (spec_operation_ids spec cs) [
  | died why ↦ died why
  | ok ops ↦ check_registry spec lock ops
]

-- `do_check`, on the two files, if they exist
unfoldable pub do_check : Option Spec → Option Lock → Result ℕ
do_check none lock = died spec_missing
do_check (some spec) none = died lock_missing
do_check (some spec) (some lock) = check_contexts spec lock (bounded_contexts lock.bounded)
