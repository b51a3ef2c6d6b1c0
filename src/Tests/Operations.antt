-- ===== src/Tests/Operations.antt =====
-- scripts/check_operation_ids.py on a small API and its lock.
use ci_workflows.Base.{ℕ, true, false, some, [], ◌∷◌, ◌≡◌, refl, any, all, filter}
use ci_workflows.Base.Text.{Str, codes, str_eq, elem, lower, strip, split_on, starts_with}
use ci_workflows.Base.Sorting.{sort_by, str_leb}
use ci_workflows.Version.{number}
use ci_workflows.ModulePins.{Dict, lookup, insert}
use ci_workflows.OperationIds.{
  Spec, operation, died, ok, breaking, contexts, name_rest, is_name, bounded_contexts, continues,
  add_operation, add_methods, add_paths, spec_operation_ids, derive_visibility,
}
use ci_workflows.OperationIds.Registry.{
  text, Element, object, Lock, register_all, lock_operations, difference, do_check,
}
use ci_workflows.OperationIds.Write.{
  before_char, to_int, parse_semver, is_major, bump_error, new_entry, payload, with_contexts,
  prev_version, write_payload, write_registry, do_write,
}
use ci_workflows.OperationIds.Governed.{do_write-do_check}
use ci_workflows.OperationIds.Bumps.{IsBumped, do_write-removed}

abbrev spec : Str → Spec
spec v = record {
  version = v;
  paths =
      (codes "/internal/orders", (codes "get", operation (codes "orderList")) ∷ [])
      ∷ (codes "/orders", (codes "post", operation (codes "orderCreate")) ∷ [])
      ∷ [];
}

abbrev entry : Str → Str → Str → Element
entry oid since visibility = object (record {
  operation_id = some oid;
  since = some since;
  deprecated = some (record { is_boolean = true; truthy = false });
  visibility = text visibility;
})

abbrev before : Lock
before = record {
  version = some (codes "1.4.0");
  bounded = contexts (codes "order" ∷ []);
  operations =
      entry (codes "orderCreate") (codes "1.0.0") (codes "partner")
      ∷ entry (codes "orderDrop") (codes "1.1.0") (codes "public")
      ∷ [];
}

abbrev behind : Lock
behind = record {
  version = some (codes "2.0.0");
  bounded = contexts (codes "order" ∷ []);
  operations =
      entry (codes "orderCreate") (codes "1.0.0") (codes "partner")
      ∷ entry (codes "orderList") (codes "2.0.0") (codes "internal")
      ∷ [];
}

unfoldable write_open : ℕ
unfolding do_write write_registry write_payload with_contexts payload new_entry bump_error
    parse_semver to_int before_char difference lock_operations register_all derive_visibility
    spec_operation_ids add_paths add_methods add_operation continues bounded_contexts is_name
    name_rest lookup insert number sort_by str_leb lower strip split_on starts_with str_eq elem any
    all filter
write_open = 0

written : do_write (some (spec (codes "2.0.0"))) (some before) [] ≡ ok behind
unfolding write_open
written = refl

-- A minor version does not pay for an id that is dropped.
minor_test :
    do_write (some (spec (codes "1.5.0"))) (some before) []
    ≡ died (breaking (codes "orderDrop" ∷ []))
unfolding write_open
minor_test = refl

do_write-do_check_example : (n : ℕ) × (do_check (some (spec (codes "2.0.0"))) (some behind) ≡ ok n)
do_write-do_check_example = do_write-do_check (spec (codes "2.0.0")) (some before) [] behind written

do_write-removed_example :
    IsBumped is_major (prev_version (with_contexts [] before)) (codes "2.0.0")
do_write-removed_example =
    do_write-removed (spec (codes "2.0.0")) (some before) [] behind (codes "orderDrop") written
      (unfold write_open in refl) (unfold write_open in refl)

abbrev found_ids : Dict Str
found_ids =
    (codes "orderList", codes "/internal/orders") ∷ (codes "orderCreate", codes "/orders") ∷ []

found : spec_operation_ids (spec (codes "2.0.0")) (codes "order" ∷ []) ≡ ok found_ids
unfolding write_open
found = refl
