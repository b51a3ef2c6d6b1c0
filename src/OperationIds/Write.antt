-- ===== src/OperationIds/Write.antt =====
-- `do_write` of scripts/check_operation_ids.py: the lock of the next version. A number of a version
-- is one or more ASCII digits, with white space around it.
use ci_workflows.Base.{
  ℕ, Bool, true, false, not, ◌&&◌, ◌||◌, Option, none, some, List, [], ◌∷◌, ◌==◌, ltb,
  if◌then◌else◌, is_nil, all, take,
}
use ci_workflows.Base.Text.{Str, codes, elem, strip, split_on}
use ci_workflows.Base.Sorting.{sorted}
use ci_workflows.Version.{is_digit, number, Triple}
use ci_workflows.ModulePins.{Dict, lookup}
use ci_workflows.OperationIds.{
  visibilities, Spec, Why, spec_missing, bad_version, breaking, not_minor, Result, died, ok,
  undeclared, contexts, bounded_contexts, keys, spec_operation_ids, derive_visibility,
}
use ci_workflows.OperationIds.Registry.{
  Field, text, Flag, Entry, Element, object, Lock, lock_operations, difference, or_text,
}

-- The text before the first of a character.
unfoldable pub before_char : ℕ → Str → Str
before_char k [] = []
before_char k (c ∷ s) = let rest = before_char k s in if c == k then [] else c ∷ rest

-- `int(p)`
unfoldable pub to_int : Str → Option ℕ
to_int p =
    let digits = strip p in
    if is_nil digits || not (all is_digit digits) then none else some (number 0 digits)

abbrev pub pad : List (Option ℕ) → Option Triple
pad (some a ∷ []) = some (a, 0, 0)
pad (some a ∷ some b ∷ []) = some (a, b, 0)
pad (some a ∷ some b ∷ some c ∷ []) = some (a, b, c)
pad _ = none

abbrev pub to_ints : List Str → List (Option ℕ)
to_ints [] = []
to_ints (p ∷ ps) = to_int p ∷ to_ints ps

-- `parse_semver`; nothing where it dies
unfoldable pub parse_semver : Str → Option Triple
parse_semver v = pad (to_ints (take 3 (split_on b'.' (before_char b'-' (before_char b'+' v)))))

-- `sv[0] > pv[0]`, and `sv[:2] > pv[:2]`
abbrev pub is_major : Triple → Triple → Bool
is_major (a, b, c) (d, e, f) = ltb a d

abbrev pub is_minor : Triple → Triple → Bool
is_minor (a, b, c) (d, e, f) = ltb a d || ((a == d) && ltb b e)

-- The guard on the two versions; nothing where the lock may be written.
unfoldable pub bump_error : Str → Str → List Str → List Str → Option Why
bump_error prev_version spec_version added removed =
    if is_nil added && is_nil removed then none else (elim (parse_semver prev_version) [
      | none ↦ some (bad_version prev_version)
      | some pv ↦ (elim (parse_semver spec_version) [
        | none ↦ some (bad_version spec_version)
        | some sv ↦
            if not (is_nil removed) && not (is_major pv sv)
            then some (breaking removed)
            else if not (is_nil added) && not (is_minor pv sv)
            then some (not_minor added)
            else none
      ])
    ])

abbrev pub prior_since : Option Entry → Str → Str
prior_since none v = v
prior_since (some e) v = or_text e.since v

abbrev truthy : Option Flag → Bool
truthy none = false
truthy (some f) = f.truthy

abbrev pub prior_deprecated : Option Entry → Bool
prior_deprecated none = false
prior_deprecated (some e) = truthy e.deprecated

abbrev pub field_or : Field → Str → Str
field_or (text v) d = if elem v visibilities then v else d
field_or _ d = d

abbrev pub prior_visibility : Option Entry → Str → Str
prior_visibility none d = d
prior_visibility (some e) d = field_or e.visibility d

abbrev pub path_or_nil : Option Str → Str
path_or_nil none = []
path_or_nil (some p) = p

-- The entry of an operation in the new lock.
unfoldable pub new_entry : Str → Dict Str → Dict Entry → Str → Element
new_entry spec_version ops prev_ops oid =
    let prior = lookup oid prev_ops in
    object (record {
      operation_id = some oid;
      since = some (prior_since prior spec_version);
      deprecated = some (record { is_boolean = true; truthy = prior_deprecated prior });
      visibility = text (prior_visibility prior (derive_visibility (path_or_nil (lookup oid ops))));
    })

abbrev pub new_entries : Str → Dict Str → Dict Entry → List Str → List Element
new_entries v ops prev_ops [] = []
new_entries v ops prev_ops (oid ∷ oids) =
    new_entry v ops prev_ops oid ∷ new_entries v ops prev_ops oids

unfoldable pub payload : Str → List Str → Dict Str → Dict Entry → Lock
payload spec_version cs ops prev_ops = record {
  version = some spec_version;
  bounded = contexts cs;
  operations = new_entries spec_version ops prev_ops (sorted (keys ops));
}

abbrev stripped : List Str → List Str
stripped [] = []
stripped (c ∷ cs) = if is_nil (strip c) then stripped cs else strip c ∷ stripped cs

-- `--contexts`, if it is given
unfoldable pub with_contexts : Str → Lock → Lock
with_contexts arg prev =
    if is_nil arg then prev else record prev { bounded = contexts (stripped (split_on b',' arg)) }

abbrev pub no_lock : Lock
no_lock = record { version = none; bounded = undeclared; operations = [] }

abbrev pub or_no_lock : Option Lock → Lock
or_no_lock none = no_lock
or_no_lock (some lock) = lock

-- `str(prev.get("version", "0.0.0")) or "0.0.0"`
abbrev pub prev_version : Lock → Str
prev_version prev =
    let v = or_text prev.version (codes "0.0.0") in if is_nil v then codes "0.0.0" else v

unfoldable pub write_payload : Spec → Lock → List Str → Dict Str → Dict Entry → Result Lock
write_payload spec prev cs ops prev_ops =
    elim (bump_error (prev_version prev) spec.version
      (sorted (difference (keys ops) (keys prev_ops)))
      (sorted (difference (keys prev_ops) (keys ops)))) [
        | some why ↦ died why
        | none ↦ ok (payload spec.version cs ops prev_ops)
      ]

unfoldable pub write_registry : Spec → Lock → Result (List Str) → Result Lock
write_registry spec prev (died why) = died why
write_registry spec prev (ok cs) = elim (spec_operation_ids spec cs) [
  | died why ↦ died why
  | ok ops ↦ (elim (lock_operations prev) [
    | died why ↦ died why
    | ok prev_ops ↦ write_payload spec prev cs ops prev_ops
  ])
]

-- `do_write`, up to the file that it writes
unfoldable pub do_write : Option Spec → Option Lock → Str → Result Lock
do_write none lock arg = died spec_missing
do_write (some spec) lock arg =
    let prev = with_contexts arg (or_no_lock lock) in
    write_registry spec prev (bounded_contexts prev.bounded)
