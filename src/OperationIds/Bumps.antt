-- ===== src/OperationIds/Bumps.antt =====
-- The versions in `do_write` of scripts/check_operation_ids.py.
use ci_workflows.Base.{
  Bool, true, false, not, ◌&&◌, Option, none, some, List, [], ◌∷◌, ◌≡◌, inl, inr, refl, arith, sym,
  ◌∙◌, subst, is_nil, any, filter, Option-cases,
}
use ci_workflows.Base.Text.{Str, str_eq_iff, elem}
use ci_workflows.Base.Sorting.{sorted}
use ci_workflows.Version.{Triple}
use ci_workflows.ModulePins.{Dict}
use ci_workflows.OperationIds.{Spec, Result, died, ok, keys}
use ci_workflows.OperationIds.Registry.{Entry, Lock, lock_operations, difference}
use ci_workflows.OperationIds.Write.{
  parse_semver, is_major, bump_error, payload, with_contexts, or_no_lock, prev_version, do_write,
}
use ci_workflows.OperationIds.Governed.{
  write_registry-IsWritten, new_entries-registered, elem-sorted, or_none,
}

-- The second version is, by the test, enough above the first; both can be read.
abbrev pub IsBumped : (Triple → Triple → Bool) → Str → Str → Type 0
IsBumped test old new =
    (pv : Triple) × (sv : Triple) × (parse_semver old ≡ some pv)
    × (parse_semver new ≡ some sv)
    × (test pv sv ≡ true)

bump_error-removed :
    (old new : Str) (added removed : List Str)
    → bump_error old new added removed ≡ none
    → is_nil removed ≡ false
    → IsBumped is_major old new
unfolding bump_error
bump_error-removed old new added removed h r = elim (Option-cases (parse_semver old)) [
  | inl e ↦ absurd (ground (arith, e, h, r))
  | inr (pv, e) ↦ (elim (Option-cases (parse_semver new)) [
    | inl e' ↦ absurd (ground (arith, e, e', h, r))
    | inr (sv, e') ↦ (pv, sv, e, e', ground (arith, e, e', h, r))
  ])
]

elem-difference :
    (x : Str) (xs ys : List Str) → elem x (difference xs ys) ≡ (elem x xs && not (elem x ys))
unfolding difference filter elem any
elem-difference x [] ys = refl
elem-difference x (y ∷ xs) ys = ground (arith, elem-difference x xs ys, str_eq_iff x y)

not_empty : (x : Str) (xs : List Str) → elem x xs ≡ true → is_nil xs ≡ false
unfolding elem any
not_empty x [] h = cc
not_empty x (y ∷ xs) h = refl

-- The ids of a lock whose elements can be registered.
abbrev pub lock_ids : Result (Dict Entry) → List Str
lock_ids (died why) = []
lock_ids (ok d) = keys d

-- An id is never dropped for free: where a lock is written that lacks an id of the lock before it, the
-- API's version has a higher major number than the version before.
pub do_write-removed :
    (spec : Spec) (before : Option Lock) (arg : Str) (lock : Lock) (oid : Str)
    → do_write (some spec) before arg ≡ ok lock
    → let prev = with_contexts arg (or_no_lock before) in
      elem oid (lock_ids (lock_operations prev)) ≡ true
      → elem oid (lock_ids (lock_operations lock)) ≡ false
      → IsBumped is_major (prev_version prev) spec.version
unfolding do_write
do_write-removed spec before arg lock oid h was lost =
    let w = write_registry-IsWritten spec (with_contexts arg (or_no_lock before)) lock _ refl h in
    let oids = sorted (keys w.ops) in
    let (d, e, same) = new_entries-registered spec.version w.ops w.prev_ops oids [] in
    let now : lock_operations lock ≡ ok d =
      subst (λ l. lock_operations l ≡ ok d) w.written
        (unfold payload lock_operations in ground (arith, e)) in
    let gone : elem oid (keys w.ops) ≡ false =
      sym (elem-sorted oid (keys w.ops))
      ∙ (sym (or_none (elem oid oids) oid) ∙ (sym (same oid) ∙ ground (arith, now, lost))) in
    let missing = difference (keys w.prev_ops) (keys w.ops) in
    bump_error-removed _ _ _ _ w.guarded (
      not_empty oid (sorted missing) (
        elem-sorted oid missing
        ∙ ground
            (arith, elem-difference oid (keys w.prev_ops) (keys w.ops), w.read_prev, was, gone)))
