-- ===== src/OperationIds/Governed.antt =====
-- The two halves of scripts/check_operation_ids.py against each other: `--write` and `--check`.
use ci_workflows.Base.{
  ℕ, Bool, true, ◌||◌, Option, none, some, List, [], ◌∷◌, ◌≡◌, ◌⊎◌, inl, inr, refl, arith, sym, ◌∙◌,
  ap, subst, any, all, filter, length,
}
use ci_workflows.Base.Text.{Str, str_eq, str_eq_iff, str_eq_self, elem}
use ci_workflows.Base.Sorting.{sorted, any-sort_by, sort_by-nil}
use ci_workflows.ModulePins.{Dict, lookup, insert}
use ci_workflows.OperationIds.{
  visibilities, Spec, Why, Result, died, ok, Contexts, contexts, bounded_contexts, keys,
  spec_operation_ids, derive_visibility,
}
use ci_workflows.OperationIds.Registry.{
  Field, text, Entry, Lock, good_entry, metadata_valid, register_all, lock_operations, difference,
  compare_sets, check_registry, check_contexts, do_check,
}
use ci_workflows.OperationIds.Write.{
  bump_error, field_or, prior_visibility, path_or_nil, new_entry, new_entries, payload,
  with_contexts, or_no_lock, prev_version, write_payload, write_registry, do_write,
}

elem-keys-insert :
    {A : Type 0} (k j : Str) (v : A) (d : Dict A)
    → elem k (keys (insert j v d)) ≡ (str_eq k j || elem k (keys d))
unfolding insert elem any
elem-keys-insert k j v [] = refl
elem-keys-insert k j v ((i, w) ∷ d) =
    ground (arith, elem-keys-insert k j v d, str_eq_iff i j, str_eq_iff k i, str_eq_iff k j)

derived-visibility : (path : Str) → elem (derive_visibility path) visibilities ≡ true
unfolding derive_visibility elem any str_eq
derived-visibility path = ground arith

prior-visibility :
    (o : Option Entry) (d : Str)
    → elem d visibilities ≡ true
    → elem (prior_visibility o d) visibilities ≡ true
prior-visibility none d h = h
prior-visibility (some e) d h = go e.visibility
  where
    go : (f : Field) → elem (field_or f d) visibilities ≡ true
    go Field.missing = h
    go Field.null = h
    go (text v) = ground (arith, h)

or_front : (a b c : Bool) → (a || (b || c)) ≡ ((b || a) || c)
or_front a b c = ground arith

pub or_none : (b : Bool) (x : Str) → (b || elem x []) ≡ b
unfolding elem any
or_none b x = ground arith

module _ (v : Str) (ops : Dict Str) (prev_ops : Dict Entry) where
  new_entries-valid : (oids : List Str) → all good_entry (new_entries v ops prev_ops oids) ≡ true
  unfolding all good_entry new_entry
  new_entries-valid [] = refl
  new_entries-valid (oid ∷ oids) = ground (
    arith,
    new_entries-valid oids,
    prior-visibility (lookup oid prev_ops) (derive_visibility (path_or_nil (lookup oid ops)))
        (derived-visibility (path_or_nil (lookup oid ops))),
  )

  -- The new entries can be registered, under their ids.
  pub new_entries-registered :
      (oids : List Str) (d : Dict Entry)
      → (d' : Dict Entry) × (register_all (new_entries v ops prev_ops oids) d ≡ some d')
        × ((x : Str) → elem x (keys d') ≡ (elem x oids || elem x (keys d)))
  unfolding register_all new_entry
  new_entries-registered [] d = (d, refl, λ x. unfold elem any in refl)
  new_entries-registered (oid ∷ oids) d =
      let (d', e, h) = new_entries-registered oids _ in
      (
        d',
        e,
        λ x.
            h x
            ∙ (ap (λ b. elem x oids || b) (elem-keys-insert x oid _ d)
                ∙ unfold elem any in or_front (elem x oids) (str_eq x oid) (elem x (keys d))),
      )

pub elem-sorted : (x : Str) (xs : List Str) → elem x (sorted xs) ≡ elem x xs
unfolding elem
elem-sorted x xs = any-sort_by (λ s. s) (str_eq x) xs

all-elem_self :
    (xs ys : List Str) → ((x : Str) → elem x xs ≡ true → elem x ys ≡ true) → difference xs ys ≡ []
unfolding difference filter elem any
all-elem_self [] ys h = refl
all-elem_self (x ∷ xs) ys h =
    ground (arith, h x, str_eq_self x, all-elem_self xs ys (λ z k. h z (ground (arith, k))))

compare_sets-same :
    (v : Str) (xs ys : List Str)
    → ((x : Str) → elem x xs ≡ elem x ys)
    → compare_sets v v xs ys ≡ ok (length xs)
unfolding compare_sets
compare_sets-same v xs ys h =
    let a = all-elem_self xs ys (λ x k. sym (h x) ∙ k) in
    let b = all-elem_self ys xs (λ x k. h x ∙ k) in
    ground (
      arith,
      a,
      b,
      str_eq_self v,
      sort_by-nil (λ s. s) (difference xs ys),
      sort_by-nil (λ s. s) (difference ys xs),
    )

bounded-same :
    (raw : Contexts) (cs : List Str)
    → bounded_contexts raw ≡ ok cs
    → bounded_contexts (contexts cs) ≡ ok cs
unfolding bounded_contexts
bounded-same Contexts.undeclared cs h = cc
bounded-same Contexts.no_strings cs h = cc
bounded-same (contexts xs) cs h =
    let same : xs ≡ cs = ground arith in subst (λ ys. bounded_contexts (contexts ys) ≡ ok cs) same h

-- Where the registry lets a lock be written, it is the payload, and the guard on the versions passed.
pub record IsWritten (spec : Spec) (prev lock : Lock) : Type 0 where
  pub cs : List Str
  pub ops : Dict Str
  pub prev_ops : Dict Entry
  pub declared : bounded_contexts prev.bounded ≡ ok cs
  pub read_spec : spec_operation_ids spec cs ≡ ok ops
  pub read_prev : lock_operations prev ≡ ok prev_ops
  pub guarded :
      bump_error
        (prev_version prev)
        spec.version
        (sorted (difference (keys ops) (keys prev_ops)))
        (sorted (difference (keys prev_ops) (keys ops)))
      ≡ none
  pub written : payload spec.version cs ops prev_ops ≡ lock

Result-cases : {A : Type 0} (r : Result A) → ((why : Why) × (r ≡ died why)) ⊎ ((a : A) × (r ≡ ok a))
Result-cases (died why) = inl (why, refl)
Result-cases (ok a) = inr (a, refl)

pub write_registry-IsWritten :
    (spec : Spec) (prev lock : Lock) (r : Result (List Str))
    → bounded_contexts prev.bounded ≡ r
    → write_registry spec prev r ≡ ok lock
    → IsWritten spec prev lock
unfolding write_registry write_payload
write_registry-IsWritten spec prev lock (died why) d h = cc
write_registry-IsWritten spec prev lock (ok cs) d h =
    elim (Result-cases (spec_operation_ids spec cs)) [
      | inl (why, e) ↦ absurd (ground (arith, e, h))
      | inr (ops, e) ↦ (elim (Result-cases (lock_operations prev)) [
        | inl (why, e') ↦ absurd (ground (arith, e, e', h))
        | inr (prev_ops, e') ↦ record {
          cs = cs;
          ops = ops;
          prev_ops = prev_ops;
          declared = d;
          read_spec = e;
          read_prev = e';
          guarded = ground (arith, e, e', h);
          written = ground (arith, e, e', h);
        }
      ])
    ]

-- What `--write` writes passes `--check` on the same API, whatever lock was there before.
pub do_write-do_check :
    (spec : Spec) (before : Option Lock) (arg : Str) (lock : Lock)
    → do_write (some spec) before arg ≡ ok lock
    → (n : ℕ) × (do_check (some spec) (some lock) ≡ ok n)
unfolding do_write do_check
do_write-do_check spec before arg lock h =
    let w = write_registry-IsWritten spec (with_contexts arg (or_no_lock before)) lock _ refl h in
    let oids = sorted (keys w.ops) in
    let (d, e, same) = new_entries-registered spec.version w.ops w.prev_ops oids [] in
    (
      length (keys w.ops),
      subst (λ l. do_check (some spec) (some l) ≡ ok (length (keys w.ops))) w.written
          (unfold payload check_contexts check_registry metadata_valid lock_operations in
            ground (
              arith,
              bounded-same _ w.cs w.declared,
              w.read_spec,
              e,
              new_entries-valid spec.version w.ops w.prev_ops oids,
              compare_sets-same spec.version (keys w.ops) (keys d)
                  (λ x. sym (same x ∙ (or_none (elem x oids) x ∙ elem-sorted x (keys w.ops)))),
            )),
    )
