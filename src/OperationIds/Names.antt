-- ===== src/OperationIds/Names.antt =====
-- `spec_operation_ids` of scripts/check_operation_ids.py: which ids it lets through.
use ci_workflows.Base.{
  true, false, not, ◌||◌, List, [], ◌∷◌, ◌++◌, ◌≡◌, refl, arith, ◌∙◌, subst, is_nil, any, All,
  append-eq-nil, Bool-cases, inl, inr,
}
use ci_workflows.Base.Text.{Str, str_eq, str_eq_sym, elem, lower}
use ci_workflows.ModulePins.{Dict}
use ci_workflows.OperationIds.{
  Operation, no_operation, operation, Spec, ok, is_name, continues, keys, Found, name_errors,
  missing_id, duplicate_id, http_methods, add_operation, add_methods, add_paths, spec_operation_ids,
}

-- A name that is a declared context, or begins with one and goes on with a capital letter.
abbrev pub IsGoverned : List Str → Str → Type 0
IsGoverned cs oid = (is_name oid ≡ true) × (any (λ ctx. continues ctx oid) cs ≡ true)

-- No element stands twice.
abbrev pub IsDistinct : List Str → Type 0
IsDistinct [] = Unit
IsDistinct (x ∷ xs) = (elem x xs ≡ false) × IsDistinct xs

-- What was collected so far is governed, and no id of it stands twice.
abbrev IsClean : List Str → Found → Type 0
IsClean cs f = All (IsGoverned cs) (keys f.ids) × IsDistinct (keys f.ids)

name_errors-IsGoverned : (cs : List Str) (oid : Str) → name_errors cs oid ≡ [] → IsGoverned cs oid
name_errors-IsGoverned cs oid h = ground arith

keys-snoc-All :
    (P : Str → Type 0) (d : Dict Str) (oid path : Str)
    → All P (keys d)
    → P oid
    → All P (keys (d ++ (oid, path) ∷ []))
keys-snoc-All P [] oid path h p = (p, tt)
keys-snoc-All P ((k, v) ∷ d) oid path (q, h) p = (q, keys-snoc-All P d oid path h p)

elem-keys-snoc :
    (x : Str) (d : Dict Str) (oid path : Str)
    → elem x (keys (d ++ (oid, path) ∷ [])) ≡ (elem x (keys d) || str_eq x oid)
unfolding elem any
elem-keys-snoc x [] oid path = ground arith
elem-keys-snoc x ((k, v) ∷ d) oid path = ground (arith, elem-keys-snoc x d oid path)

keys-snoc-IsDistinct :
    (d : Dict Str) (oid path : Str)
    → IsDistinct (keys d)
    → elem oid (keys d) ≡ false
    → IsDistinct (keys (d ++ (oid, path) ∷ []))
keys-snoc-IsDistinct [] oid path h new = (unfold elem any in refl, tt)
keys-snoc-IsDistinct ((k, v) ∷ d) oid path (fresh, h) new = (
  elem-keys-snoc k d oid path ∙ unfold elem any in ground (arith, fresh, new, str_eq_sym k oid),
  keys-snoc-IsDistinct d oid path h (unfold elem any in ground (arith, new)),
)

-- What an operation without an error has kept: no error before it, and a clean collection.
add_operation-IsClean :
    (cs : List Str) (path method : Str) (op : Operation) (f : Found)
    → (add_operation cs path method op f).errors ≡ []
    → (f.errors ≡ []) × (IsClean cs f → IsClean cs (add_operation cs path method op f))
unfolding add_operation
add_operation-IsClean cs path method no_operation f h = (h, λ c. c)
add_operation-IsClean cs path method (operation oid) f h =
    elim (Bool-cases (not (elem (lower method) http_methods))) [
      | inl other ↦ rw other (ground (arith, other, h), λ c. c)
      | inr http ↦ (elim (Bool-cases (is_nil oid)) [
        | inl unnamed ↦
            absurd (unnamed_error (append-eq-nil f.errors _ (ground (arith, http, unnamed, h))).1)
        | inr named ↦ (elim (Bool-cases (elem oid (keys f.ids))) [
          | inl twice ↦
              absurd
                (twice_error (append-eq-nil f.errors _ (ground (arith, http, named, twice, h))).1)
          | inr new ↦
              let (before, here) =
                append-eq-nil f.errors (name_errors cs oid) (ground (arith, http, named, new, h)) in
              rw (http, named, new)
                (
                  before,
                  λ (governed, distinct). (
                    keys-snoc-All (IsGoverned cs) f.ids oid path governed
                        (name_errors-IsGoverned cs oid here),
                    keys-snoc-IsDistinct f.ids oid path distinct new,
                  ),
                )
        ])
      ])
    ]
  where
    unnamed_error : missing_id method path ∷ [] ≡ [] → ⊥
    unnamed_error e = cc

    twice_error : duplicate_id oid method ∷ [] ≡ [] → ⊥
    twice_error e = cc

add_methods-IsClean :
    (cs : List Str) (path : Str) (ops : List (Str × Operation)) (f : Found)
    → (add_methods cs path ops f).errors ≡ []
    → (f.errors ≡ []) × (IsClean cs f → IsClean cs (add_methods cs path ops f))
unfolding add_methods
add_methods-IsClean cs path [] f h = (h, λ c. c)
add_methods-IsClean cs path ((method, op) ∷ ops) f h =
    let (later, keeps) = add_methods-IsClean cs path ops (add_operation cs path method op f) h in
    let (before, step) = add_operation-IsClean cs path method op f later in
    (before, λ c. keeps (step c))

add_paths-IsClean :
    (cs : List Str) (paths : List (Str × List (Str × Operation))) (f : Found)
    → (add_paths cs paths f).errors ≡ []
    → (f.errors ≡ []) × (IsClean cs f → IsClean cs (add_paths cs paths f))
unfolding add_paths
add_paths-IsClean cs [] f h = (h, λ c. c)
add_paths-IsClean cs ((path, ops) ∷ paths) f h =
    let (later, keeps) = add_paths-IsClean cs paths (add_methods cs path ops f) h in
    let (before, step) = add_methods-IsClean cs path ops f later in (before, λ c. keeps (step c))

-- The ids of an API that is let through are governed names, by the declared contexts, and no id
-- stands twice.
spec_operation_ids_sound :
    (spec : Spec) (cs : List Str) (ops : Dict Str)
    → spec_operation_ids spec cs ≡ ok ops
    → All (IsGoverned cs) (keys ops) × IsDistinct (keys ops)
unfolding spec_operation_ids
spec_operation_ids_sound spec cs ops h =
    let start : Found = record { ids = []; errors = [] } in
    let f = add_paths cs spec.paths start in
    let same : f.ids ≡ ops = ground (arith, h) in
    subst (λ d. All (IsGoverned cs) (keys d) × IsDistinct (keys d)) same
      ((add_paths-IsClean cs spec.paths start (ground (arith, h))).1 (tt, tt))
