-- ===== src/DiffRange/ChangedPaths.antt =====
-- `changed_paths` of scripts/diffrange.py: the union of two readings of a range.
use ci_workflows.Base.{
  Bool, false, ◌||◌, some, List, [], ◌∷◌, ◌++◌, ◌≡◌, refl, arith, if◌then◌else◌, ◌∙◌,
}
use ci_workflows.Base.Text.{Str, str_eq, str_eq_iff, elem, elem-append}
use ci_workflows.Git.{Git, IsLawful, is_query, diff_names_args, log_names_args}
use ci_workflows.DiffRange.{update_set, nul_separated, changed_paths}

elem_nil : (p : Str) → elem p [] ≡ false
unfolding elem
elem_nil p = refl

elem_cons : (p x : Str) (xs : List Str) → elem p (x ∷ xs) ≡ (str_eq p x || elem p xs)
unfolding elem
elem_cons p x xs = refl

elem-add :
    (p x : Str) (out : List Str)
    → elem p (if elem x out then out else out ++ x ∷ []) ≡ (elem p out || str_eq p x)
elem-add p x out =
    ground (arith, elem-append p out (x ∷ []), elem_cons p x [], elem_nil p, str_eq_iff p x)

-- A set holds what it held and what is added to it.
elem-update_set :
    (p : Str) (out ps : List Str) → elem p (update_set out ps) ≡ (elem p out || elem p ps)
unfolding update_set
elem-update_set p out [] = ground (arith, elem_nil p)
elem-update_set p out (x ∷ ps) =
    elem-update_set p (if elem x out then out else out ++ x ∷ []) ps
    ∙ ground (arith, elem-add p x out, elem_cons p x ps)

module _ (G : Git) (base head : Str) where
  -- What `git diff` prints for the range, and what `git log` prints.
  abbrev pub net : G.Clone → Str
  net s = (G.run (diff_names_args base head) s).0.out

  abbrev pub union : G.Clone → Str
  union s = (G.run (log_names_args base head) s).0.out

  -- One of the two readings of the range shows the path.
  abbrev pub touched : G.Clone → Str → Bool
  touched s p = elem p (nul_separated (net s)) || elem p (nul_separated (union s))

module _ (G : Git) (L : IsLawful G) (base head : Str) where
  -- Over a git that meets its laws, where `changed_paths` gives paths: they are those of the net difference and those of the single commits, and no
  -- others; both commands succeeded, and the clone is left as it was.
  pub changed_paths_union :
      (s : G.Clone) (paths : List Str) (p : Str)
      → (changed_paths G base head s).0 ≡ some paths
      → (elem p paths ≡ touched G base head s p)
        × ((G.run (diff_names_args base head) s).0.code ≡ 0)
        × ((G.run (log_names_args base head) s).0.code ≡ 0)
        × ((changed_paths G base head s).1 ≡ s)
  unfolding changed_paths is_query str_eq
  changed_paths_union s paths p h =
      let s₁ = (G.run (diff_names_args base head) s).1 in
      ground (
        arith,
        L.query_keeps (diff_names_args base head) s refl,
        L.query_keeps (log_names_args base head) s refl,
        elem-update_set p [] (nul_separated (net G base head s)),
        elem-update_set p (update_set [] (nul_separated (net G base head s)))
            (nul_separated (union G base head s)),
        elem_nil p,
      )
