-- ===== src/PinOnly/Verdict.antt =====
-- The verdict of scripts/pin-only-diff.py: `pin_only=true` is printed only on proof.
use ci_workflows.Base.{
  Bool, true, not, Option, none, some, List, [], ◌∷◌, ◌≡◌, ◌≢◌, refl, arith, any, all, All, filter,
  filter-not-nil, Option-cases, inl, inr,
}
use ci_workflows.Base.Text.{Str, codes, str_eq, str_eq_iff, str_eq_self, All-elem, elem}
use ci_workflows.Base.Sorting.{sorted, sort_by-nil, any-sort_by}
use ci_workflows.Git.{Git, IsLawful, is_query}
use ci_workflows.Event.{Payload, load_event}
use ci_workflows.DiffRange.{Reason, resolve_range, changed_paths}
use ci_workflows.DiffRange.ChangedPaths.{changed_paths_union, touched}
use ci_workflows.Gate.{Args, emit, says_true}
use ci_workflows.DocsOnly.Verdict.{all-elem}
use ci_workflows.PinOnly.{
  diff_lines_args, is_pin_line, is_pin_file, is_go_mod, judge_lines, significant_lines,
  go_mod_is_pins_only, check_go_mods, classify, decide_range, main,
}

judge_lines-none :
    (path : Str) (o : Option (List Str))
    → judge_lines path o ≡ none
    → (lines : List Str) × (o ≡ some lines) × (lines ≢ []) × (all is_pin_line lines ≡ true)
unfolding judge_lines
judge_lines-none path none h = cc
judge_lines-none path (some lines) h =
    (lines, refl, ground arith, ground (arith, filter-not-nil is_pin_line lines))

elem-filter :
    (f : Str → Bool) (p : Str) (xs : List Str)
    → elem p xs ≡ true
    → f p ≡ true
    → elem p (filter f xs) ≡ true
unfolding elem any filter
elem-filter f p [] h k = h
elem-filter f p (x ∷ xs) h k = ground (arith, elem-filter f p xs, str_eq_iff p x)

elem-sorted : (p : Str) (xs : List Str) → elem p (sorted xs) ≡ elem p xs
unfolding elem
elem-sorted p xs = any-sort_by (λ s. s) (str_eq p) xs

-- A path of a list that is not empty.
some_member : (xs : List Str) → xs ≢ [] → (p : Str) × (elem p xs ≡ true)
unfolding elem any
some_member [] h = absurd (h refl)
some_member (x ∷ xs) h = (x, ground (arith, str_eq_self x))

module _ (G : Git) where
  -- The lines that the range adds to the file or removes from it are known, there are some, and
  -- each is a pin.
  abbrev pub OnlyPins : Str → Str → G.Clone → Str → Type 0
  OnlyPins base head t path =
      (lines : List Str) × ((significant_lines G base head path t).0 ≡ some lines)
      × (lines ≢ [])
      × (all is_pin_line lines ≡ true)

  -- A path that a pin-only range touches.
  abbrev pub IsPinChange : Str → Str → G.Clone → Str → Type 0
  IsPinChange base head t p = (is_pin_file p ≡ true) × (is_go_mod p ≡ true → OnlyPins base head t p)

  -- A range that touches some path, and only pins.
  abbrev pub IsPinRange : Str → Str → G.Clone → Type 0
  IsPinRange base head t =
      ((p : Str) × (touched G base head t p ≡ true))
      × ((p : Str) → touched G base head t p ≡ true → IsPinChange base head t p)

module _ (G : Git) (L : IsLawful G) (base head : Str) where
  go_mod-keeps : (path : Str) (t : G.Clone) → (go_mod_is_pins_only G base head path t).1 ≡ t
  unfolding go_mod_is_pins_only significant_lines is_query str_eq
  go_mod-keeps path t = ground (arith, L.query_keeps (diff_lines_args base head path) t refl)

  check_go_mods-none :
      (paths : List Str) (t : G.Clone)
      → (check_go_mods G base head paths t).0 ≡ none
      → All (OnlyPins G base head t) paths
  unfolding check_go_mods
  check_go_mods-none [] t h = tt
  check_go_mods-none (path ∷ paths) t h = (
    judge_lines-none path (significant_lines G base head path t).0
        (unfold go_mod_is_pins_only in ground arith),
    check_go_mods-none paths t (ground (arith, go_mod-keeps path t)),
  )

  check_go_mods-keeps : (paths : List Str) (t : G.Clone) → (check_go_mods G base head paths t).1 ≡ t
  unfolding check_go_mods
  check_go_mods-keeps [] t = refl
  check_go_mods-keeps (path ∷ paths) t =
      ground (arith, go_mod-keeps path t, check_go_mods-keeps paths t)

  classify_pins :
      (paths : List Str) (t : G.Clone)
      → (classify G base head paths t).0.0 ≡ true
      → (paths ≢ [])
        × (all is_pin_file paths ≡ true)
        × All (OnlyPins G base head t) (sorted (filter is_go_mod paths))
  unfolding classify
  classify_pins paths t h = (
    ground (arith, h),
    ground (
      arith,
      h,
      sort_by-nil (λ s. s) (filter (λ q. not (is_pin_file q)) paths),
      filter-not-nil is_pin_file paths,
    ),
    check_go_mods-none (sorted (filter is_go_mod paths)) t (ground (arith, h)),
  )

  pin_change :
      (paths : List Str) (t : G.Clone) (p : Str)
      → (classify G base head paths t).0.0 ≡ true
      → elem p paths ≡ true
      → IsPinChange G base head t p
  pin_change paths t p h m =
      let (_, files, mods) = classify_pins paths t h in
      (
        all-elem is_pin_file p paths files m,
        λ k.
            All-elem (OnlyPins G base head t) p (sorted (filter is_go_mod paths)) mods
              (rw elem-sorted (elem-filter is_go_mod p paths m k)),
      )

module _ (G : Git) (L : IsLawful G) (read : Str → Payload) where
  decide_range_pins :
      (o : Option Str) (r : Reason) (base head : Str) (t : G.Clone)
      → says_true (decide_range G read o r base head t).0 ≡ true
      → IsPinRange G base head t
  unfolding decide_range emit
  decide_range_pins o r base head t h = elim (Option-cases (changed_paths G base head t).0) [
    | inl e ↦ absurd (ground (arith, e))
    | inr (paths, e) ↦
        let u = λ (p : Str). changed_paths_union G L base head t paths p e in
        let v : (classify G base head paths t).0.0 ≡ true = ground (arith, e, u []) in
        let (p, m) = some_member paths (classify_pins G L base head paths t v).0 in
        (
          (p, ground (arith, u p)),
          λ q k. pin_change G L base head paths t q v (ground (arith, u q)),
        )
  ]

  -- The gate fails closed, over a git that meets its laws: a run that prints `pin_only=true` has resolved a range, the range
  -- touches some path, every path that it touches is a go.mod or go.sum of this module, and of each
  -- go.mod some lines changed, all of them pins.
  pub main-pins :
      (args : Args) (s : G.Clone)
      → says_true (main G read args s).0 ≡ true
      → let s₁ = (G.run (codes "rev-parse" ∷ codes "--git-dir" ∷ []) s).1 in
        let event = load_event read args.event_path in
        let (r, t) = resolve_range G args.event_name event args.head_sha s₁ in
        (base : Str) × (head : Str) × (r.base ≡ some base)
        × (r.head ≡ some head)
        × IsPinRange G base head t
  unfolding main emit
  main-pins args s h =
      let s₁ = (G.run (codes "rev-parse" ∷ codes "--git-dir" ∷ []) s).1 in
      let event = load_event read args.event_path in
      let r = (resolve_range G args.event_name event args.head_sha s₁).0 in
      let t = (resolve_range G args.event_name event args.head_sha s₁).1 in
      elim (Option-cases r.base) [
        | inl e ↦ absurd (ground (arith, e))
        | inr (base, e) ↦ (elim (Option-cases r.head) [
          | inl e' ↦ absurd (ground (arith, e, e'))
          | inr (head, e') ↦ (
            base,
            head,
            e,
            e',
            decide_range_pins args.github_output r.reason base head t (ground (arith, e, e')),
          )
        ])
      ]
