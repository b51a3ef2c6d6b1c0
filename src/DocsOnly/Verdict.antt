-- ===== src/DocsOnly/Verdict.antt =====
-- The verdict of scripts/docs-only-diff.py: `docs_only=true` is printed only on proof.
use ci_workflows.Base.{
  Bool, true, not, Option, some, List, [], ◌∷◌, ◌≡◌, ◌≢◌, ◌↔◌, arith, any, all, filter,
  filter-not-nil, Option-cases, inl, inr,
}
use ci_workflows.Base.Text.{Str, codes, str_eq_iff, elem}
use ci_workflows.Base.Sorting.{sort_by-nil}
use ci_workflows.Git.{Git, IsLawful}
use ci_workflows.Event.{Payload, load_event}
use ci_workflows.DiffRange.{Reason, resolve_range, changed_paths}
use ci_workflows.DiffRange.ChangedPaths.{changed_paths_union, touched}
use ci_workflows.EmbedPatterns.{GoFile, embed_patterns}
use ci_workflows.Gate.{Args, emit, says_true}
use ci_workflows.DocsOnly.{is_documentation, classify, decide_paths, decide_range, main}

-- The verdict is `true` exactly if some path is given and every path is documentation, and the
-- second result then is empty.
classify-true :
    (paths patterns : List Str)
    → ((classify paths patterns).0 ≡ true)
      ↔ ((paths ≢ []) × (all (λ p. is_documentation p patterns) paths ≡ true))
unfolding classify
classify-true [] patterns = ground arith
classify-true (p ∷ ps) patterns = ground (
  arith,
  sort_by-nil (λ s. s) (filter (λ q. not (is_documentation q patterns)) (p ∷ ps)),
  filter-not-nil (λ q. is_documentation q patterns) (p ∷ ps),
)

pub all-elem :
    (p : Str → Bool) (x : Str) (xs : List Str) → all p xs ≡ true → elem x xs ≡ true → p x ≡ true
unfolding all elem any
all-elem p x [] h m = cc
all-elem p x (y ∷ ys) h m = ground (arith, all-elem p x ys, str_eq_iff x y)

module _ (G : Git) (L : IsLawful G) (read : Str → Payload) (own_root root : List Str)
    (go_files : G.Clone → List GoFile) where
  abbrev is_doc : G.Clone → Str → Bool
  is_doc t p = is_documentation p (embed_patterns own_root root (go_files t))

  decide_paths-true :
      (o : Option Str) (r : Reason) (paths : List Str) (t : G.Clone)
      → says_true (decide_paths G read own_root root go_files o r paths t) ≡ true
      → all (is_doc t) paths ≡ true
  unfolding decide_paths emit
  decide_paths-true o r paths t h =
      ((classify-true paths (embed_patterns own_root root (go_files t))).0 h).1

  decide_range-true :
      (o : Option Str) (r : Reason) (base head : Str) (t : G.Clone)
      → says_true (decide_range G read own_root root go_files o r base head t).0 ≡ true
      → (p : Str) → touched G base head t p ≡ true
      → is_doc t p ≡ true
  unfolding decide_range emit
  decide_range-true o r base head t h p m = elim (Option-cases (changed_paths G base head t).0) [
    | inl e ↦ ground (arith, e)
    | inr (paths, e) ↦
        all-elem (is_doc t) p paths
          (ground (
            arith,
            e,
            changed_paths_union G L base head t paths p e,
            decide_paths-true o r paths t,
          ))
          (ground (arith, changed_paths_union G L base head t paths p e))
  ]

  -- The gate fails closed, over a git that meets its laws: a run that prints `docs_only=true` has resolved a range, and every path
  -- that the net difference or a single commit of that range touches is documentation, by the
  -- patterns that the checkout embeds.
  pub main-documentation :
      (args : Args) (s : G.Clone)
      → says_true (main G read own_root root go_files args s).0 ≡ true
      → let s₁ = (G.run (codes "rev-parse" ∷ codes "--git-dir" ∷ []) s).1 in
        let event = load_event read args.event_path in
        let (r, t) = resolve_range G args.event_name event args.head_sha s₁ in
        (base : Str) × (head : Str) × (r.base ≡ some base)
        × (r.head ≡ some head)
        × ((p : Str) → touched G base head t p ≡ true → is_doc t p ≡ true)
  unfolding main emit
  main-documentation args s h =
      let s₁ = (G.run (codes "rev-parse" ∷ codes "--git-dir" ∷ []) s).1 in
      let event = load_event read args.event_path in
      let r = (resolve_range G args.event_name event args.head_sha s₁).0 in
      let t = (resolve_range G args.event_name event args.head_sha s₁).1 in
      elim (Option-cases r.base) [
        | inl e ↦ absurd (ground (arith, e))
        | inr (base, e) ↦ (elim (Option-cases r.head) [
          | inl e' ↦ absurd (ground (arith, e, e'))
          | inr (head, e') ↦ (
            base,
            head,
            e,
            e',
            decide_range-true args.github_output r.reason base head t (ground (arith, e, e')),
          )
        ])
      ]
