-- ===== src/DiffRange/PullRange.antt =====
-- `resolve_range` of scripts/diffrange.py on a pull request.
use ci_workflows.Base.{true, false, some, [], ◌∷◌, ◌≡◌, ◌≢◌, refl, arith}
use ci_workflows.Base.Text.{Str, codes, str_eq, str_eq_iff, elem, strip}
use ci_workflows.Git.{Git, IsLawful, is_query, merge_base_args}
use ci_workflows.Event.{Event}
use ci_workflows.DiffRange.{
  pr_base, pr_head, ensure_commit, merge_base_range, resolve_pull_request, resolve_range,
}
use ci_workflows.DiffRange.Commits.{Has, ensure_commit-Has, ensure_commit-keeps_Has}

-- The two event names that carry a pull request.
abbrev pub IsPullRequest : Str → Type 0
IsPullRequest name = elem name (codes "pull_request" ∷ codes "pull_request_target" ∷ []) ≡ true

IsPullRequest-ne-push : (name : Str) → IsPullRequest name → str_eq name (codes "push") ≡ false
unfolding elem
IsPullRequest-ne-push name p = ground (
  arith,
  str_eq_iff name (codes "push"),
  str_eq_iff name (codes "pull_request"),
  str_eq_iff name (codes "pull_request_target"),
)

module _ (G : Git) where
  -- `git merge-base base head` succeeds in the clone, and prints `mb` up to white space.
  pub record IsMergeBase (base head mb : Str) (s : G.Clone) : Type 0 where
    pub succeeds : (G.run (merge_base_args base head) s).0.code ≡ 0
    pub printed : strip (G.run (merge_base_args base head) s).0.out ≡ mb
    pub not_empty : mb ≢ []

module _ (G : Git) (L : IsLawful G) where
  merge_base-keeps : (base head : Str) (s : G.Clone) → (G.run (merge_base_args base head) s).1 ≡ s
  unfolding is_query str_eq
  merge_base-keeps base head s = L.query_keeps (merge_base_args base head) s refl

  merge_base_range_sound :
      (base head : Str) (s : G.Clone) (mb : Str)
      → (merge_base_range G base head s).0.base ≡ some mb
      → ((merge_base_range G base head s).0.head ≡ some head)
        × ((merge_base_range G base head s).1 ≡ s)
        × IsMergeBase G base head mb s
  unfolding merge_base_range
  merge_base_range_sound base head s mb h = ground (arith, merge_base-keeps base head s)

  resolve_pull_request_sound :
      (e : Event) (s : G.Clone) (mb : Str)
      → let (r, t) = resolve_pull_request G e s in
        r.base ≡ some mb
        → (pr_base e ≢ [])
          × (pr_head e ≢ [])
          × (r.head ≡ some (pr_head e))
          × Has G (pr_base e) t
          × Has G (pr_head e) t
          × IsMergeBase G (pr_base e) (pr_head e) mb t
  unfolding resolve_pull_request
  resolve_pull_request_sound e s mb h =
      let s₁ = (ensure_commit G (pr_base e) s).1 in
      let s₂ = (ensure_commit G (pr_head e) s₁).1 in
      ground (
        arith,
        ensure_commit-Has G L (pr_base e) s,
        ensure_commit-keeps_Has G L (pr_head e) (pr_base e) s₁,
        ensure_commit-Has G L (pr_head e) s₁,
        merge_base_range_sound (pr_base e) (pr_head e) s₂ mb,
      )

  -- Over a git that meets its laws, a pull request for which a range is named: the payload names both ends, the clone holds them,
  -- and the range runs from their merge base, not from the base branch's tip, to the head.
  pub resolve_range-pull_request_sound :
      (name : Str) (e : Event) (head_sha : Str) (s : G.Clone) (mb : Str)
      → IsPullRequest name
      → let (r, t) = resolve_range G name e head_sha s in
        r.base ≡ some mb
        → (pr_base e ≢ [])
          × (pr_head e ≢ [])
          × (r.head ≡ some (pr_head e))
          × Has G (pr_base e) t
          × Has G (pr_head e) t
          × IsMergeBase G (pr_base e) (pr_head e) mb t
  unfolding resolve_range
  resolve_range-pull_request_sound name e head_sha s mb p h =
      ground (arith, IsPullRequest-ne-push name p, resolve_pull_request_sound e s mb)
