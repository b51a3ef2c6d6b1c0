-- ===== src/DiffRange/PushRange.antt =====
-- `resolve_range` of scripts/diffrange.py on a push: when it names a range, and when it must.
use ci_workflows.Base.{true, false, ◌||◌, some, [], ◌≡◌, ◌≢◌, refl, arith, is_nil}
use ci_workflows.Base.Text.{Str, codes, str_eq}
use ci_workflows.Git.{Git, IsLawful, is_query, is_ancestor_args}
use ci_workflows.Event.{Event}
use ci_workflows.DiffRange.{
  push_range, or_empty, short, all_zero, zero_sha, push_head, succeeds, ensure_commit, is_ancestor,
  push_commits, resolve_push, resolve_range,
}
use ci_workflows.DiffRange.Commits.{
  Has, ensure_commit-Has, ensure_commit-keeps_Has, ensure_commit_present,
}

-- What makes `before..head` the change set of a push to an existing branch.
pub record IsPlainPush (e : Event) (before : Str) : Type 0 where
  pub named : or_empty e.before ≡ before
  pub not_deleted : e.deleted ≡ false
  pub not_created : e.created ≡ false
  pub not_forced : e.forced ≡ false
  pub not_first : (is_nil before || (all_zero before || str_eq before zero_sha)) ≡ false

module _ (G : Git) where
  -- The clone holds both ends, and the first is an ancestor of the second.
  pub record IsChangeSet (base head : Str) (s : G.Clone) : Type 0 where
    pub has_base : Has G base s
    pub has_head : Has G head s
    pub ancestor : (G.run (is_ancestor_args base head) s).0.code ≡ 0

module _ (G : Git) (L : IsLawful G) where
  is_ancestor-keeps : (base head : Str) (s : G.Clone) → (is_ancestor G base head s).1 ≡ s
  unfolding is_ancestor succeeds is_query str_eq
  is_ancestor-keeps base head s = L.query_keeps (is_ancestor_args base head) s refl

  is_ancestor-true :
      (base head : Str) (s : G.Clone)
      → (is_ancestor G base head s).0 ≡ true
      → (G.run (is_ancestor_args base head) s).0.code ≡ 0
  unfolding is_ancestor succeeds
  is_ancestor-true base head s h = ground arith

  push_commits_sound :
      (before after : Str) (s : G.Clone) (base : Str)
      → (push_commits G before after s).0.base ≡ some base
      → (base ≡ before)
        × ((push_commits G before after s).0.head ≡ some after)
        × (after ≢ [])
        × IsChangeSet G before after (push_commits G before after s).1
  unfolding push_commits
  push_commits_sound before after s base h =
      let s₁ = (ensure_commit G before s).1 in
      let s₂ = (ensure_commit G after s₁).1 in
      ground (
        arith,
        ensure_commit-Has G L before s,
        ensure_commit-keeps_Has G L after before s₁,
        ensure_commit-Has G L after s₁,
        is_ancestor-true before after s₂,
        is_ancestor-keeps before after s₂,
      )

  -- Over a git that meets its laws, a push for which a range is named is a plain push whose ends the clone holds, the first an
  -- ancestor of the second: the range is the change set of the push, and never a history rewrite.
  pub resolve_range-push_sound :
      (e : Event) (head_sha : Str) (s : G.Clone) (base : Str)
      → let (r, t) = resolve_range G (codes "push") e head_sha s in
        r.base ≡ some base
        → IsPlainPush e base
          × (r.head ≡ some (push_head e head_sha))
          × (push_head e head_sha ≢ [])
          × IsChangeSet G base (push_head e head_sha) t
  unfolding resolve_range resolve_push str_eq
  resolve_range-push_sound e head_sha s base h =
      ground (arith, push_commits_sound (or_empty e.before) (push_head e head_sha) s base)

  -- The other way round, over a git that meets its laws: a plain push with a head, whose ends the clone holds, the first an ancestor of the
  -- second, gets exactly that range, and the clone is left as it was.
  pub resolve_range-push_complete :
      (e : Event) (head_sha base : Str) (s : G.Clone)
      → IsPlainPush e base
      → push_head e head_sha ≢ []
      → IsChangeSet G base (push_head e head_sha) s
      → resolve_range G (codes "push") e head_sha s ≡ (
        record {
          base = some base;
          head = some (push_head e head_sha);
          reason = push_range (short base) (short (push_head e head_sha));
        },
        s,
      )
  unfolding resolve_range resolve_push push_commits str_eq is_ancestor succeeds
  resolve_range-push_complete e head_sha base s p ne c = ground (
    arith,
    ensure_commit_present G L base s c.has_base,
    ensure_commit_present G L (push_head e head_sha) s c.has_head,
    is_ancestor-keeps base (push_head e head_sha) s,
  )
