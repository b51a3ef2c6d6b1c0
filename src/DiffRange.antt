-- ===== src/DiffRange.antt =====
-- scripts/diffrange.py: which commits an event describes, and which paths they touched.
pub mod Commits
pub mod PushRange
pub mod PullRange
pub mod ChangedPaths
use ci_workflows.Base.{
  ℕ, Bool, true, false, not, ◌&&◌, ◌||◌, Option, none, some, List, [], ◌∷◌, ◌++◌, ◌≡◌, ◌==◌,
  if◌then◌else◌, take, is_nil, all, filter,
}
use ci_workflows.Base.Text.{Str, codes, str_eq, elem, strip, split_on}
use ci_workflows.Git.{
  Git, Action, cat_file_args, fetch_args, is_ancestor_args, merge_base_args, diff_names_args,
  log_names_args,
}
use ci_workflows.Event.{Event, PullRequest}

-- Why a range is, or is not, trusted: a message for each constructor, with the values in it.
pub data Reason : Type 0 where
  branch_deletion first_push force_push no_head no_shas not_in_clone no_merge_base : Reason
  before_not_in_clone head_not_in_clone : Str → Reason
  not_ancestor push_range pull_request_range : Str → Str → Reason
  no_commit_range : Str → Reason

pub record Resolved : Type 0 where
  pub base : Option Str
  pub head : Option Str
  pub reason : Reason

abbrev pub unresolved : Reason → Resolved
unresolved why = record { base = none; head = none; reason = why }

-- `str(x or "")`
abbrev pub or_empty : Option Str → Str
or_empty none = []
or_empty (some s) = s

-- `sha[:12]`
abbrev pub short : Str → Str
short = take 12

-- "0" * 40
abbrev pub zero_sha : Str
zero_sha = codes "0000000000000000000000000000000000000000"

-- `set(sha) == {"0"}`, for a string that is not empty
unfoldable pub all_zero : Str → Bool
unfolding all
all_zero = all (λ c. c == b'0')

-- `event.get("after")`, or the head that the caller gives
abbrev pub push_head : Event → Str → Str
push_head e head_sha = let after = or_empty e.after in if is_nil after then head_sha else after

abbrev pub pr_base : Event → Str
pr_base e = elim e.pull_request [ none ↦ [] | some pr ↦ or_empty pr.base_sha ]

abbrev pub pr_head : Event → Str
pr_head e = elim e.pull_request [ none ↦ [] | some pr ↦ or_empty pr.head_sha ]

-- `out.update(paths)` on a set that is kept as a list without repetitions.
unfoldable pub update_set : List Str → List Str → List Str
update_set out [] = out
update_set out (p ∷ ps) = update_set (if elem p out then out else out ++ p ∷ []) ps

-- `p for p in raw.split("\0") if p`
unfoldable pub nul_separated : Str → List Str
unfolding filter split_on
nul_separated raw = filter (λ p. not (is_nil p)) (split_on 0 raw)

-- The words behind `fetch --no-tags --quiet`, in the order in which they are tried.
abbrev pub fetches : Str → List (List Str)
fetches sha = (codes "--deepen=50" ∷ []) ∷ (codes "origin" ∷ sha ∷ []) ∷ []

module _ (G : Git) where
  -- Exit code 0, from a command that is run for its code.
  unfoldable pub succeeds : List Str → Action G Bool
  succeeds args s = let (r, s') = G.run args s in (r.code == 0, s')

  unfoldable pub commit_exists : Str → Action G Bool
  commit_exists sha = succeeds (cat_file_args sha)

  -- The loop over the two fetches.
  unfoldable pub deepen : Str → List (List Str) → Action G Bool
  deepen sha [] s = (false, s)
  deepen sha (extra ∷ rest) s =
      let (_, fetched) = G.run (fetch_args extra) s in
      let (found, s') = commit_exists sha fetched in
      let later = deepen sha rest s' in if found then (true, s') else later

  unfoldable pub ensure_commit : Str → Action G Bool
  ensure_commit sha s =
      let (found, s') = commit_exists sha s in
      if found then (true, s') else deepen sha (fetches sha) s'

  unfoldable pub is_ancestor : Str → Str → Action G Bool
  is_ancestor base head = succeeds (is_ancestor_args base head)

  -- `resolve_range` on a push, from the test of `after` on.
  unfoldable pub push_commits : Str → Str → Action G Resolved
  push_commits before after s =
      if is_nil after
      then (unresolved no_head, s)
      else let (b, s₁) = ensure_commit before s in
        if not b
        then (unresolved (before_not_in_clone (short before)), s₁)
        else let (h, s₂) = ensure_commit after s₁ in
          if not h
          then (unresolved (head_not_in_clone (short after)), s₂)
          else let (a, s₃) = is_ancestor before after s₂ in
            if not a then (unresolved (not_ancestor (short before) (short after)), s₃) else (
              record {
                base = some before;
                head = some after;
                reason = push_range (short before) (short after);
              },
              s₃,
            )

  unfoldable pub resolve_push : Event → Str → Action G Resolved
  resolve_push event head_sha s =
      let before = or_empty event.before in
      if event.deleted
      then (unresolved branch_deletion, s)
      else if event.created || (is_nil before || (all_zero before || str_eq before zero_sha))
      then (unresolved first_push, s)
      else if event.forced
      then (unresolved force_push, s)
      else push_commits before (push_head event head_sha) s

  -- `resolve_range` on a pull request, from the merge base on.
  unfoldable pub merge_base_range : Str → Str → Action G Resolved
  merge_base_range base head s =
      let (r, s') = G.run (merge_base_args base head) s in
      let mb = strip r.out in
      if not (r.code == 0) || is_nil mb then (unresolved no_merge_base, s') else (
        record {
          base = some mb;
          head = some head;
          reason = pull_request_range (short mb) (short head);
        },
        s',
      )

  unfoldable pub resolve_pull_request : Event → Action G Resolved
  resolve_pull_request event s =
      let base = pr_base event in
      let head = pr_head event in
      if is_nil base || is_nil head
      then (unresolved no_shas, s)
      else let (b, s₁) = ensure_commit base s in
        if not b
        then (unresolved not_in_clone, s₁)
        else let (h, s₂) = ensure_commit head s₁ in
          if not h then (unresolved not_in_clone, s₂) else merge_base_range base head s₂

  unfoldable pub resolve_range : Str → Event → Str → Action G Resolved
  resolve_range event_name event head_sha s =
      if str_eq event_name (codes "push")
      then resolve_push event head_sha s
      else if elem event_name (codes "pull_request" ∷ codes "pull_request_target" ∷ [])
      then resolve_pull_request event s
      else (unresolved (no_commit_range event_name), s)

  unfoldable pub changed_paths : Str → Str → Action G (Option (List Str))
  changed_paths base head s =
      let (net, s₁) = G.run (diff_names_args base head) s in
      if not (net.code == 0)
      then (none, s₁)
      else let (union, s₂) = G.run (log_names_args base head) s₁ in
        if not (union.code == 0) then (none, s₂) else (
          some (update_set (update_set [] (nul_separated net.out)) (nul_separated union.out)),
          s₂,
        )
