-- ===== src/Tests/Ranges.antt =====
-- scripts/diffrange.py on the small git.
use ci_workflows.Base.{true, false, some, List, [], ◌∷◌, ◌≡◌, ◌≢◌, refl}
use ci_workflows.Base.Text.{Str, codes, elem}
use ci_workflows.Git.{diff_names_args, log_names_args}
use ci_workflows.DiffRange.{push_range, pr_base, pr_head, push_head, resolve_range, changed_paths}
use ci_workflows.DiffRange.Commits.{Has}
use ci_workflows.DiffRange.PushRange.{
  IsPlainPush, IsChangeSet, resolve_range-push_sound, resolve_range-push_complete,
}
use ci_workflows.DiffRange.PullRange.{IsMergeBase, IsPullRequest, resolve_range-pull_request_sound}
use ci_workflows.DiffRange.ChangedPaths.{touched, changed_paths_union}
use ci_workflows.Tests.MemoryGit.{gates_open, docs_git, docs_git-IsLawful, push_event, pull_event}

-- The clone lacks both commits at first, and a fetch brings them.
push_base : (resolve_range docs_git (codes "push") push_event [] false).0.base ≡ some (codes "aaa")
unfolding gates_open
push_base = refl

resolve_range-push_sound_example :
    let (r, t) = resolve_range docs_git (codes "push") push_event [] false in
    IsPlainPush push_event (codes "aaa")
    × (r.head ≡ some (push_head push_event []))
    × (push_head push_event [] ≢ [])
    × IsChangeSet docs_git (codes "aaa") (push_head push_event []) t
resolve_range-push_sound_example =
    resolve_range-push_sound docs_git docs_git-IsLawful push_event [] false (codes "aaa") push_base

push_event-IsPlainPush : IsPlainPush push_event (codes "aaa")
unfolding gates_open
push_event-IsPlainPush = record {
  named = refl;
  not_deleted = refl;
  not_created = refl;
  not_forced = refl;
  not_first = refl;
}

fetched-IsChangeSet : IsChangeSet docs_git (codes "aaa") (codes "bbb") true
unfolding gates_open
fetched-IsChangeSet = record { has_base = refl; has_head = refl; ancestor = refl }

resolve_range-push_complete_example : resolve_range docs_git (codes "push") push_event [] true ≡ (
  record {
    base = some (codes "aaa");
    head = some (codes "bbb");
    reason = push_range (codes "aaa") (codes "bbb");
  },
  true,
)
resolve_range-push_complete_example =
    resolve_range-push_complete docs_git docs_git-IsLawful push_event [] (codes "aaa") true
      push_event-IsPlainPush (λ e. cc) fetched-IsChangeSet

IsPullRequest-carried : IsPullRequest (codes "pull_request")
unfolding gates_open
IsPullRequest-carried = refl

pull_base :
    (resolve_range docs_git (codes "pull_request") pull_event [] false).0.base ≡ some (codes "aaa")
unfolding gates_open
pull_base = refl

resolve_range-pull_request_sound_example :
    let (r, t) = resolve_range docs_git (codes "pull_request") pull_event [] false in
    (pr_base pull_event ≢ [])
    × (pr_head pull_event ≢ [])
    × (r.head ≡ some (pr_head pull_event))
    × Has docs_git (pr_base pull_event) t
    × Has docs_git (pr_head pull_event) t
    × IsMergeBase docs_git (pr_base pull_event) (pr_head pull_event) (codes "aaa") t
resolve_range-pull_request_sound_example =
    resolve_range-pull_request_sound docs_git docs_git-IsLawful (codes "pull_request") pull_event []
      false (codes "aaa") IsPullRequest-carried pull_base

abbrev two_paths : List Str
two_paths = codes "README.md" ∷ codes "docs/a.png" ∷ []

two_paths_changed : (changed_paths docs_git (codes "aaa") (codes "bbb") true).0 ≡ some two_paths
unfolding gates_open
two_paths_changed = refl

changed_paths_union_example :
    (elem (codes "README.md") two_paths
      ≡ touched docs_git (codes "aaa") (codes "bbb") true (codes "README.md"))
    × ((docs_git.run (diff_names_args (codes "aaa") (codes "bbb")) true).0.code ≡ 0)
    × ((docs_git.run (log_names_args (codes "aaa") (codes "bbb")) true).0.code ≡ 0)
    × ((changed_paths docs_git (codes "aaa") (codes "bbb") true).1 ≡ true)
changed_paths_union_example =
    changed_paths_union docs_git docs_git-IsLawful (codes "aaa") (codes "bbb") true two_paths
      (codes "README.md") two_paths_changed
