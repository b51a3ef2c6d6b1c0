-- ===== src/Tests/MemoryGit.antt =====
-- A small git: a clone that has its commits after a fetch, and a range with given paths and lines.
use ci_workflows.Base.{
  ℕ, Bool, true, some, List, [], ◌∷◌, ◌≡◌, refl, arith, if◌then◌else◌, all, any, filter,
}
use ci_workflows.Base.Text.{
  Str, codes, str_eq, str_eq_iff, elem, strip, rstrip_char, starts_with, ends_with, has_sub,
  split_on, words, splitlines, lower,
}
use ci_workflows.Base.Sorting.{sort_by}
use ci_workflows.DiffRange.{
  all_zero, succeeds, commit_exists, deepen, ensure_commit, is_ancestor, push_commits, resolve_push,
  merge_base_range, resolve_pull_request, resolve_range, update_set, nul_separated, changed_paths,
}
use ci_workflows.Glob.{fnmatch}
use ci_workflows.Git.{Git, Reply, IsLawful, is_query}
use ci_workflows.Event.{Event, Payload, object, no_event, load_event}
use ci_workflows.Gate.{Args, append_line, emit}

abbrev ok : Str → Reply
ok out = record { code = 0; out = out }

pub reply : Str → Str → List Str → Bool → Reply × Bool
reply paths lines [] s = (ok [], s)
reply paths lines (w ∷ ws) s =
    if str_eq w (codes "fetch")
    then (ok [], true)
    else if str_eq w (codes "cat-file")
    then (record { code = if s then 0 else 1; out = [] }, s)
    else if str_eq w (codes "merge-base")
    then (ok (codes "aaa\n"), s)
    else if elem (codes "-U0") ws
    then (ok lines, s)
    else (ok paths, s)

abbrev pub git : Str → Str → Git
git paths lines = record { Clone = Bool; run = reply paths lines }

reply_keeps :
    (paths lines : Str) (args : List Str) (s : Bool)
    → is_query args ≡ true
    → (reply paths lines args s).1 ≡ s
unfolding reply is_query str_eq
reply_keeps paths lines [] s h = refl
reply_keeps paths lines (w ∷ ws) s h = ground (arith, str_eq_iff w (codes "fetch"))

pub git-IsLawful : (paths lines : Str) → IsLawful (git paths lines)
unfolding reply str_eq
git-IsLawful paths lines = record {
  query_keeps = λ args s h. reply_keeps paths lines args s h;
  fetch_keeps = λ extra sha s h. refl;
}

abbrev pub push_event : Event
push_event = record no_event { before = some (codes "aaa"); after = some (codes "bbb") }

abbrev pub pull_event : Event
pull_event = record no_event {
  pull_request = some (record { base_sha = some (codes "base"); head_sha = some (codes "head") });
}

abbrev pub push_args : Args
push_args = record {
  repo_is_dir = true;
  event_name = codes "push";
  event_path = some (codes "event.json");
  head_sha = codes "bbb";
  github_output = some (codes "out");
}

abbrev pub read_push : Str → Payload
read_push path = object push_event

abbrev pub docs_git : Git
docs_git = git (codes "README.md\0docs/a.png\0") []

abbrev pub pins_git : Git
pins_git =
    git (codes "go.mod\0go.sum\0")
      (codes "@@ -5 +5 @@\n-\texample.com/m v1.2.3\n+\texample.com/m v1.2.4\n")

pub docs_git-IsLawful : IsLawful docs_git
docs_git-IsLawful = git-IsLawful _ _

pub pins_git-IsLawful : IsLawful pins_git
pins_git-IsLawful = git-IsLawful _ _

-- What a run of a gate computes with.
unfoldable pub gates_open : ℕ
unfolding reply str_eq all any filter elem strip rstrip_char starts_with ends_with has_sub split_on
    words splitlines lower sort_by load_event all_zero succeeds commit_exists deepen ensure_commit
    is_ancestor push_commits resolve_push merge_base_range resolve_pull_request resolve_range
    update_set nul_separated changed_paths append_line emit fnmatch
gates_open = 0
