-- ===== src/Tests/Gates.antt =====
-- The two gates, scripts/docs-only-diff.py and scripts/pin-only-diff.py, on the small git.
use ci_workflows.Base.{ℕ, Bool, true, false, some, List, [], ◌∷◌, ◌≡◌, refl}
use ci_workflows.Base.Text.{Str, codes}
use ci_workflows.Event.{load_event}
use ci_workflows.DiffRange.{resolve_range}
use ci_workflows.DiffRange.ChangedPaths.{touched}
use ci_workflows.EmbedPatterns.{
  GoFile, embed_patterns, excluded_roots, is_parent, same_path, is_skipped, file_patterns,
  text_patterns, package_dir, line_patterns, embed_directive, directive_tokens, token_patterns,
  unqualified, token_pattern,
}
use ci_workflows.Gate.{says_true}
use ci_workflows.Glob
use ci_workflows.PosixPath
use ci_workflows.Shlex
use ci_workflows.DocsOnly
use ci_workflows.DocsOnly.{suffix, is_embedded, denied_dir, is_documentation, classify}
use ci_workflows.DocsOnly.Verdict.{main-documentation}
use ci_workflows.PinOnly
use ci_workflows.PinOnly.{
  fixture_dir, is_pin_file, line_body, is_content, content_lines, is_pin_line, is_go_mod,
  judge_lines, significant_lines, go_mod_is_pins_only, check_go_mods,
}
use ci_workflows.PinOnly.Verdict.{main-pins, IsPinRange}
use ci_workflows.Exclusive.{docs-pins_exclusive}
use ci_workflows.Tests.MemoryGit.{
  gates_open, docs_git, pins_git, docs_git-IsLawful, pins_git-IsLawful, push_args, read_push,
}

unfoldable patterns_open : ℕ
unfolding embed_patterns excluded_roots is_parent same_path is_skipped file_patterns text_patterns
    package_dir line_patterns embed_directive directive_tokens token_patterns unqualified
    token_pattern Shlex.split PosixPath.normpath PosixPath.join Glob.item_matches
patterns_open = 0

unfoldable docs_open : ℕ
unfolding suffix DocsOnly.embeds is_embedded denied_dir is_documentation classify
    DocsOnly.decide_paths DocsOnly.decide_range DocsOnly.main
docs_open = 0

unfoldable pins_open : ℕ
unfolding fixture_dir is_pin_file line_body is_content content_lines is_pin_line PosixPath.path_name
    is_go_mod judge_lines significant_lines go_mod_is_pins_only check_go_mods PinOnly.classify
    PinOnly.decide_range PinOnly.main
pins_open = 0

abbrev own_root : List Str
own_root = codes "w" ∷ codes ".ci" ∷ []

abbrev root : List Str
root = codes "w" ∷ []

abbrev go_files : Bool → List GoFile
go_files s =
    record {
      parts = codes "internal" ∷ codes "help.go" ∷ [];
      text = some (codes "package internal\n\n//go:embed help.md \"more docs\"\nvar help string\n");
    }
    ∷ []

-- The patterns of the directive, below the package's directory.
patterns_test :
    embed_patterns own_root root (go_files true)
    ≡ codes "internal/help.md" ∷ codes "internal/more docs" ∷ []
unfolding gates_open patterns_open
patterns_test = refl

-- A directive in back quotes, as Go allows it, names a file that its pattern does not match: the
-- file, which is compiled into the binary, is taken for documentation.
back_quoted : List GoFile
back_quoted =
    record { parts = codes "a.go" ∷ []; text = some (codes "//go:embed `help.md`\n") } ∷ []

back_quoted_test :
    is_documentation (codes "help.md") (embed_patterns own_root root back_quoted) ≡ true
unfolding gates_open patterns_open docs_open back_quoted
back_quoted_test = refl

docs_says_true :
    says_true (DocsOnly.main docs_git read_push own_root root go_files push_args false).0 ≡ true
unfolding gates_open patterns_open docs_open
docs_says_true = refl

pins_says_true : says_true (PinOnly.main pins_git read_push push_args false).0 ≡ true
unfolding gates_open pins_open
pins_says_true = refl

docs-pins_exclusive_example : says_true (PinOnly.main docs_git read_push push_args false).0 ≡ false
docs-pins_exclusive_example =
    docs-pins_exclusive docs_git docs_git-IsLawful read_push own_root root go_files push_args false
      docs_says_true

main-documentation_example :
    let s₁ = (docs_git.run (codes "rev-parse" ∷ codes "--git-dir" ∷ []) false).1 in
    let event = load_event read_push push_args.event_path in
    let (r, t) = resolve_range docs_git push_args.event_name event push_args.head_sha s₁ in
    (base : Str) × (head : Str) × (r.base ≡ some base)
    × (r.head ≡ some head)
    × ((p : Str)
        → touched docs_git base head t p ≡ true
        → is_documentation p (embed_patterns own_root root (go_files t)) ≡ true)
main-documentation_example =
    main-documentation docs_git docs_git-IsLawful read_push own_root root go_files push_args false
      docs_says_true

main-pins_example :
    let s₁ = (pins_git.run (codes "rev-parse" ∷ codes "--git-dir" ∷ []) false).1 in
    let event = load_event read_push push_args.event_path in
    let (r, t) = resolve_range pins_git push_args.event_name event push_args.head_sha s₁ in
    (base : Str) × (head : Str) × (r.base ≡ some base)
    × (r.head ≡ some head)
    × IsPinRange pins_git base head t
main-pins_example = main-pins pins_git pins_git-IsLawful read_push push_args false pins_says_true
