-- ===== src/RunTriage/Main.antt =====
-- The exit code of scripts/classify-run-failure.py.
use ci_workflows.Base.{ℕ, Bool, true, false, not, Option, none, some, List, if◌then◌else◌, any}
use ci_workflows.RunTriage.{Job, Annotations, Verdict, refused, genuine, classify}
use ci_workflows.RunTriage.Controls.{
  Document, exits_with_message, exits_with_errors, loaded, load_controls,
}

-- `EX_REFUSED`, and 0
abbrev pub ex_refused : ℕ
ex_refused = 75

abbrev pub is_genuine : Verdict → Bool
is_genuine v = elim v.kind [ genuine ↦ true | refused ↦ false ]

-- The exit code at the end of `main`.
unfoldable pub exit_code : List Verdict → ℕ
exit_code verdicts =
    if any is_genuine verdicts
    then 0
    else if any (λ v. not (is_genuine v)) verdicts
    then ex_refused
    else 0

-- The exit code of a process that an uncaught exception or a message ends, and `EX_CATALOG`
abbrev pub ex_message : ℕ
ex_message = 1

abbrev pub ex_catalog : ℕ
ex_catalog = 2

abbrev pub code_of : Option (List Verdict) → ℕ
code_of none = ex_message
code_of (some verdicts) = exit_code verdicts

-- The jobs and annotations of `--bundle`, if the file can be read, are given.
unfoldable pub main_code : Document → Option (List Job × Annotations) → ℕ
main_code doc bundle = elim (load_controls doc) [
  | exits_with_message ↦ ex_message
  | exits_with_errors errors ↦ ex_catalog
  | loaded cs ↦ (elim bundle [
    | none ↦ ex_message
    | some (jobs, annotations) ↦ code_of (classify jobs annotations cs)
  ])
]
