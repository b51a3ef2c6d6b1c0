-- ===== src/Gate.antt =====
-- What scripts/docs-only-diff.py and scripts/pin-only-diff.py share as commands: their arguments,
-- and the verdict that they print.
use ci_workflows.Base.{Bool, false, Option, none, some, ◌++◌, if◌then◌else◌, is_nil}
use ci_workflows.Base.Text.{Str, codes}

-- The arguments behind `parse_args`. The environment's defaults are the caller's.
pub record Args : Type 0 where
  -- `Path(repo_root).resolve().is_dir()`
  pub repo_is_dir : Bool
  pub event_name : Str
  pub event_path : Option Str
  pub head_sha : Str
  pub github_output : Option Str

-- What `emit` writes: a line appended to the output file if there is one, and the two lines that
-- it prints. The reason is a value, with what the message shows.
pub record Emitted (R : Type 0) : Type 0 where
  pub verdict : Bool
  pub appended : Option (Str × Str)
  pub printed : Str
  pub reason : R

-- `cannot_run` exits with 2; every other run exits with 0, behind one `emit`.
pub data Outcome (R : Type 0) : Type 0 where
  cannot_run : Outcome R
  emitted : Emitted R → Outcome R

unfoldable pub append_line : Option Str → Str → Option (Str × Str)
append_line none line = none
append_line (some path) line = if is_nil path then none else some (path, line ++ codes "\n")

-- `emit`, for the name of the output, `docs_only` or `pin_only`
unfoldable pub emit : {R : Type 0} → Str → Option Str → Bool → R → Emitted R
emit key github_output value reason =
    let line = key ++ codes "=" ++ (if value then codes "true" else codes "false") in
    record {
      verdict = value;
      appended = append_line github_output line;
      printed = line;
      reason = reason;
    }

-- The run printed the verdict `true`.
abbrev pub says_true : {R : Type 0} → Outcome R → Bool
says_true cannot_run = false
says_true (emitted e) = e.verdict
