-- ===== src/Parity/Run.antt =====
-- `run_family`, `parse_roots` and `main` of scripts/check-detector-parity.py. A counter of the loops is
-- the sum of what each turn adds to it.
use ci_workflows.Base.{
  ℕ, ◌+◌, Bool, true, false, not, ◌&&◌, ◌||◌, Option, none, some, List, [], ◌∷◌, ◌++◌, ◌==◌,
  if◌then◌else◌, is_nil, any, filter, map,
}
use ci_workflows.Base.Text.{Str, codes, str_eq, starts_with}
use ci_workflows.ModulePins.{Dict, lookup}
use ci_workflows.Parity.{
  Verdict, flagged, clean, indeterminate, Family, families, Cell, CiOutput, CliOutput, Answer,
  error, cells, ci_report, cli_report, cell_at,
}
use ci_workflows.Parity.Artifact.{ToolRun, baseline_artifact_parity}

-- A repository, with what the two detectors of each family print about it.
pub record Repo : Type 0 where
  pub name : Str
  pub ci : Family → CiOutput
  pub cli : Family → CliOutput

-- A row of the table.
pub data Line : Type 0 where
  disagrees : Str → Str → Cell → Cell → Line
  -- whether the counts are binding
  count_differs : Bool → Str → Str → Cell → Cell → Line

pub data HarnessError : Type 0 where
  ci_failed cli_failed : Str → Str → Str → HarnessError

pub record Tally : Type 0 where
  pub agree : ℕ
  pub disagree : ℕ
  pub count_gaps : ℕ
  pub unasked : ℕ
  -- the CI's verdicts by control
  pub spread : List (Str × Verdict)
  pub errors : List HarnessError
  pub lines : List Line

abbrev pub nothing : Tally
nothing = record {
  agree = 0;
  disagree = 0;
  count_gaps = 0;
  unasked = 0;
  spread = [];
  errors = [];
  lines = [];
}

infixr 20 ◌⊕◌
abbrev pub ◌⊕◌ : Tally → Tally → Tally
s ⊕ t = record {
  agree = s.agree + t.agree;
  disagree = s.disagree + t.disagree;
  count_gaps = s.count_gaps + t.count_gaps;
  unasked = s.unasked + t.unasked;
  spread = s.spread ++ t.spread;
  errors = s.errors ++ t.errors;
  lines = s.lines ++ t.lines;
}

unfoldable pub verdict_eq : Verdict → Verdict → Bool
verdict_eq flagged flagged = true
verdict_eq flagged clean = false
verdict_eq flagged indeterminate = false
verdict_eq clean flagged = false
verdict_eq clean clean = true
verdict_eq clean indeterminate = false
verdict_eq indeterminate flagged = false
verdict_eq indeterminate clean = false
verdict_eq indeterminate indeterminate = true

-- `ci_verdict == cli_verdict`, for a verdict of the CI
abbrev pub is_verdict : Verdict → Option Verdict → Bool
is_verdict v none = false
is_verdict v (some w) = verdict_eq v w

-- One control of one repository, with the CI's verdict.
abbrev pub compare_verdict : Family → Str → Str → Verdict → Cell → Cell → Tally
compare_verdict fam repo cid v ci cli =
    if not (is_verdict v cli.verdict)
    then record nothing {
      disagree = 1;
      spread = (cid, v) ∷ [];
      lines = disagrees repo cid ci cli ∷ [];
    }
    else if ci.count == cli.count
    then record nothing { agree = 1; spread = (cid, v) ∷ [] }
    else record nothing {
      agree = 1;
      count_gaps = 1;
      spread = (cid, v) ∷ [];
      lines = count_differs fam.strict_counts repo cid ci cli ∷ [];
    }

abbrev pub compare_asked : Family → Str → Str → Cell → Cell → Option Verdict → Tally
compare_asked fam repo cid ci cli none = record nothing { unasked = 1 }
compare_asked fam repo cid ci cli (some v) = compare_verdict fam repo cid v ci cli

unfoldable pub compare_cells : Family → Str → Str → Cell → Cell → Tally
unfolding verdict_eq
compare_cells fam repo cid ci cli = compare_asked fam repo cid ci cli ci.verdict

unfoldable pub compare_controls : Family → Str → Dict Str → Dict Cell → Dict Cell → Tally
unfolding compare_cells lookup
compare_controls fam repo [] ci cli = nothing
compare_controls fam repo ((cid, check) ∷ pairs) ci cli =
    compare_cells fam repo cid (cell_at cid ci) (cell_at cid cli)
    ⊕ compare_controls fam repo pairs ci cli

abbrev pub failed_with : HarnessError → Tally
failed_with e = record nothing { errors = e ∷ [] }

unfoldable pub compare_answers : Family → Str → Answer → Answer → Tally
unfolding compare_controls
compare_answers fam repo (error text) cli = failed_with (ci_failed fam.name repo text)
compare_answers fam repo (cells ci) (error text) = failed_with (cli_failed fam.name repo text)
compare_answers fam repo (cells ci) (cells cli) = compare_controls fam repo fam.pairs ci cli

unfoldable pub run_family : Family → List Repo → Tally
unfolding compare_answers ci_report cli_report
run_family fam [] = nothing
run_family fam (r ∷ rs) =
    compare_answers fam r.name (ci_report fam (r.ci fam)) (cli_report fam (r.cli fam))
    ⊕ run_family fam rs

-- How well a control was tested.
pub data Strength : Type 0 where
  both_seen all_flagged all_clean never_decided : Strength

abbrev pub is_seen : Str → Verdict → Str × Verdict → Bool
is_seen cid v (c, w) = str_eq cid c && verdict_eq v w

unfoldable pub strength : List (Str × Verdict) → Str → Strength
unfolding any str_eq verdict_eq
strength spread cid =
    let t = any (is_seen cid flagged) spread in
    let c = any (is_seen cid clean) spread in
    if t && c then both_seen else if t then all_flagged else if c then all_clean else never_decided

-- Whether a family fails the run.
abbrev pub is_vacuous : Tally → Bool
is_vacuous t = (t.agree == 0) && (t.disagree == 0)

abbrev pub family_failed : Family → Tally → Bool
family_failed fam t =
    (not (t.disagree == 0) || (not (t.count_gaps == 0) && fam.strict_counts)) || is_vacuous t

unfoldable pub any_failed : List Family → List Repo → Bool
unfolding run_family
any_failed [] repos = false
any_failed (fam ∷ fams) repos = family_failed fam (run_family fam repos) || any_failed fams repos

unfoldable pub shared_errors : List Family → List Repo → List HarnessError
unfolding run_family
shared_errors [] repos = []
shared_errors (fam ∷ fams) repos = (run_family fam repos).errors ++ shared_errors fams repos

unfoldable pub main_code : List Family → List Repo → ToolRun → ToolRun → ℕ
unfolding any_failed shared_errors baseline_artifact_parity
main_code fams repos ci cli =
    if (any_failed fams repos || not (is_nil (baseline_artifact_parity ci cli)))
      || not (is_nil (shared_errors fams repos))
    then 1
    else 0

pub data Roots : Type 0 where
  usage : Roots
  look_like_options no_directories : List Str → Roots
  roots : List Str → Roots

unfoldable pub parse_roots : (Str → Bool) → List Str → Roots
unfolding filter starts_with
parse_roots is_dir args =
    let flags = filter (starts_with (codes "-")) args in
    let missing = filter (λ a. not (is_dir a)) args in
    if is_nil args
    then usage
    else if not (is_nil flags)
    then look_like_options flags
    else if not (is_nil missing)
    then no_directories missing
    else roots args

-- The whole script: `SystemExit` with a text is the exit code 1.
unfoldable pub run_script : (Str → Bool) → (Str → Repo) → ToolRun → ToolRun → List Str → ℕ
unfolding parse_roots main_code
run_script is_dir repo_at ci cli args = elim (parse_roots is_dir args) [
  | usage ↦ 1
  | look_like_options flags ↦ 1
  | no_directories missing ↦ 1
  | roots paths ↦ main_code families (map repo_at paths) ci cli
]
