-- ===== src/Tests/Detectors.antt =====
-- scripts/check-detector-parity.py on two repositories.
use ci_workflows.Base.{ℕ, Bool, true, some, List, [], ◌∷◌, ◌≡◌, ◌↔◌, refl, any, All, filter, none}
use ci_workflows.Base.Text.{Str, codes, str_eq, elem, has_sub, starts_with}
use ci_workflows.ModulePins.{lookup, insert}
use ci_workflows.Parity.{
  Family, gateway, CiOutput, results, Finding, CliOutput, reports, cell_of, ci_cells, ci_report,
  count_findings, count_reports, cli_cell, cli_cells, cli_report, flagged,
}
use ci_workflows.Parity.Artifact.{
  ToolRun, wrote, compare_comments, member_problems, text_problems, baseline_artifact_parity,
}
use ci_workflows.Parity.Comments.{CommentsAgree}
use ci_workflows.Parity.Run.{
  Repo, look_like_options, verdict_eq, compare_cells, compare_controls, compare_answers, run_family,
  strength, any_failed, shared_errors, main_code, parse_roots, run_script,
}
use ci_workflows.Parity.Agreement.{FamilyAgrees, main_code-FamilyAgrees}

unfoldable parity_open : Bool
unfolding cell_of ci_cells ci_report count_findings count_reports cli_cell cli_cells cli_report
    compare_comments member_problems text_problems baseline_artifact_parity verdict_eq compare_cells
    compare_controls compare_answers run_family strength any_failed shared_errors main_code
    parse_roots run_script lookup insert str_eq elem has_sub starts_with any filter
parity_open = true

abbrev ci_says : Str → ℕ → Family → CiOutput
ci_says verdict n fam =
    results (record { control = codes "GW-0001"; result = verdict; count = n } ∷ [])

abbrev cli_says : List Finding → Family → CliOutput
cli_says fs fam = reports (fs ∷ [])

abbrev finding : Finding
finding = record { check = codes "gateway_shared_baseline"; status = codes "open" }

abbrev agreeing : List Repo
agreeing =
    record {
      name = codes "bff";
      ci = ci_says (codes "fail") 2;
      cli = cli_says (finding ∷ finding ∷ []);
    }
    ∷ record { name = codes "edge"; ci = ci_says (codes "pass") 0; cli = cli_says [] }
    ∷ []

abbrev miscounted : List Repo
miscounted =
    record { name = codes "bff"; ci = ci_says (codes "fail") 2; cli = cli_says (finding ∷ []) } ∷ []

abbrev comment : ToolRun
comment = wrote (some (codes "controls, checks and arch may not rise"))

counts_bind : main_code (gateway ∷ []) miscounted comment comment ≡ 1
unfolding parity_open
counts_bind = refl

agree : main_code (gateway ∷ []) agreeing comment comment ≡ 0
unfolding parity_open
agree = refl

options : parse_roots (λ a. true) (codes "--help" ∷ []) ≡ look_like_options (codes "--help" ∷ [])
unfolding parity_open
options = refl

main_code-FamilyAgrees_example :
    (main_code (gateway ∷ []) agreeing comment comment ≡ 0)
    ↔ (All (FamilyAgrees agreeing) (gateway ∷ []) × CommentsAgree comment comment)
main_code-FamilyAgrees_example = main_code-FamilyAgrees (gateway ∷ []) agreeing comment comment

-- A control that the CI does not ask about is not compared.
not_asked :
    (compare_cells gateway
      (codes "bff")
      (codes "GW-0001")
      (record { verdict = none; count = 0 })
      (record { verdict = some flagged; count = 3 })).disagree
    ≡ 0
unfolding parity_open
not_asked = refl
