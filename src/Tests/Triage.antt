-- ===== src/Tests/Triage.antt =====
-- scripts/classify-run-failure.py on a run that billing refused, and on a gate that failed.
use ci_workflows.Base.{ℕ, some, List, [], ◌∷◌, ◌≡◌, ◌≢◌, refl, filter, All, any}
use ci_workflows.Base.Text.{Str, codes, str_eq, elem}
use ci_workflows.Regex.{search}
use ci_workflows.RunTriage.{
  Job, Annotations, Control, Verdict, refused, find_detector, field, has_failed, judge, judge_all,
  classify, budget_refused, refused_for_billing, refused_for_runner, genuine_gate_failure,
  ran_no_steps, matches, annotation_text, entries, join_lines,
}
use ci_workflows.RunTriage.Controls.{
  controls, loaded, load_controls, catalog_errors, control_errors, missing_fields,
}
use ci_workflows.RunTriage.Main.{exit_code, main_code}
use ci_workflows.RunTriage.Verdicts.{IsRefusal, judge_sound}
use ci_workflows.RunTriage.Catalog.{IsUsable, DistinctIds, load_controls-IsUsable}
use ci_workflows.RunTriage.Exit.{IsFaithful, classify_total, main_code-refused}

abbrev control : Str → Str → Control
control id detector =
    (codes "id", id)
    ∷ (codes "title", codes "t")
    ∷ (codes "owner", codes "o")
    ∷ (codes "scope", codes "s")
    ∷ (codes "status", codes "active")
    ∷ (codes "severity", codes "high")
    ∷ (codes "policy", codes "p")
    ∷ (codes "rationale", codes "r")
    ∷ (codes "remediation", codes "m")
    ∷ (codes "detector", detector)
    ∷ []

abbrev catalog : List Control
catalog =
    control (codes "RT-0001") (codes "refused_for_billing")
    ∷ control (codes "RT-0003") (codes "genuine_gate_failure")
    ∷ []

abbrev unstarted : Job
unstarted = record {
  id = codes "7";
  name = some (codes "test");
  conclusion = some (codes "failure");
  steps = [];
}

abbrev passed : Job
passed = record {
  id = codes "8";
  name = some (codes "lint");
  conclusion = some (codes "success");
  steps = [];
}

abbrev annotations : Annotations
annotations =
    (
      codes "7",
      some (codes "The job was not started because your Spending Limit needs to be increased.")
          ∷ [],
    )
    ∷ []

unfoldable triage_open : ℕ
unfolding load_controls catalog_errors control_errors missing_fields find_detector field judge
    judge_all classify exit_code main_code refused_for_billing refused_for_runner
    genuine_gate_failure ran_no_steps matches annotation_text entries join_lines search filter any
    elem str_eq
triage_open = 0

catalog-loads : load_controls (controls catalog) ≡ loaded catalog
unfolding triage_open
catalog-loads = refl

load_controls-IsUsable_example : All IsUsable catalog × DistinctIds [] catalog
load_controls-IsUsable_example = load_controls-IsUsable (controls catalog) catalog catalog-loads

unstarted_verdict :
    judge unstarted annotations catalog
    ≡ some (record {
      job = unstarted;
      control_id = codes "RT-0001";
      kind = refused;
      evidence = budget_refused (codes "Spending Limit needs to be increased");
    })
unfolding triage_open
unstarted_verdict = refl

judge_sound_example :
    (unstarted ≡ unstarted) × (refused ≡ refused → IsRefusal annotations unstarted)
judge_sound_example = judge_sound unstarted annotations catalog _ unstarted_verdict

classify_total_example :
    (vs : List Verdict) × (classify (passed ∷ unstarted ∷ []) annotations catalog ≡ some vs)
    × IsFaithful annotations (filter has_failed (passed ∷ unstarted ∷ [])) vs
classify_total_example =
    classify_total (controls catalog) catalog (passed ∷ unstarted ∷ []) annotations catalog-loads

run_refused : main_code (controls catalog) (some (passed ∷ unstarted ∷ [], annotations)) ≡ 75
unfolding triage_open
run_refused = refl

main_code-refused_example :
    (filter has_failed (passed ∷ unstarted ∷ []) ≢ [])
    × All (IsRefusal annotations) (filter has_failed (passed ∷ unstarted ∷ []))
main_code-refused_example =
    main_code-refused (controls catalog) (passed ∷ unstarted ∷ []) annotations run_refused
