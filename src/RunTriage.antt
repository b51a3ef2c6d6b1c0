-- ===== src/RunTriage.antt =====
-- scripts/classify-run-failure.py: a failed job that was never started, apart from a gate's verdict.
pub mod Patterns
pub mod Controls
pub mod Main
pub mod Catalog
pub mod Verdicts
pub mod Exit
use ci_workflows.Base.{
  ℕ, Bool, true, false, not, ◌&&◌, ◌||◌, Option, none, some, List, [], ◌∷◌, ◌++◌, ◌==◌,
  if◌then◌else◌, is_nil, any, filter, length,
}
use ci_workflows.Base.Text.{Str, codes, str_eq, elem}
use ci_workflows.Regex.{Regex, search}
use Patterns.{billing_patterns, runner_patterns}

-- The API's objects, with the fields that the script reads. A missing field is `none`.
pub record Step : Type 0 where
  pub name : Option Str
  pub conclusion : Option Str

pub record Job : Type 0 where
  -- `str(job.get("id"))`
  pub id : Str
  pub name : Option Str
  pub conclusion : Option Str
  pub steps : List Step

-- The annotations by job: a message each.
abbrev pub Annotations : Type 0
Annotations = List (Str × List (Option Str))

abbrev pub has_value : Option Str → Str → Bool
has_value none v = false
has_value (some s) v = str_eq s v

-- `annotations.get(key) or []`
unfoldable pub entries : Str → Annotations → List (Option Str)
entries key [] = []
entries key ((k, es) ∷ more) = if str_eq k key then es else entries key more

abbrev message : Option Str → Str
message none = []
message (some m) = m

unfoldable pub join_lines : List (Option Str) → Str
join_lines [] = []
join_lines (e ∷ []) = message e
join_lines (e ∷ f ∷ es) = message e ++ codes "\n" ++ join_lines (f ∷ es)

unfoldable pub annotation_text : Job → Annotations → Str
annotation_text job annotations = join_lines (entries job.id annotations)

-- The match of the first pattern that is found.
unfoldable pub matches : Str → List Regex → Option Str
matches text [] = none
matches text (r ∷ rs) =
    let rest = matches text rs in elim (search r text) [ none ↦ rest | some hit ↦ some hit ]

unfoldable pub ran_no_steps : Job → Bool
ran_no_steps job = is_nil job.steps

-- What a verdict shows: the wording that was found, or the steps that ran and failed.
pub data Evidence : Type 0 where
  budget_refused runner_refused : Str → Evidence
  steps_ran : ℕ → List (Option Str) → Evidence
  unrecognised : Evidence

abbrev hit_as : (Str → Evidence) → Option Str → Option Evidence
hit_as show none = none
hit_as show (some hit) = if is_nil hit then none else some (show hit)

unfoldable pub refused_for_billing : Job → Annotations → Option Evidence
refused_for_billing job annotations =
    if not (ran_no_steps job)
    then none
    else hit_as budget_refused (matches (annotation_text job annotations) billing_patterns)

unfoldable pub refused_for_runner : Job → Annotations → Option Evidence
refused_for_runner job annotations =
    if not (ran_no_steps job)
    then none
    else hit_as runner_refused (matches (annotation_text job annotations) runner_patterns)

failed_names : List Step → List (Option Str)
failed_names [] = []
failed_names (step ∷ steps) =
    let rest = failed_names steps in
    if has_value step.conclusion (codes "failure") then step.name ∷ rest else rest

unfoldable pub genuine_gate_failure : Job → Annotations → Option Evidence
unfolding failed_names
genuine_gate_failure job annotations =
    if is_nil job.steps then none else some (steps_ran (length job.steps) (failed_names job.steps))

-- `DETECTORS`, by name
pub data Detector : Type 0 where
  billing runner gate : Detector

unfoldable pub find_detector : Str → Option Detector
find_detector name =
    if str_eq name (codes "refused_for_billing")
    then some billing
    else if str_eq name (codes "refused_for_runner")
    then some runner
    else if str_eq name (codes "genuine_gate_failure")
    then some gate
    else none

abbrev pub detect : Detector → Job → Annotations → Option Evidence
detect billing = refused_for_billing
detect runner = refused_for_runner
detect gate = genuine_gate_failure

pub data Kind : Type 0 where
  refused genuine : Kind

abbrev pub kind_of : Detector → Kind
kind_of billing = refused
kind_of runner = refused
kind_of gate = genuine

pub record Verdict : Type 0 where
  pub job : Job
  pub control_id : Str
  pub kind : Kind
  pub evidence : Evidence

-- A control of the catalog: its fields, in order.
abbrev pub Control : Type 0
Control = List (Str × Str)

-- `control.get(key)`
unfoldable pub field : Str → Control → Option Str
field key [] = none
field key ((k, v) ∷ more) = if str_eq k key then some v else field key more

abbrev pub or_text : Str → Option Str → Str
or_text d none = d
or_text d (some v) = v

-- `Verdict(job, control["id"], kind, evidence)`; a missing id is a `KeyError`, which is `none`.
abbrev pub found : Job → Detector → Evidence → Option Str → Option Verdict
found job d evidence none = none
found job d evidence (some id) =
    some (record { job = job; control_id = id; kind = kind_of d; evidence = evidence })

-- The loop over the controls, for one job, up to the first that fires. A name that `DETECTORS`
-- lacks is a `KeyError`, which is `none`.
unfoldable pub judge : Job → Annotations → List Control → Option Verdict
judge job annotations [] =
    some
      (record { job = job; control_id = codes "RT-0003"; kind = genuine; evidence = unrecognised })
judge job annotations (control ∷ controls) =
    let rest = judge job annotations controls in
    elim (find_detector (or_text [] (field (codes "detector") control))) [
      | none ↦ none
      | some d ↦ (elim (detect d job annotations) [
        | none ↦ rest
        | some evidence ↦ found job d evidence (field (codes "id") control)
      ])
    ]

abbrev pub is_active : Control → Bool
is_active control = has_value (field (codes "status") control) (codes "active")

abbrev pub has_failed : Job → Bool
has_failed job = has_value job.conclusion (codes "failure")

abbrev pub add_verdict : Option Verdict → Option (List Verdict) → Option (List Verdict)
add_verdict none vs = none
add_verdict (some v) none = none
add_verdict (some v) (some vs) = some (v ∷ vs)

unfoldable pub judge_all : Annotations → List Control → List Job → Option (List Verdict)
judge_all annotations controls [] = some []
judge_all annotations controls (job ∷ jobs) =
    let rest = judge_all annotations controls jobs in
    if has_failed job then add_verdict (judge job annotations controls) rest else rest

unfoldable pub classify : List Job → Annotations → List Control → Option (List Verdict)
classify jobs annotations controls = judge_all annotations (filter is_active controls) jobs
