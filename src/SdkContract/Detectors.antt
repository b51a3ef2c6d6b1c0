-- ===== src/SdkContract/Detectors.antt =====
-- The other detectors, `evaluate` and `main` of scripts/check-frontend-sdk-contract.py.
use ci_workflows.Base.{
  ℕ, Bool, true, false, not, ◌&&◌, Option, none, some, List, [], ◌∷◌, ◌++◌, ◌>>=◌, if◌then◌else◌,
}
use ci_workflows.Base.Text.{Str, codes, str_eq, has_sub, upper}
use ci_workflows.ModulePins.{Dict}
use ci_workflows.SdkContract.{
  Field, App, Registry, LockFile, absent, Control, Message, no_script, reads_docs_json,
  no_generated_dir, no_ts_files, unknown_detector, Found, path_part, package_generates_api,
  load_lock, check_lockfile_present, check_spec_matches_published_pin,
}

unfoldable pub check_no_runtime_docs_json_generator : App → Found
unfolding has_sub
check_no_runtime_docs_json_generator app = elim app.script [
  | none ↦ some (some no_script)
  | some text ↦
      some (if has_sub (codes "DOCS-JSON") (upper text) then some reads_docs_json else none)
]

abbrev pub judge_dir : Str → Option Bool → Option Message
judge_dir dir none = some (no_generated_dir dir)
judge_dir dir (some has_ts) = if has_ts then none else some (no_ts_files dir)

unfoldable pub check_generated_dir_present : App → Option (Dict Field) → Found
check_generated_dir_present app none = some none
check_generated_dir_present app (some []) = some none
check_generated_dir_present app (some (f ∷ lock)) =
    path_part (f ∷ lock) (codes "generated_dir")
    >>= (λ dir. some (judge_dir dir (app.has_sources dir)))

-- `DETECTORS`
pub data Detector : Type 0 where
  lockfile_present spec_matches_published_pin : Detector
  no_runtime_docs_json_generator generated_dir_present : Detector

unfoldable pub detector_of : Str → Option Detector
unfolding str_eq
detector_of name =
    if str_eq name (codes "lockfile_present")
    then some lockfile_present
    else if str_eq name (codes "spec_matches_published_pin")
    then some spec_matches_published_pin
    else if str_eq name (codes "no_runtime_docs_json_generator")
    then some no_runtime_docs_json_generator
    else if str_eq name (codes "generated_dir_present")
    then some generated_dir_present
    else none

abbrev pub run_detector :
    App → Option Registry → Option (Dict Field) × Option Message → Detector → Found
run_detector app registry (lock, lock_err) lockfile_present = check_lockfile_present lock lock_err
run_detector app registry (lock, lock_err) spec_matches_published_pin =
    check_spec_matches_published_pin app registry lock
run_detector app registry (lock, lock_err) no_runtime_docs_json_generator =
    check_no_runtime_docs_json_generator app
run_detector app registry (lock, lock_err) generated_dir_present =
    check_generated_dir_present app lock

pub record Finding : Type 0 where
  pub id : Str
  pub severity : Str
  pub title : Str
  pub message : Message

abbrev pub or_default : Str → Option Str → Str
or_default d none = d
or_default d (some s) = s

abbrev pub is_active : Control → Bool
is_active control = active control.status
  where
    active : Option Str → Bool
    active none = false
    active (some status) = str_eq status (codes "active")

abbrev pub finding : Control → Message → Finding
finding control message = record {
  id = control.id;
  severity = or_default (codes "major") control.severity;
  title = or_default [] control.title;
  message = message;
}

abbrev pub unknown_finding : Control → Finding
unknown_finding control = record {
  id = control.id;
  severity = codes "critical";
  title = [];
  message = unknown_detector control.detector;
}

abbrev pub add_finding : Control → Option Message → List Finding
add_finding control none = []
add_finding control (some message) = finding control message ∷ []

unfoldable pub judge_control :
    App → Option Registry → Option (Dict Field) × Option Message → Control → Option (List Finding)
unfolding detector_of str_eq check_lockfile_present check_spec_matches_published_pin
    check_no_runtime_docs_json_generator check_generated_dir_present
judge_control app registry locks control =
    if not (is_active control) then some [] else elim (detector_of control.detector) [
      | none ↦ some (unknown_finding control ∷ [])
      | some d ↦
          run_detector app registry locks d >>= (λ message. some (add_finding control message))
    ]

unfoldable pub judge_controls :
    App
    → Option Registry
    → Option (Dict Field) × Option Message
    → List Control
    → Option (List Finding)
unfolding judge_control
judge_controls app registry locks [] = some []
judge_controls app registry locks (control ∷ controls) =
    judge_control app registry locks control
    >>= (λ here. judge_controls app registry locks controls >>= (λ more. some (here ++ more)))

abbrev pub is_some {ℓ} : {A : Type ℓ} → Option A → Bool
is_some none = false
is_some (some a) = true

unfoldable pub evaluate : App → Option Registry → List Control → Option (List Finding)
unfolding judge_controls
evaluate app registry catalog =
    if not (package_generates_api app) && not (is_some (load_lock app.lock_file).0)
    then some []
    else judge_controls app registry (load_lock app.lock_file) catalog

pub data Outcome : Type 0 where
  no_catalog skipped all_hold : Outcome
  violated : List Finding → Outcome

abbrev pub exit_code : Outcome → ℕ
exit_code no_catalog = 1
exit_code skipped = 0
exit_code all_hold = 0
exit_code (violated findings) = 1

abbrev pub outcome_of : List Finding → Outcome
outcome_of [] = all_hold
outcome_of (f ∷ fs) = violated (f ∷ fs)

abbrev pub is_present : LockFile → Bool
is_present absent = false
is_present _ = true

-- The outer `none` is an exception; without a catalog the script ends with a message.
unfoldable pub main : App → Option Registry → Option (List Control) → Option Outcome
unfolding evaluate
main app registry none = some no_catalog
main app registry (some catalog) =
    if not (package_generates_api app) && not (is_present app.lock_file)
    then some skipped
    else evaluate app registry catalog >>= (λ findings. some (outcome_of findings))
