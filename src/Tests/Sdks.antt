-- ===== src/Tests/Sdks.antt =====
-- scripts/check-frontend-sdk-contract.py on a small app, and scripts/check-base-image-registry.py on a
-- small tree.
use ci_workflows.Base.{
  Bool, true, none, some, List, [], ◌∷◌, ◌≡◌, ◌↔◌, refl, any, filter, All, if◌then◌else◌,
}
use ci_workflows.Base.Text.{
  Str, codes, str_eq, elem, is_space, lstrip_by, starts_with, words, pieces, drop_empty, splitlines,
  lower, lower_char, has_sub,
}
use ci_workflows.Base.Sorting.{sort_by, str_leb}
use ci_workflows.Base.Scan.{cut}
use ci_workflows.Hub.{FilePath, parts_key}
use ci_workflows.ModulePins.{Dict, lookup}
use ci_workflows.SdkContract.{
  Field, text, App, Registry, scripts, no_package, invalid_json, lock_object, Control, is_given,
  missing, check_fields, check_lockfile_present, check_spec, check_published,
  check_spec_matches_published_pin,
}
use ci_workflows.SdkContract.Detectors.{
  check_no_runtime_docs_json_generator, check_generated_dir_present, detector_of, judge_control,
  judge_controls, evaluate, all_hold, main,
}
use ci_workflows.SdkContract.Pinned.{IsPublished, main-IsPublished}
use ci_workflows.BaseImages.{Tree}
use ci_workflows.BaseImages
use ci_workflows.BaseImages.Hosted.{IsGoodFile, main-IsGoodFile}

unfoldable sdk_open : Bool
unfolding lookup is_given missing check_fields check_lockfile_present check_spec check_published
    check_spec_matches_published_pin check_no_runtime_docs_json_generator
    check_generated_dir_present detector_of judge_control judge_controls evaluate main any str_eq
    has_sub starts_with
sdk_open = true

abbrev lock_rest : Dict Field
lock_rest =
    (codes "version", text (codes "1.2.0"))
    ∷ (codes "spec_file", text (codes "api.json"))
    ∷ (codes "spec_digest", text (codes "sha256:1a"))
    ∷ (codes "generated_dir", text (codes "sdk"))
    ∷ []

abbrev app : App
app = record {
  manifest = scripts true;
  lock_file = lock_object ((codes "service", text (codes "auth")) ∷ lock_rest);
  digest = λ name. if str_eq name (codes "api.json") then some (codes "sha256:1a") else none;
  script = some (codes "read lock");
  has_sources = λ dir. some true;
}

abbrev contracts : Registry
contracts service version = if str_eq service (codes "auth") then some (codes "sha256:1a") else none

abbrev control : Str → Control
control name = record {
  id = codes "FE-SDK";
  status = some (codes "active");
  detector = name;
  severity = none;
  title = none;
}

abbrev catalog : List Control
catalog =
    control (codes "lockfile_present")
    ∷ control (codes "spec_matches_published_pin")
    ∷ control (codes "no_runtime_docs_json_generator")
    ∷ control (codes "generated_dir_present")
    ∷ []

passes : main app (some contracts) (some catalog) ≡ some all_hold
unfolding sdk_open
passes = refl

main-IsPublished_example :
    (r : Registry) × ((some contracts ≡ some r)
      × IsPublished app r ((codes "service", text (codes "auth")) ∷ lock_rest))
main-IsPublished_example =
    main-IsPublished app (some contracts) catalog (codes "service", text (codes "auth")) lock_rest
      all_hold refl (unfold sdk_open in refl) passes refl

-- A lock without `spec_file` ends the run with a `KeyError`.
no_spec_file_test :
    main
      (record app { lock_file = lock_object ((codes "service", text (codes "auth")) ∷ []) })
      (some contracts)
      (some catalog)
    ≡ none
unfolding sdk_open
no_spec_file_test = refl

-- A lock that is no JSON passes where no script generates the SDK.
broken_lock_test :
    main
      (record app { manifest = no_package; lock_file = invalid_json })
      (some contracts)
      (some catalog)
    ≡ some all_hold
unfolding sdk_open
broken_lock_test = refl

unfoldable image_open : Bool
unfolding BaseImages.drop_ignoring_case BaseImages.from_words BaseImages.image_token
    BaseImages.named_stages BaseImages.stage_names BaseImages.is_hosted BaseImages.suggestion
    BaseImages.is_passed BaseImages.check_lines BaseImages.check BaseImages.skipped
    BaseImages.is_dockerfile BaseImages.targets BaseImages.check_all BaseImages.main sort_by
    parts_key str_leb cut any str_eq elem starts_with filter lower lower_char words pieces
    drop_empty is_space lstrip_by splitlines
image_open = true

abbrev tree : Tree
tree = record {
  root = [];
  is_dir = true;
  entries = (codes "Dockerfile" ∷ []) ∷ (codes ".ci" ∷ codes "Dockerfile" ∷ []) ∷ [];
  read_text =
      λ path. some (codes "FROM public.ecr.aws/docker/library/go:1 AS b\nFROM --platform=x B\n");
}

hosted : BaseImages.main tree [] ≡ BaseImages.all_hosted 1
unfolding image_open
hosted = refl

main-IsGoodFile_example : (BaseImages.exit_code (BaseImages.main tree []) ≡ 0) ↔ (
    (found : List FilePath) × ((BaseImages.targets tree [] ≡ some found)
      × All (IsGoodFile tree) found))
main-IsGoodFile_example = main-IsGoodFile tree []

-- A stage that is named like its own image counts as one that is built before.
own_name :
    BaseImages.main (record tree { read_text = λ path. some (codes "FROM nginx AS nginx\n") }) []
    ≡ BaseImages.all_hosted 1
unfolding image_open
own_name = refl
