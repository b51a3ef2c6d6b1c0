-- ===== src/Tests/Contracts.antt =====
-- scripts/check-contract-classification.py on a small fleet.
use ci_workflows.Base.{
  Bool, true, false, none, some, List, [], ◌∷◌, ◌++◌, ◌≡◌, ◌↔◌, refl, any, All, is_nil,
}
use ci_workflows.Base.Text.{codes, str_eq, elem}
use ci_workflows.Base.Sorting.{sort_by, str_leb}
use ci_workflows.ModulePins.{Dict, lookup, insert}
use ci_workflows.Hub.{FilePath, path_eq}
use ci_workflows.Tests.Hubs.{files, org_link, hub_repo, hub_open}
use ci_workflows.Classification.{
  Item, AllowFile, items, ok, Entry, Output, audited, judged, passed, allowlisted, orphan_spec,
  ok_both, exit_code, Args, add_items, load_allowlist, judge, report, first_hit, deployable_root,
  run_single, audit_entry, audit, run_fleet, run_ci, main,
}
use ci_workflows.Classification.Fleet.{IsGood, IsComplete, main-IsGood, main-IsComplete}

unfoldable contracts_open : Bool
unfolding hub_open insert lookup elem add_items load_allowlist judge report first_hit
    deployable_root run_single audit_entry audit run_fleet run_ci main str_eq any path_eq sort_by
    str_leb
contracts_open = true

-- Both repositories publish a document.
abbrev has_spec : FilePath → Bool
has_spec path = any (path_eq path) (
    (org_link ++ codes "docs" ∷ codes "openapi.json" ∷ [])
    ∷ (hub_repo ++ codes "docs" ∷ codes "openapi.json" ∷ [])
    ∷ [])

abbrev exemption : Item
exemption = record {
  service = codes "org";
  disposition = codes "delete-spec";
  reason = codes "only health";
}

abbrev allow_file : AllowFile
allow_file = items (exemption ∷ [])

abbrev allow : Dict Item
allow = (codes "org", exemption) ∷ []

abbrev entries : List Entry
entries =
    record { stem = codes "org"; given_name = []; deployable = codes "org"; declares_rest = false }
    ∷ record { stem = codes "hub"; given_name = []; deployable = codes "hub"; declares_rest = true }
    ∷ record {
      stem = codes "mail";
      given_name = [];
      deployable = codes "mail";
      declares_rest = true;
    }
    ∷ []

abbrev fleet_args : Args
fleet_args = record {
  repo = none;
  service = [];
  has_rest = none;
  catalog = some entries;
  workspace = codes "w" ∷ [];
}

abbrev ci_args : Args
ci_args = record {
  repo = some hub_repo;
  service = codes "hub";
  has_rest = some true;
  catalog = none;
  workspace = [];
}

abbrev fleet_output : Output
fleet_output = record {
  lines = passed (codes "hub") ok_both ∷ allowlisted (codes "org") orphan_spec exemption ∷ [];
  checked = 2;
  failed_count = 0;
  skipped = codes "mail" ∷ [];
}

loaded : load_allowlist allow_file ≡ ok allow
unfolding contracts_open
loaded = refl

fleet_run : main files has_spec fleet_args allow_file ≡ some (audited fleet_output)
unfolding contracts_open
fleet_run = refl

main-IsGood_example :
    (exit_code (audited fleet_output) ≡ 0)
    ↔ ((is_nil entries ≡ false) × All (IsGood files has_spec (codes "w" ∷ []) allow) entries)
main-IsGood_example =
    main-IsGood files has_spec fleet_args allow_file allow entries (audited fleet_output) loaded
      refl fleet_run

ci_run : main files has_spec ci_args allow_file ≡ some (judged (passed (codes "hub") ok_both))
unfolding contracts_open
ci_run = refl

main-IsComplete_example : (exit_code (judged (passed (codes "hub") ok_both)) ≡ 0) ↔ (
    (a : Dict Item) × ((load_allowlist allow_file ≡ ok a)
      × IsComplete files has_spec a (some hub_repo) (codes "hub") (some true)))
main-IsComplete_example =
    main-IsComplete files has_spec ci_args allow_file (judged (passed (codes "hub") ok_both)) refl
      ci_run
