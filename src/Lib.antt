-- ===== src/Lib.antt =====
-- The CI scripts of the repository that decide whether a gate runs, whether a failure is one, whether
-- a number or a version may pass, and whether what a service ships keeps the platform's contracts.
--
-- Parts. The fast-path gates scripts/docs-only-diff.py and scripts/pin-only-diff.py ask which
-- commits an event describes and which paths they touch, both by scripts/diffrange.py, and say
-- whether the change is documentation, or dependency pins, and nothing else.
-- scripts/lib/http_retry.py is the one HTTP request that the actions make.
-- scripts/classify-run-failure.py tells a job that was never started from a gate's verdict.
-- scripts/check_coverage_ratchet.py keeps a coverage floor, and scripts/check_module_pins.py judges
-- the pins of the platform's own Go modules. scripts/resolve_service_identity.py says which service a
-- repository is, by the platform's catalog, and whom its release must bump, and
-- scripts/check_operation_ids.py keeps the lock of a service's operation ids.
-- scripts/hub_layout.py finds a path of the platform's hub in any of its layouts, and the fleet audit
-- of scripts/check-contract-classification.py reads the services through it.
-- scripts/check-migration-immutability.py keeps released migrations as they are,
-- scripts/check_no_raw_sql.py finds SQL outside the generated code, scripts/check-seed-contract.py
-- judges the seed data, and scripts/check-detector-parity.py runs two detectors on the same trees.
-- scripts/base-image-build-contexts.py redirects the base images of a Dockerfile, and
-- scripts/check-base-image-registry.py asks that each names a registry.
-- scripts/check-frontend-sdk-contract.py compares the API document that a frontend pins with the
-- published one, scripts/check-openapi-generator.py judges how that document is generated, and
-- scripts/sqlc_output_dirs.py says where generated code stands.
--
-- Files. Every script has a module, with child modules for the proofs:
--   Git, Event              `git`, `load_event` and the payload of scripts/diffrange.py
--   DiffRange               `ensure_commit`, `is_ancestor`, `resolve_range`, `changed_paths` there
--   Gate                    the arguments, `emit` and `cannot_run` of the two gates
--   EmbedPatterns           `embed_patterns` and `excluded_roots`
--   Shlex, PosixPath, Glob  `shlex.split`, `posixpath.normpath` and `fnmatch`, as they are called
--   DocsOnly                `is_embedded`, `is_documentation`, `classify`, `main` of docs-only-diff
--   PinOnly                 `is_pin_file`, `significant_lines`, `is_pin_line`, `go_mod_is_pins_only`,
--                           `classify`, `main` of pin-only-diff
--   Exclusive               the two gates side by side
--   Retry                   `is_retryable` and `request` of http_retry
--   Regex, RunTriage        `re.search`, and the catalog, the detectors, `classify` and the exit code
--                           of classify-run-failure
--   Ratchet                 `load_floor`, `write_floor` and `evaluate` of check_coverage_ratchet, and the
--                           machine that runs in a row refine
--   Version, ModulePins     `semver`, `load_floors`, `detect_role`, `parse_go_mod`, `check` and the
--                           exit code of check_module_pins
--   Identity                `load_bindings`, `resolve_release_targets`, `resolve` and `main` of
--                           resolve_service_identity
--   OperationIds            `spec_operation_ids`, `do_check` and `do_write` of check_operation_ids
--   Migrations              `violations` and `main` of check-migration-immutability
--   Hub                     `resolve`, `logical`, `Hub.glob` and `Hub.for_client_of` of hub_layout
--   Classification          `judge`, `report`, `run_single`, `run_fleet` and `main` of
--                           check-contract-classification
--   RawSql                  `is_sql`, the walk and `main` of check_no_raw_sql
--   Seed                    the reference rules, the placeholder rules and `main` of
--                           check-seed-contract
--   Parity                  `ci_report`, `cli_report`, `run_family`, `baseline_artifact_parity` and
--                           `main` of check-detector-parity
--   BuildContexts           `instructions`, `expand`, `docker_hub_twin`, `build_contexts` and `main`
--                           of base-image-build-contexts
--   BaseImages              `stage_names`, `check` and `main` of check-base-image-registry
--   SdkContract             the detectors, `evaluate` and `main` of check-frontend-sdk-contract
--   OpenapiGenerator        the tests, `check_repo` and `main` of check-openapi-generator
--   SqlcDirs                `output_dirs` and `main` of sqlc_output_dirs
--   Base                    lists, Booleans, texts, scanning and sorting that the parts share
--   Tests                   a small git, runs at concrete inputs, and the theorems at such inputs
-- A function keeps its name. A local function or a loop of the source is a function of its own, and a
-- Boolean test on a native number is `ltb`, `leb` or `==`.
--
-- State. A git clone, the world of an HTTP request and a floor file are passed from step to step. What
-- `git`, the opener and the clock do is a parameter, with laws as named hypotheses: `IsLawful` (a
-- query leaves the clone as it is, a fetch removes no commit), `IsCount` and `IsLedger`. Floats are
-- the parameter `Float`, with `IsRounding` for `round(x, 1)`. The directory trees of the hub, of a
-- fleet and of a repository are read at one moment, as parameters or as data types; what the two
-- detectors print is a parameter. The loop over the instructions of a Dockerfile passes its pairs,
-- warnings, arguments and stages from step to step.
--
-- Fuel. Every loop is structural recursion, and one that jumps ahead in a text or in lines skips as
-- many of them as it has read. The loop of `request` counts its attempts down from
-- `attempts`, and that it never ends without a decision is a theorem; `classify` gives no result
-- where the script raises a `KeyError`, and that a loaded catalog excludes it is a theorem. `expand`
-- has the length of the word as fuel, and that this is enough is a theorem.
--
-- Types. A text is a list of code points. A message is a constructor with values that it
-- shows. The fields of a payload, an API object and a catalog have their documented types, so that
-- `str` of them is the text itself. Durations are numbers of milliseconds. Digits and upper case
-- letters are the ASCII ones. JSON, YAML and the file system are read into the data types.
-- Not modelled: argparse, `fetch_bundle`, which only calls `gh`, the date in a floor file, the layout
-- of printed reports, and the other scripts of the repository.
pub mod Base
pub mod Git
pub mod Event
pub mod DiffRange
pub mod Glob
pub mod Gate
pub mod Shlex
pub mod PosixPath
pub mod EmbedPatterns
pub mod DocsOnly
pub mod PinOnly
pub mod Exclusive
pub mod Retry
pub mod Regex
pub mod RunTriage
pub mod Ratchet
pub mod Version
pub mod ModulePins
pub mod Identity
pub mod OperationIds
pub mod Migrations
pub mod Hub
pub mod Classification
pub mod RawSql
pub mod Seed
pub mod Parity
pub mod BuildContexts
pub mod BaseImages
pub mod SdkContract
pub mod SqlcDirs
pub mod OpenapiGenerator
pub mod Tests
