-- ===== src/Classification.antt =====
-- scripts/check-contract-classification.py: a repository publishes an OpenAPI document exactly if its
-- catalog entry declares a REST interface. The YAML files are read into the types below; a missing
-- value and an empty one are the same text.
pub mod Allowlist
pub mod Fleet
use ci_workflows.Base.{
  ℕ, suc, Bool, true, false, not, ◌&&◌, ◌||◌, Option, none, some, List, [], ◌∷◌, ◌++◌, ◌>>=◌, ◌==◌,
  if◌then◌else◌, is_nil,
}
use ci_workflows.Base.Text.{Str, codes, str_eq, elem}
use ci_workflows.Base.Sorting.{sort_by}
use ci_workflows.ModulePins.{Dict, lookup, insert}
use ci_workflows.Hub.{FilePath, FileSystem, Hub}
use ci_workflows.Hub.Find.{glob}

-- `repo / SPEC_PATH`
abbrev pub spec_path : FilePath
spec_path = codes "docs" ∷ codes "openapi.json" ∷ []

abbrev pub dispositions : List Str
dispositions = codes "declare-rest" ∷ codes "delete-spec" ∷ []

-- An entry of the allowlist.
pub record Item : Type 0 where
  pub service : Str
  pub disposition : Str
  pub reason : Str

pub data AllowFile : Type 0 where
  missing_file unreadable_file : AllowFile
  items : List Item → AllowFile

-- Why the script exits with 2.
pub data BadInput : Type 0 where
  cannot_read no_service : BadInput
  bad_disposition : Str → Str → BadInput
  no_reason : Str → BadInput
  no_catalog : BadInput
  -- the missing arguments
  ci_mode_needs : List Str → BadInput

pub data Checked (A : Type 0) : Type 0 where
  bad : BadInput → Checked A
  ok : A → Checked A

unfoldable pub add_items : List Item → Dict Item → Checked (Dict Item)
unfolding insert elem
add_items [] entries = ok entries
add_items (item ∷ more) entries =
    let rest = add_items more (insert item.service item entries) in
    if is_nil item.service
    then bad no_service
    else if not (elem item.disposition dispositions)
    then bad (bad_disposition item.service item.disposition)
    else if is_nil item.reason
    then bad (no_reason item.service)
    else rest

unfoldable pub load_allowlist : AllowFile → Checked (Dict Item)
unfolding add_items
load_allowlist missing_file = ok []
load_allowlist unreadable_file = bad cannot_read
load_allowlist (items is) = add_items is []

pub data Verdict : Type 0 where
  ok_both ok_neither orphan_spec missing_spec : Verdict

unfoldable pub judge : Bool → Bool → Verdict
judge declared_rest has_spec =
    if declared_rest && has_spec
    then ok_both
    else if not declared_rest && not has_spec
    then ok_neither
    else if not declared_rest && has_spec
    then orphan_spec
    else missing_spec

abbrev pub is_ok : Verdict → Bool
is_ok ok_both = true
is_ok ok_neither = true
is_ok orphan_spec = false
is_ok missing_spec = false

-- A line of the output.
pub data Line : Type 0 where
  passed failed : Str → Verdict → Line
  allowlisted : Str → Verdict → Item → Line

unfoldable pub report : Str → Verdict → Dict Item → Line
unfolding lookup
report service verdict allow =
    if is_ok verdict then passed service verdict else elim (lookup service allow) [
      | none ↦ failed service verdict
      | some entry ↦ allowlisted service verdict entry
    ]

-- Whether the line fails the build.
abbrev pub fails : Line → Bool
fails (passed service verdict) = false
fails (failed service verdict) = true
fails (allowlisted service verdict entry) = false

-- An entry of the catalog: the name that it gives, its deployable repository, and whether it
-- declares `interfaces.rest`.
pub record Entry : Type 0 where
  pub stem : Str
  pub given_name : Str
  pub deployable : Str
  pub declares_rest : Bool

-- What is printed, and the exit code.
pub record Output : Type 0 where
  pub lines : List Line
  pub checked : ℕ
  pub failed_count : ℕ
  pub skipped : List Str

pub data Outcome : Type 0 where
  stopped : BadInput → Outcome
  audited : Output → Outcome
  judged : Line → Outcome

abbrev pub exit_code : Outcome → ℕ
exit_code (stopped why) = 2
exit_code (audited o) = if o.failed_count == 0 then 0 else 1
exit_code (judged line) = if fails line then 1 else 0

-- The first hit of the patterns that has one.
abbrev pub head : List FilePath → Option FilePath
head [] = none
head (p ∷ ps) = some p

abbrev pub deployable_patterns : Str → List Str
deployable_patterns dep =
    (codes "services/*/" ++ dep) ∷ (codes "gateways/" ++ dep) ∷ (codes "services/" ++ dep) ∷ []

abbrev pub service_of : Entry → Str
service_of entry = if is_nil entry.given_name then entry.stem else entry.given_name

abbrev pub add_line : Line → Output → Output
add_line line o = record {
  lines = line ∷ o.lines;
  checked = suc o.checked;
  failed_count = if fails line then suc o.failed_count else o.failed_count;
  skipped = o.skipped;
}

-- The arguments; `--has-rest` is "true" or "false".
pub record Args : Type 0 where
  pub repo : Option FilePath
  pub service : Str
  pub has_rest : Option Bool
  -- the entries of the catalog directory that `--catalog` names
  pub catalog : Option (List Entry)
  pub workspace : FilePath

abbrev missing_args : Option FilePath → Str → Option Bool → List Str
missing_args repo service has_rest =
    (elim repo [ none ↦ codes "--repo" ∷ [] | some p ↦ [] ])
    ++ ((if is_nil service then codes "--service" ∷ [] else [])
        ++ elim has_rest [ none ↦ codes "--has-rest" ∷ [] | some b ↦ [] ])

module _ (F : FileSystem) (is_file : FilePath → Bool) where
  -- The outer `none` is an exception.
  unfoldable pub first_hit : Hub → List Str → Option (Option FilePath)
  unfolding glob
  first_hit H [] = some none
  first_hit H (pattern ∷ patterns) =
      let rest = first_hit H patterns in
      elim (glob F H false pattern) [
        | none ↦ none
        | some [] ↦ rest
        | some (hit ∷ hits) ↦ some (some hit)
      ]

  unfoldable pub deployable_root : FilePath → Entry → Option (Option FilePath)
  unfolding first_hit
  deployable_root workspace entry =
      let hit =
        first_hit (record { root = workspace; clients = none })
          (deployable_patterns entry.deployable) in
      if is_nil entry.deployable then some none else hit

  unfoldable pub run_single : FilePath → Str → Bool → Dict Item → Outcome
  unfolding judge report
  run_single repo service declared_rest allow =
      judged (report service (judge declared_rest (is_file (repo ++ spec_path))) allow)

  -- One turn of the loop, put before the turns behind it.
  unfoldable pub audit_entry : Dict Item → Entry → Option FilePath → Output → Output
  unfolding judge report
  audit_entry allow entry none o = record o { skipped = service_of entry ∷ o.skipped }
  audit_entry allow entry (some root) o =
      add_line
        (report (service_of entry) (judge entry.declares_rest (is_file (root ++ spec_path))) allow)
        o

  unfoldable pub audit : FilePath → Dict Item → List Entry → Option Output
  unfolding deployable_root audit_entry
  audit workspace allow [] =
      some (record { lines = []; checked = 0; failed_count = 0; skipped = [] })
  audit workspace allow (entry ∷ entries) = do
    root ← deployable_root workspace entry
    o ← audit workspace allow entries
    some (audit_entry allow entry root o)

  -- `sorted(catalog_dir.glob("*.yaml"))`
  unfoldable pub run_fleet : List Entry → FilePath → Dict Item → Option Outcome
  unfolding audit sort_by
  run_fleet entries workspace allow = if is_nil entries then some (stopped no_catalog) else do
    o ← audit workspace allow (sort_by (λ entry. entry.stem ++ codes ".yaml") entries)
    some (audited o)

  unfoldable pub run_ci : Option FilePath → Str → Option Bool → Dict Item → Outcome
  unfolding run_single
  run_ci (some repo) (c ∷ service) (some has_rest) allow =
      run_single repo (c ∷ service) has_rest allow
  run_ci repo service has_rest allow = stopped (ci_mode_needs (missing_args repo service has_rest))

  unfoldable pub main : Args → AllowFile → Option Outcome
  unfolding load_allowlist run_fleet run_ci
  main args file = elim (load_allowlist file) [
    | bad why ↦ some (stopped why)
    | ok allow ↦ elim args.catalog [
      | some entries ↦ run_fleet entries args.workspace allow
      | none ↦ some (run_ci args.repo args.service args.has_rest allow)
    ]
  ]
