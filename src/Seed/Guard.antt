-- ===== src/Seed/Guard.antt =====
-- The checks of a repository and `main` of scripts/check-seed-contract.py.
use ci_workflows.Base.{
  ℕ, suc, Bool, true, false, not, ◌&&◌, ◌||◌, Option, none, some, List, [], ◌∷◌, ◌++◌,
  if◌then◌else◌, is_nil, any, filter, init,
}
use ci_workflows.Base.Text.{
  Str, codes, str_eq, elem, is_space, starts_with, ends_with, has_sub, split_on,
}
use ci_workflows.Base.Scan.{behind, skip_spaces, somewhere}
use ci_workflows.Seed.{
  Value, Row, no_object, object, Json, invalid, no_list, rows, Fault, qualified_field_violation,
  DataDir, files_of, qualified_env_files, canonical_subdirs,
}
use ci_workflows.Seed.Reference.{Notice, check_reference_data_integrity}

-- The directories that `os.walk` finds, entry by entry.
pub data Tree : Type 0 where
  leaf : Tree
  sub : Str → Tree → Tree → Tree

-- What the script reads of a repository.
pub record Repo : Type 0 where
  -- the names of the root and of the directory that it stands in
  pub root_name : Str
  pub parent_name : Str
  pub tree : Tree
  -- below `internal`, where that is a directory
  pub internal : Option Tree
  pub data_at : List Str → DataDir
  -- the texts of `cmd/seed/*.go`, where `cmd/seed` is a directory
  pub cmd_seed : Option (List Str)
  pub dockerfile : Option Str
  pub workflow : Option Str

unfoldable pub is_searched : Str → Bool
unfolding elem starts_with
is_searched name =
    not (elem name (codes "vendor" ∷ codes "node_modules" ∷ []) || starts_with (codes ".") name)

abbrev pub is_seed_data : Str → Str → Bool
is_seed_data parent name = str_eq name (codes "data") && str_eq parent (codes "seed")

abbrev pub or_path : Option (List Str) → Option (List Str) → Option (List Str)
or_path none q = q
or_path (some p) q = some p

abbrev pub below : Str → Option (List Str) → Option (List Str)
below name none = none
below name (some p) = some (name ∷ p)

-- The walk below a directory, from the top down.
unfoldable pub find_below : Str → Tree → Option (List Str)
unfolding is_searched str_eq
find_below parent leaf = none
find_below parent (sub name inner others) =
    let deeper = find_below name inner in
    let rest = find_below parent others in
    if not (is_searched name)
    then rest
    else if is_seed_data parent name
    then some (name ∷ [])
    else or_path (below name deeper) rest

abbrev pub find_from : Str → Str → Tree → Option (List Str)
find_from parent name tree = if is_seed_data parent name then some [] else find_below name tree

-- The path is relative to the repository.
unfoldable pub find_seed_data_dir : Repo → Option (List Str)
unfolding find_below str_eq
find_seed_data_dir r = elim r.internal [
  | none ↦ find_from r.parent_name r.root_name r.tree
  | some tree ↦ below (codes "internal") (find_from r.root_name (codes "internal") tree)
]

abbrev pub is_there {ℓ} : {A : Type ℓ} → Option A → Bool
is_there none = false
is_there (some a) = true

abbrev pub is_stateful : Repo → Option (List Str) → Bool
is_stateful r data_dir = is_there r.cmd_seed || is_there data_dir

-- The segments of a text between two quotes.
abbrev pub quoted : List Str → List Str
quoted [] = []
quoted (s ∷ segments) = init segments

-- `"[^"]*-core-postgres/seed"`
unfoldable pub delegates : Str → Bool
unfolding any split_on ends_with
delegates text = any (ends_with (codes "-core-postgres/seed")) (quoted (split_on 34 text))

unfoldable pub cmd_seed_delegates : Repo → Bool
unfolding delegates any
cmd_seed_delegates r = elim r.cmd_seed [ none ↦ false | some texts ↦ any delegates texts ]

abbrev pub begins_visible : Str → Bool
begins_visible [] = false
begins_visible (c ∷ s) = not (is_space c)

-- `SEED_MARKER.search`
unfoldable pub has_marker : Str → Bool
unfolding somewhere behind skip_spaces is_space
has_marker = somewhere (
    behind (codes "#") (λ s.
      behind (codes "seed binary path:")
        (λ t. behind (codes "/app/") begins_visible (skip_spaces t)) (skip_spaces s)))

pub data Error : Type 0 where
  no_dockerfile no_marker no_data_copied seed_command_override : Error
  invalid_json no_array : Str → Error
  no_entry : Str → ℕ → Error
  bad_field : Str → ℕ → Fault → Error

unfoldable pub check_marker_only : Repo → List Error
unfolding has_marker
check_marker_only r = elim r.dockerfile [
  | none ↦ no_dockerfile ∷ []
  | some text ↦ if has_marker text then [] else no_marker ∷ []
]

abbrev pub names_data : Str → Bool
names_data text = has_sub (codes "seed/data") text || has_sub (codes "seed\\data") text

unfoldable pub check_dockerfile : Repo → List Error
unfolding has_marker has_sub
check_dockerfile r = elim r.dockerfile [
  | none ↦ no_dockerfile ∷ []
  | some text ↦
      (if has_marker text then [] else no_marker ∷ [])
      ++ (if names_data text then [] else no_data_copied ∷ [])
]

abbrev pub field_errors : Str → ℕ → Option Fault → List Error
field_errors rel i none = []
field_errors rel i (some fault) = bad_field rel i fault ∷ []

unfoldable pub check_fields : Str → ℕ → List (Str × Value) → List Error
unfolding qualified_field_violation
check_fields rel i [] = []
check_fields rel i ((key, value) ∷ fields) =
    field_errors rel i (qualified_field_violation key value) ++ check_fields rel i fields

unfoldable pub check_rows : Str → ℕ → List Row → List Error
unfolding check_fields
check_rows rel i [] = []
check_rows rel i (no_object ∷ rs) = no_entry rel i ∷ check_rows rel (suc i) rs
check_rows rel i (object fields ∷ rs) = check_fields rel i fields ++ check_rows rel (suc i) rs

unfoldable pub check_file : Str → Json → List Error
unfolding check_rows
check_file rel invalid = invalid_json rel ∷ []
check_file rel no_list = no_array rel ∷ []
check_file rel (rows rs) = check_rows rel 0 rs

unfoldable pub check_files : List (Str × Json) → List Error
unfolding check_file
check_files [] = []
check_files ((rel, json) ∷ files) = check_file rel json ++ check_files files

unfoldable pub check_placeholders : DataDir → List Error
unfolding check_files qualified_env_files
check_placeholders d = check_files (qualified_env_files d)

-- `(""|'')`
abbrev pub opens_empty : Str → Bool
opens_empty s = starts_with (34 ∷ 34 ∷ []) s || starts_with (39 ∷ 39 ∷ []) s

unfoldable pub assigns_empty : Str → Bool
unfolding somewhere behind skip_spaces starts_with
assigns_empty = somewhere (
    behind (codes "SEED_COMMAND")
      (λ s. behind (codes "=") (λ t. opens_empty (skip_spaces t)) (skip_spaces s)))

unfoldable pub check_no_seed_command_override : Repo → List Error
unfolding assigns_empty has_sub
check_no_seed_command_override r = elim r.workflow [
  | none ↦ []
  | some text ↦
      if not (assigns_empty text)
      then []
      else if has_sub (codes "SEED_BINARY") text
      then []
      else seed_command_override ∷ []
]

-- The canonical subdirectories that are missing.
unfoldable pub missing_subdirs : DataDir → List Str
unfolding filter files_of
missing_subdirs d = filter (λ name. not (is_there (files_of name d.subs))) canonical_subdirs

pub data Outcome : Type 0 where
  stateless : Outcome
  -- whether the seeder is delegated
  marker_failed : Bool → List Error → Outcome
  marker_only : Bool → Outcome
  failed : List Error → Outcome
  -- the notices, the path, and the missing subdirectories
  passed : List Notice → List Str → List Str → Outcome

abbrev pub judge_marker : Bool → List Error → Outcome
judge_marker kind errors = if is_nil errors then marker_only kind else marker_failed kind errors

abbrev pub file_errors : Repo → DataDir → List Error
file_errors r d = check_dockerfile r ++ (check_placeholders d ++ check_no_seed_command_override r)

abbrev pub judge_files : DataDir → List Str → List Error → Outcome
judge_files d path errors =
    if is_nil errors
    then passed (check_reference_data_integrity d) path (missing_subdirs d)
    else failed errors

unfoldable pub main : Repo → Outcome
unfolding find_seed_data_dir cmd_seed_delegates check_marker_only check_dockerfile
    check_placeholders check_no_seed_command_override check_reference_data_integrity missing_subdirs
main r =
    let data_dir = find_seed_data_dir r in
    if not (is_stateful r data_dir) then stateless else elim data_dir [
      | none ↦ judge_marker (cmd_seed_delegates r) (check_marker_only r)
      | some path ↦ judge_files (r.data_at path) path (file_errors r (r.data_at path))
    ]

abbrev pub exit_code : Outcome → ℕ
exit_code stateless = 0
exit_code (marker_failed kind errors) = 1
exit_code (marker_only kind) = 0
exit_code (failed errors) = 1
exit_code (passed notices path missing) = 0
