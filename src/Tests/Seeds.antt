-- ===== src/Tests/Seeds.antt =====
-- scripts/check-seed-contract.py on a small repository.
use ci_workflows.Base.{Bool, true, none, some, List, [], ◌∷◌, ◌≡◌, refl, any, all, filter, All}
use ci_workflows.Base.Text.{
  Str, codes, str_eq, elem, is_space, strip, lstrip_by, rstrip_by, starts_with, ends_with, has_sub,
  split_on, lower, lower_char,
}
use ci_workflows.Base.Sorting.{sort_by, str_leb}
use ci_workflows.Base.Scan.{drop_prefix, behind, skip_spaces, somewhere}
use ci_workflows.Regex.{search}
use ci_workflows.Seed.{
  string, whole, Row, object, rows, is_secret, hex_run, dash, is_uuid, is_literal,
  qualified_field_violation, DataDir, files_of, matching, env_files, qualified_env_files,
  secret_bearing,
}
use ci_workflows.Seed.Guard.{
  leaf, sub, Repo, is_searched, find_below, find_seed_data_dir, delegates, cmd_seed_delegates,
  has_marker, check_marker_only, check_dockerfile, check_fields, check_rows, check_file,
  check_files, check_placeholders, assigns_empty, check_no_seed_command_override, bad_field,
  missing_subdirs, failed, main, exit_code,
}
use ci_workflows.Seed.Reference.{
  key_in, first_key, natural_key, seen_at, row_notices, file_notices, ordered, ssot_seed_files,
  files_notices, check_reference_data_integrity,
}
use ci_workflows.Seed.Rows.{IsObject, IsDistinct, keys, file_notices-IsDistinct}

unfoldable seed_open : Bool
unfolding is_secret search hex_run dash is_uuid is_literal qualified_field_violation files_of
    matching env_files qualified_env_files is_searched find_below find_seed_data_dir delegates
    cmd_seed_delegates has_marker check_marker_only check_dockerfile check_fields check_rows
    check_file check_files check_placeholders assigns_empty check_no_seed_command_override key_in
    first_key natural_key seen_at row_notices file_notices ordered ssot_seed_files files_notices
    check_reference_data_integrity missing_subdirs main drop_prefix behind skip_spaces somewhere
    sort_by str_leb str_eq elem strip lstrip_by rstrip_by is_space starts_with ends_with has_sub
    split_on lower lower_char any all filter
seed_open = true

abbrev seed_data : Str → DataDir
seed_data key = record {
  subs =
      (
        codes "prod",
        (codes "a.json", rows (object ((key, string (codes "ORG_ID")) ∷ []) ∷ [])) ∷ [],
      )
      ∷ [];
  files =
      (codes "roles.common.json", rows (object ((codes "Code", string (codes "admin")) ∷ []) ∷ []))
      ∷ [];
}

abbrev repo : Str → Repo
repo key = record {
  root_name = codes "org";
  parent_name = codes "services";
  tree = leaf;
  internal = some (sub (codes "seed") (sub (codes "data") leaf leaf) leaf);
  data_at = λ path. seed_data key;
  cmd_seed = some [];
  dockerfile = some (codes "# seed binary path: /app/seed\nCOPY internal/seed/data /data\n");
  workflow = none;
}

leaks :
    main (repo (codes "apiToken"))
    ≡ failed (bad_field (codes "prod/a.json") 0 (secret_bearing (codes "apiToken")) ∷ [])
unfolding seed_open
leaks = refl

passes : exit_code (main (repo (codes "orgIdEnv"))) ≡ 0
unfolding seed_open
passes = refl

abbrev two_rows : List Row
two_rows =
    object ((codes "Code", string (codes "admin")) ∷ [])
    ∷ object ((codes "id", whole (codes "2")) ∷ [])
    ∷ []

no_notices : file_notices (codes "a.common.json") (rows two_rows) ≡ []
unfolding seed_open
no_notices = refl

file_notices-IsDistinct_example : All IsObject two_rows × IsDistinct (keys two_rows)
file_notices-IsDistinct_example =
    file_notices-IsDistinct (codes "a.common.json") two_rows no_notices

-- A comment that mentions the data counts as a line that copies it.
commented :
    check_dockerfile (record (repo (codes "orgIdEnv")) {
      dockerfile = some (codes "# seed binary path: /app/seed\n# no internal/seed/data\n");
    })
    ≡ []
unfolding seed_open
commented = refl
