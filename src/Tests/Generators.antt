-- ===== src/Tests/Generators.antt =====
-- scripts/sqlc_output_dirs.py and scripts/check-openapi-generator.py at small inputs.
use ci_workflows.Base.{Bool, true, false, none, some, List, [], ◌∷◌, ◌≡◌, ◌↔◌, refl, any, All}
use ci_workflows.Base.Text.{codes, str_eq, elem, is_space, starts_with, has_sub, lstrip_by}
use ci_workflows.Base.Scan.{
  drop_prefix, behind, behind_feeds, skip_spaces, somewhere, cut, within_line,
}
use ci_workflows.SqlcDirs.{Package, not_mapping, entry, add_dir, collect, output_dirs}
use ci_workflows.SqlcDirs
use ci_workflows.OpenapiGenerator.{
  Repo, swallowed, miswired, wired, behind_spaces, climbs, sources_outside, to_null, or_true,
  swallows, assigns, is_target, defects, check_repo, run, main_code,
}
use ci_workflows.OpenapiGenerator.Wired.{IsWiredRepo, main_code-IsWiredRepo}

abbrev packages : List Package
packages =
    entry (some (codes "internal/db")) none
    ∷ not_mapping
    ∷ entry (some []) (some (codes "db"))
    ∷ entry none (some (codes "internal/db"))
    ∷ []

two_dirs : SqlcDirs.main none (some packages) ≡ codes "internal/db" ∷ codes "db" ∷ []
unfolding add_dir collect output_dirs elem any str_eq
two_dirs = refl

unfoldable generator_open : Bool
unfolding behind_spaces climbs sources_outside within_line to_null or_true swallows assigns
    is_target defects check_repo run drop_prefix behind behind_feeds skip_spaces somewhere cut
    starts_with has_sub lstrip_by is_space
generator_open = true

abbrev sourcing : Repo
sourcing = record {
  caller = some (codes "source $DIR/tooling/openapi/lib/swagger.sh\nopenapi-normalize x\n");
  has_vendored = false;
  makefile = none;
}

abbrev quiet : Repo
quiet = record sourcing {
  caller = some (codes ". $DIR/tooling/openapi/lib/swagger.sh\nopenapi-normalize x ||  true\n");
}

sourcing_test : check_repo sourcing ≡ wired
unfolding generator_open
sourcing_test = refl

quiet_test : check_repo quiet ≡ miswired (swallowed ∷ [])
unfolding generator_open
quiet_test = refl

main_code-IsWiredRepo_example :
    (main_code (some sourcing ∷ []) ≡ 0) ↔ All IsWiredRepo (some sourcing ∷ [])
main_code-IsWiredRepo_example = main_code-IsWiredRepo (some sourcing ∷ [])

-- A comment that mentions the library counts as sourcing it.
commented_test :
    check_repo (record sourcing { caller = some (codes "# not tooling/openapi/lib/swagger.sh\n") })
    ≡ wired
unfolding generator_open
commented_test = refl
