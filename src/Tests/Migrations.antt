-- ===== src/Tests/Migrations.antt =====
-- scripts/check-migration-immutability.py on a repository with two released migrations.
use ci_workflows.Base.{
  Bool, true, false, some, List, [], ◌∷◌, ◌≡◌, ◌↔◌, ◌⊎◌, refl, filter, any, if◌then◌else◌,
}
use ci_workflows.Base.Text.{
  Str, codes, str_eq, elem, strip, starts_with, ends_with, splitlines, split_on,
}
use ci_workflows.Base.Sorting.{sort_by, str_leb}
use ci_workflows.PosixPath.{path_name}
use ci_workflows.Git.{Reply}
use ci_workflows.Migrations.{
  Checkout, modified, deleted, changed, unmodified, no_directory, exit_code, before_hash,
  exception_of, exception_names, exceptions, git, git_ok, change_of, report_change, find_violations,
  violations, main,
}
use ci_workflows.Migrations.Immutable.{IsImmutable, main-IsImmutable}

-- The object of each file: the first migration is rewritten at the head, the last one is deleted.
abbrev replies : List (Str × Str)
replies =
    (codes "origin/main", codes "m\n")
    ∷ (codes "m:schema/migrations/1.up.sql", codes "1a\n")
    ∷ (codes "m:schema/migrations/2.up.sql", codes "2a\n")
    ∷ (codes "m:schema/migrations/3.up.sql", codes "3a\n")
    ∷ (codes "HEAD:schema/migrations/1.up.sql", codes "1b\n")
    ∷ (codes "HEAD:schema/migrations/2.up.sql", codes "2a\n")
    ∷ []

abbrev reply : List (Str × Str) → Str → Reply
reply [] object = record { code = 128; out = [] }
reply ((k, v) ∷ rest) object =
    let other = reply rest object in if str_eq k object then record { code = 0; out = v } else other

abbrev listing : Str
listing =
    codes
      "schema/migrations/2.up.sql\nschema/migrations/1.up.sql\nschema/migrations/1.down.sql\nschema/migrations/3.up.sql\n"

abbrev last_word : List Str → Str
last_word [] = []
last_word (w ∷ []) = w
last_word (w ∷ v ∷ ws) = last_word (v ∷ ws)

abbrev run : List Str → Reply
run [] = record { code = 1; out = [] }
run (w ∷ ws) =
    if str_eq w (codes "merge-base")
    then record { code = 0; out = codes "m\n" }
    else if str_eq w (codes "ls-tree")
    then record { code = 0; out = listing }
    else reply replies (last_word ws)

abbrev checkout : Str → Checkout
checkout exceptions = record { has_directory = true; exceptions_text = some exceptions; run = run }

unfoldable run_open : Bool
unfolding main violations find_violations report_change change_of git git_ok exceptions
    exception_names exception_of before_hash path_name sort_by str_leb filter any elem strip
    ends_with starts_with splitlines split_on str_eq
run_open = true

rewritten :
    main (checkout (codes "# none\n")) (codes "origin/main") false
    ≡ some (
        changed (
          record { file = codes "schema/migrations/1.up.sql"; change = modified }
          ∷ record { file = codes "schema/migrations/3.up.sql"; change = deleted }
          ∷ []))
unfolding run_open
rewritten = refl

abbrev excepted : Checkout
excepted = checkout (codes "1.up.sql # restored\n\n3.up.sql\n")

passes : main excepted (codes "origin/main") false ≡ some (unmodified 2)
unfolding run_open
passes = refl

main-IsImmutable_example :
    (exit_code (unmodified 2) ≡ 0)
    ↔ ((excepted.has_directory ≡ false) ⊎ IsImmutable excepted (codes "origin/main"))
main-IsImmutable_example =
    main-IsImmutable excepted (codes "origin/main") false (unmodified 2) passes

-- A head that deletes the whole directory is not judged.
directory_deleted :
    main (record excepted { has_directory = false }) (codes "origin/main") false ≡ some no_directory
unfolding run_open
directory_deleted = refl
