-- ===== src/Migrations.antt =====
-- scripts/check-migration-immutability.py: released migrations that the head of a pull request
-- changed. The checkout is a parameter: the directory, the exceptions file, and what git replies.
pub mod Immutable
use ci_workflows.Base.{
  ℕ, suc, Bool, true, false, not, Option, none, some, List, [], ◌∷◌, ◌++◌, ◌==◌, if◌then◌else◌,
  length, is_nil, filter, ◌>>=◌,
}
use ci_workflows.Base.Text.{Str, codes, str_eq, elem, strip, ends_with, splitlines}
use ci_workflows.Base.Sorting.{sort_by, sorted}
use ci_workflows.PosixPath.{path_name}
use ci_workflows.Git.{Reply}

abbrev pub migrations_dir : Str
migrations_dir = codes "schema/migrations"

-- What the script reads, at the head of the pull request.
pub record Checkout : Type 0 where
  -- `Path(MIGRATIONS_DIR).is_dir()`
  pub has_directory : Bool
  -- the text of `EXCEPTIONS_FILE`, where it is a file
  pub exceptions_text : Option Str
  pub run : List Str → Reply

abbrev pub merge_base_args : Str → List Str
merge_base_args base = codes "merge-base" ∷ base ∷ codes "HEAD" ∷ []

abbrev pub ls_tree_args : Str → List Str
ls_tree_args commit =
    codes "ls-tree" ∷ codes "-r" ∷ codes "--name-only" ∷ commit ∷ codes "--" ∷ migrations_dir ∷ []

-- `COMMIT:NAME`
abbrev pub blob : Str → Str → Str
blob commit name = commit ++ b':' ∷ name

abbrev pub rev_parse_args : Str → List Str
rev_parse_args object = codes "rev-parse" ∷ object ∷ []

abbrev pub verify_args : Str → List Str
verify_args ref = codes "rev-parse" ∷ codes "--verify" ∷ ref ∷ []

abbrev pub cat_file_args : Str → List Str
cat_file_args object = codes "cat-file" ∷ codes "-e" ∷ object ∷ []

-- With `check=True` a command that fails raises: `none`.
unfoldable pub git : Checkout → List Str → Option Str
git C args = let r = C.run args in if r.code == 0 then some (strip r.out) else none

unfoldable pub git_ok : Checkout → List Str → Bool
git_ok C args = (C.run args).code == 0

-- `line.split("#", 1)[0]`
unfoldable pub before_hash : Str → Str
before_hash [] = []
before_hash (c ∷ s) = let rest = before_hash s in if c == b'#' then [] else c ∷ rest

unfoldable pub exception_of : Str → Str
unfolding before_hash
exception_of line = strip (before_hash line)

-- The loop over the lines of the file.
unfoldable pub exception_names : List Str → List Str
unfolding exception_of
exception_names [] = []
exception_names (line ∷ lines) =
    let rest = exception_names lines in
    if is_nil (exception_of line) then rest else path_name (exception_of line) ∷ rest

unfoldable pub exceptions : Checkout → List Str
unfolding exception_names
exceptions C = elim C.exceptions_text [ none ↦ [] | some text ↦ exception_names (splitlines text) ]

pub data Change : Type 0 where
  modified deleted : Change

pub record Violation : Type 0 where
  pub file : Str
  pub change : Change

-- What became of a file of the merge base: `some none` where it is as it was.
unfoldable pub change_of : Checkout → Str → Str → Option (Option Change)
unfolding git git_ok
change_of C merge_base name = do
  before ← git C (rev_parse_args (blob merge_base name))
  if git_ok C (cat_file_args (blob (codes "HEAD") name))
      then (do
        after ← git C (rev_parse_args (blob (codes "HEAD") name))
        some (if str_eq before after then none else some modified))
      else some (some deleted)

unfoldable pub report_change : List Str → Str → Option Change → List Violation → List Violation
report_change allowed name none found = found
report_change allowed name (some change) found =
    if elem (path_name name) allowed then found else record { file = name; change = change } ∷ found

-- The loop over the listing.
unfoldable pub find_violations : Checkout → Str → List Str → List Str → Option (List Violation)
unfolding change_of report_change
find_violations C merge_base allowed [] = some []
find_violations C merge_base allowed (name ∷ names) =
    let rest = find_violations C merge_base allowed names in
    if not (ends_with (codes ".up.sql") name) then rest else do
      change ← change_of C merge_base name
      found ← rest
      some (report_change allowed name change found)

unfoldable pub violations : Checkout → Str → Option (List Violation)
unfolding git exceptions find_violations
violations C base = do
  merge_base ← git C (merge_base_args base)
  listing ← git C (ls_tree_args merge_base)
  find_violations C merge_base (exceptions C)
      (sorted (filter (λ line. not (is_nil line)) (splitlines listing)))

-- What is printed.
pub data Report : Type 0 where
  no_directory : Report
  -- the base
  cannot_resolve : Str → Report
  json : Str → List Violation → Report
  -- how many exceptions stand in the file
  unmodified : ℕ → Report
  changed : List Violation → Report

-- How many members a set of names has.
abbrev pub distinct : List Str → ℕ
distinct [] = 0
distinct (s ∷ ss) = let rest = distinct ss in if elem s ss then rest else suc rest

abbrev pub report : Checkout → List Violation → Report
report C found = if is_nil found then unmodified (distinct (exceptions C)) else changed found

unfoldable pub main : Checkout → Str → Bool → Option Report
unfolding git_ok violations
main C base as_json =
    if not C.has_directory
    then some no_directory
    else if not (git_ok C (verify_args base))
    then some (cannot_resolve base)
    else do found ← violations C base; some (if as_json then json base found else report C found)

abbrev pub exit_code : Report → ℕ
exit_code no_directory = 0
exit_code (cannot_resolve base) = 1
exit_code (json base found) = if is_nil found then 0 else 1
exit_code (unmodified allowed) = 0
exit_code (changed found) = 1
