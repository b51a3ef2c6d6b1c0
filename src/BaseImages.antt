-- ===== src/BaseImages.antt =====
-- scripts/check-base-image-registry.py: the base images of Dockerfiles, and whether each names a
-- registry. The directory tree is a parameter, read at one moment.
pub mod Lines
pub mod Hosted
use ci_workflows.Base.{
  ℕ, zero, suc, Bool, true, false, not, ◌&&◌, ◌||◌, Option, none, some, List, [], ◌∷◌, ◌++◌, ◌==◌,
  if◌then◌else◌, is_nil, any, filter, map, init, last_or, length,
}
use ci_workflows.Base.Text.{
  Str, codes, str_eq, elem, is_space, lstrip_by, starts_with, words, splitlines, lower, upper,
  upper_char,
}
use ci_workflows.Base.Sorting.{sort_by}
use ci_workflows.Base.Scan.{cut, begins_with_space}
use ci_workflows.Hub.{FilePath, parts_key}

abbrev pub mirror : Str
mirror = codes "public.ecr.aws/docker/library/"

abbrev pub skip_dirs : List Str
skip_dirs = codes "node_modules" ∷ codes "vendor" ∷ []

-- What stands behind a literal in upper case, whatever the case of the text.
unfoldable pub drop_ignoring_case : Str → Str → Option Str
drop_ignoring_case [] s = some s
drop_ignoring_case (p ∷ ps) [] = none
drop_ignoring_case (p ∷ ps) (c ∷ s) =
    let rest = drop_ignoring_case ps s in if p == upper_char c then rest else none

-- The words that `FROM_RE` finds behind `FROM`: none where it does not match, and none where it
-- matches white space only.
unfoldable pub from_words : Str → List Str
unfolding drop_ignoring_case lstrip_by is_space words
from_words line = elim (drop_ignoring_case (codes "FROM") (lstrip_by is_space line)) [
  | none ↦ []
  | some rest ↦ if begins_with_space rest then words rest else []
]

unfoldable pub image_token : List Str → Str
unfolding starts_with
image_token [] = []
image_token (tok ∷ toks) =
    let rest = image_token toks in if starts_with (codes "--") tok then rest else tok

-- The words behind an `AS`, in lower case.
unfoldable pub named_stages : List Str → List Str
unfolding lower str_eq
named_stages [] = []
named_stages (tok ∷ []) = []
named_stages (tok ∷ next ∷ toks) =
    let rest = named_stages (next ∷ toks) in
    if str_eq (upper tok) (codes "AS") then lower next ∷ rest else rest

unfoldable pub stage_names : List Str → List Str
unfolding named_stages from_words
stage_names [] = []
stage_names (line ∷ lines) = named_stages (from_words line) ++ stage_names lines

-- `[.:]`
abbrev pub is_mark : ℕ → Bool
is_mark c = (c == b'.') || (c == b':')

abbrev pub has_late_mark : Str → Bool
has_late_mark [] = false
has_late_mark (c ∷ s) = any is_mark s

-- `HOSTED_RE.match`: its form `localhost:8080` is one with a colon.
unfoldable pub is_hosted : Str → Bool
unfolding cut any str_eq
is_hosted img =
    let (host, behind) = cut b'/' img in
    elim behind [ none ↦ false | some rest ↦ str_eq host (codes "localhost") || has_late_mark host ]

pub data Suggestion : Type 0 where
  use_mirror use_publisher : Suggestion

unfoldable pub suggestion : Str → Suggestion
unfolding cut
suggestion img = elim (cut b'/' (cut b':' (cut b'@' img).0).0).1 [
  | none ↦ use_mirror
  | some rest ↦ use_publisher
]

pub record Problem : Type 0 where
  pub path : FilePath
  pub line_no : ℕ
  pub img : Str
  pub advice : Suggestion

-- An image that the check passes over.
unfoldable pub is_passed : List Str → Str → Bool
unfolding is_hosted elem lower str_eq starts_with
is_passed stages img =
    is_nil img
    || ((elem (lower img) stages || str_eq img (codes "scratch"))
        || (starts_with (codes "$") img || is_hosted img))

abbrev pub problem : FilePath → ℕ → Str → Problem
problem path n img = record { path = path; line_no = n; img = img; advice = suggestion img }

unfoldable pub check_lines : FilePath → List Str → ℕ → List Str → List Problem
unfolding is_passed image_token from_words suggestion
check_lines path stages n [] = []
check_lines path stages n (line ∷ lines) =
    let rest = check_lines path stages (suc n) lines in
    let img = image_token (from_words line) in
    if is_passed stages img then rest else problem path n img ∷ rest

unfoldable pub check : FilePath → Str → List Problem
unfolding check_lines stage_names splitlines
check path text = check_lines path (stage_names (splitlines text)) 1 (splitlines text)

unfoldable pub skipped : FilePath → Bool
unfolding any elem starts_with
skipped rel = any (λ part. starts_with (codes ".") part || elem part skip_dirs) (init rel)

-- The tree below the root, its entries by their paths below the root, and the texts of files.
pub record Tree : Type 0 where
  pub root : FilePath
  pub is_dir : Bool
  pub entries : List FilePath
  pub read_text : FilePath → Option Str

abbrev pub is_file : Tree → FilePath → Bool
is_file t path = elim (t.read_text path) [ none ↦ false | some text ↦ true ]

unfoldable pub is_dockerfile : Tree → FilePath → Bool
unfolding skipped starts_with
is_dockerfile t rel =
    starts_with (codes "Dockerfile") (last_or [] rel)
    && (is_file t (t.root ++ rel) && not (skipped rel))

-- The Dockerfiles to check; `none` where the root is no directory.
unfoldable pub targets : Tree → List FilePath → Option (List FilePath)
unfolding filter is_dockerfile sort_by parts_key
targets t [] =
    let found = map (λ rel. t.root ++ rel) (filter (is_dockerfile t) t.entries) in
    if t.is_dir then some (sort_by parts_key found) else none
targets t (path ∷ paths) = some (path ∷ paths)

unfoldable pub check_all : Tree → List FilePath → List Problem
unfolding check
check_all t [] = []
check_all t (path ∷ paths) =
    let rest = check_all t paths in
    elim (t.read_text path) [ none ↦ rest | some text ↦ check path text ++ rest ]

pub data Outcome : Type 0 where
  no_root : Outcome
  no_such_files : List FilePath → Outcome
  nothing_to_check : Outcome
  bare_names : List Problem → Outcome
  all_hosted : ℕ → Outcome

abbrev pub exit_code : Outcome → ℕ
exit_code no_root = 2
exit_code (no_such_files paths) = 2
exit_code nothing_to_check = 0
exit_code (bare_names problems) = 1
exit_code (all_hosted n) = 0

abbrev pub report : ℕ → List Problem → Outcome
report n [] = all_hosted n
report n (p ∷ ps) = bare_names (p ∷ ps)

abbrev pub judge : Tree → List FilePath → List FilePath → Outcome
judge t paths (p ∷ missing) = no_such_files (p ∷ missing)
judge t [] [] = nothing_to_check
judge t (path ∷ paths) [] = report (length (path ∷ paths)) (check_all t (path ∷ paths))

unfoldable pub main : Tree → List FilePath → Outcome
unfolding targets check_all filter
main t paths = elim (targets t paths) [
  | none ↦ no_root
  | some found ↦ judge t found (filter (λ p. not (is_file t p)) found)
]
