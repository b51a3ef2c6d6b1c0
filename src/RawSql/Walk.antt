-- ===== src/RawSql/Walk.antt =====
-- `main` of scripts/check_no_raw_sql.py: the walk over the tree, and the violations.
use ci_workflows.Base.{
  ℕ, Bool, false, not, ◌&&◌, ◌||◌, Option, none, some, List, [], ◌∷◌, ◌++◌, map, if◌then◌else◌,
  is_nil, any, take,
}
use ci_workflows.Base.Text.{Str, codes, elem, strip, starts_with, ends_with, has_sub}
use ci_workflows.RawSql.{
  Match, openers, is_sql, line_of, line_number, window_of, dynamic_signals, is_generated_source,
  is_generated, is_exception_path,
}

-- A directory, entry by entry as `os.scandir` gives them. A file that cannot be opened has no text.
pub data Dir : Type 0 where
  empty : Dir
  file : Str → Option Str → Dir → Dir
  sub : Str → Dir → Dir → Dir

abbrev pub skip_dirs : List Str
skip_dirs = codes ".git" ∷ codes "vendor" ∷ codes "node_modules" ∷ []

-- Whether the walk goes into a directory.
unfoldable pub is_walked : Str → Bool
unfolding elem starts_with
is_walked name = not (elem name skip_dirs) && not (starts_with (codes ".") name)

-- A file, by the parts of its path below the root.
pub record File : Type 0 where
  pub parts : List Str
  pub text : Option Str

abbrev pub inside : Str → File → File
inside name f = record f { parts = name ∷ f.parts }

unfoldable pub own_files : Dir → List File
own_files empty = []
own_files (file name text others) = record { parts = name ∷ []; text = text } ∷ own_files others
own_files (sub name inner others) = own_files others

-- `os.walk`, from the top down: the files of a directory, then those below it.
unfoldable pub files_below : Dir → List File
unfolding own_files is_walked
files_below empty = []
files_below (file name text others) = files_below others
files_below (sub name inner others) =
    let below = files_below inner in
    let rest = files_below others in
    if is_walked name then map (inside name) (own_files inner ++ below) ++ rest else rest

abbrev pub walk : Dir → List File
walk d = own_files d ++ files_below d

pub record Violation : Type 0 where
  pub parts : List Str
  pub line_no : ℕ
  pub line : Str

abbrev pub file_name : List Str → Str
file_name [] = []
file_name (name ∷ []) = name
file_name (name ∷ more ∷ parts) = file_name (more ∷ parts)

-- The files that are read.
unfoldable pub is_scanned : List Str → Bool
unfolding ends_with is_generated is_exception_path
is_scanned parts =
    (ends_with (codes ".go") (file_name parts)
      && not (ends_with (codes "_test.go") (file_name parts)))
    && not (is_generated parts || is_exception_path parts)

module _ (is_word : ℕ → Bool) where
  -- Whether a match is reported.
  unfoldable pub is_reported : Str → Match → Bool
  unfolding is_sql has_sub line_of window_of any
  is_reported text m =
      if not (is_sql is_word text m)
      then false
      else if has_sub (codes "raw-sql-allow") (line_of text m.start)
      then false
      else not (any (λ signal. has_sub signal (window_of text m.start)) dynamic_signals)

  abbrev pub violation : List Str → Str → Match → Violation
  violation parts text m = record {
    parts = parts;
    line_no = line_number text m.start;
    line = take 120 (strip (line_of text m.start));
  }

  unfoldable pub report_matches : List Str → Str → List Match → List Violation
  unfolding is_reported line_number line_of strip
  report_matches parts text [] = []
  report_matches parts text (m ∷ ms) =
      let rest = report_matches parts text ms in
      if is_reported text m then violation parts text m ∷ rest else rest

  unfoldable pub scan_text : List Str → Option Str → List Violation
  unfolding report_matches openers is_generated_source
  scan_text parts none = []
  scan_text parts (some text) =
      if is_generated_source text then [] else report_matches parts text (openers is_word 0 0 text)

  unfoldable pub scan_file : File → List Violation
  unfolding scan_text is_scanned
  scan_file f = if is_scanned f.parts then scan_text f.parts f.text else []

  unfoldable pub violations : List File → List Violation
  unfolding scan_file
  violations [] = []
  violations (f ∷ fs) = scan_file f ++ violations fs

  unfoldable pub main_code : Dir → ℕ
  unfolding violations files_below own_files
  main_code root = if is_nil (violations (walk root)) then 0 else 1
