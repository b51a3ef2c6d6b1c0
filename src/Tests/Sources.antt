-- ===== src/Tests/Sources.antt =====
-- scripts/check_no_raw_sql.py on a small tree.
use ci_workflows.Base.Scan.{drop_prefix, behind, behind_feeds, within_line}
use ci_workflows.Base.{ℕ, Bool, true, ◌||◌, ◌&&◌, ◌==◌, leb, some, [], ◌∷◌, ◌≡◌, refl, any}
use ci_workflows.Base.Text.{
  Str, codes, str_eq, elem, is_space, strip, lstrip_by, rstrip_by, starts_with, ends_with, has_sub,
  split_on, lower,
}
use ci_workflows.Regex.{fold}
use ci_workflows.RawSql.{
  eat, eat_spaces, eat_some_spaces, behind_line, eat_comment, eat_two, eat_keyword, open_at,
  openers, has_word, corroborates, to_quote, literal_of, is_sql, line_of, window_of, line_number,
  header, is_marker, is_generated_source, is_generated, is_exception_path,
}
use ci_workflows.RawSql.Walk.{
  Dir, empty, file, sub, is_walked, own_files, files_below, walk, is_scanned, is_reported,
  report_matches, scan_text, scan_file, violations, main_code,
}

abbrev is_word : ℕ → Bool
is_word c =
    (leb 97 c && leb c 122) || ((leb 65 c && leb c 90) || ((leb 48 c && leb c 57) || (c == 95)))

unfoldable scan_open : Bool
unfolding drop_prefix behind behind_feeds within_line eat eat_spaces eat_some_spaces behind_line
    eat_comment eat_two eat_keyword open_at openers has_word corroborates to_quote literal_of is_sql
    line_of window_of line_number header is_marker is_generated_source is_generated
    is_exception_path is_walked own_files files_below is_scanned is_reported report_matches
    scan_text scan_file violations main_code fold str_eq elem strip lstrip_by rstrip_by is_space
    starts_with ends_with has_sub split_on lower any
scan_open = true

abbrev query : Str
query = codes "package a\nvar q = `\n  select id from t`\nvar w = \"update codes\"\n"

-- A query, an error text that only begins like one, and a directory that is skipped.
abbrev tree : Str → Dir
tree name = file name (some query) (
    sub (codes "vendor") (file (codes "b.go") (some query) empty) (
      sub (codes "db")
        (file (codes "c.go")
          (some (
            codes "// Code generated by sqlc. DO NOT EDIT.\npackage db\nvar q = `SELECT a FROM b`"))
          empty)
        empty))

reported :
    violations is_word (walk (tree (codes "a.go")))
    ≡ record { parts = codes "a.go" ∷ []; line_no = 2; line = codes "var q = `" } ∷ []
unfolding scan_open
reported = refl

clean : main_code is_word (tree (codes "a_test.go")) ≡ 0
unfolding scan_open
clean = refl

-- Where the text begins with the package clause, a marker anywhere exempts the file.
late_marker :
    violations is_word (
      walk (
        file
          (codes "d.go")
          (some (
            codes
              "package d\nvar q = `SELECT a FROM b`\n// Code generated by hand. DO NOT EDIT.\n"))
          empty))
    ≡ []
unfolding scan_open
late_marker = refl
