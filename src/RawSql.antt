-- ===== src/RawSql.antt =====
-- scripts/check_no_raw_sql.py: SQL texts in hand-written Go code. Which characters `\w` matches is a
-- parameter, and the tree that `os.walk` walks is a data type.
pub mod Walk
pub mod Generated
pub mod Clean
use ci_workflows.Base.Scan.{behind, behind_feeds, within_line, at_some_line}
use ci_workflows.Base.{
  ℕ, zero, suc, ◌+◌, ◌-◌, Bool, true, false, not, ◌&&◌, ◌||◌, Option, none, some, List, [], ◌∷◌,
  ◌++◌, ◌==◌, ◌>>=◌, if◌then◌else◌, is_nil, any, last_or, length, take,
}
use ci_workflows.Base.Text.{
  Str, codes, elem, is_space, strip, starts_with, ends_with, has_sub, split_on, lower, lstrip_by,
}
use ci_workflows.Regex.{same_letter, fold}

abbrev pub generated_dir_segments : List Str
generated_dir_segments = codes "sqlc" ∷ codes "rootsqlc" ∷ []

abbrev pub exception_path_segments : List Str
exception_path_segments = codes "seed" ∷ codes "migrations" ∷ codes "schema" ∷ codes "testdata" ∷ []

abbrev pub dynamic_signals : List Str
dynamic_signals =
    codes "fmt.Sprintf"
    ∷ codes "strings.Builder"
    ∷ codes "WriteString"
    ∷ codes "strings.Join"
    ∷ codes "append(args"
    ∷ codes "args = append"
    ∷ codes "\" + "
    ∷ codes "+ \""
    ∷ codes "placeholders"
    ∷ codes "queryBuilder"
    ∷ []

-- The keywords that open a statement.
pub data Keyword : Type 0 where
  select insert_into update delete_from with_as : Keyword

-- A match of `SQL_OPEN`: where it starts, where it ends, and its two groups.
pub record Match : Type 0 where
  pub start : ℕ
  pub stop : ℕ
  pub quote : ℕ
  pub keyword : Keyword

abbrev pub drop : ℕ → Str → Str
drop zero s = s
drop (suc n) [] = []
drop (suc n) (c ∷ s) = drop n s

-- A literal of a pattern, letters of either case: what stands behind it.
unfoldable pub eat : Str → Str → Option Str
unfolding fold
eat [] s = some s
eat (c ∷ pattern) [] = none
eat (c ∷ pattern) (d ∷ s) = let rest = eat pattern s in if same_letter c d then rest else none

-- `\s*`
unfoldable pub eat_spaces : Str → Str
unfolding lstrip_by is_space
eat_spaces = lstrip_by is_space

-- `\s+`
unfoldable pub eat_some_spaces : Str → Option Str
unfolding eat_spaces is_space
eat_some_spaces [] = none
eat_some_spaces (c ∷ s) = if is_space c then some (eat_spaces s) else none

-- What stands behind the first line feed.
unfoldable pub behind_line : Str → Option Str
behind_line [] = none
behind_line (c ∷ s) = let rest = behind_line s in if c == 10 then some s else rest

-- `(?:--[^\n]*\n\s*)?`: no keyword begins with a dash, so the group is never given back.
unfoldable pub eat_comment : Str → Str
unfolding behind_line eat_spaces starts_with
eat_comment s = elim (behind_line s) [
  | none ↦ s
  | some rest ↦ if starts_with (codes "--") s then eat_spaces rest else s
]

abbrev pub or_next : Option (Keyword × Str) → Option (Keyword × Str) → Option (Keyword × Str)
or_next none o = o
or_next (some m) o = some m

module _ (is_word : ℕ → Bool) where
  -- `\b` behind a letter
  abbrev pub at_boundary : Str → Bool
  at_boundary [] = true
  at_boundary (c ∷ s) = not (is_word c)

  abbrev pub bounded : Keyword → Option Str → Option (Keyword × Str)
  bounded k none = none
  bounded k (some rest) = if at_boundary rest then some (k, rest) else none

  -- `A\s+B`
  unfoldable pub eat_two : Str → Str → Str → Option Str
  unfolding eat eat_some_spaces
  eat_two a b s = do behind ← eat a s; next ← eat_some_spaces behind; eat b next

  unfoldable pub eat_keyword : Str → Option (Keyword × Str)
  unfolding eat_two eat
  eat_keyword s = or_next (bounded select (eat (codes "SELECT") s)) (
      or_next (bounded insert_into (eat_two (codes "INSERT") (codes "INTO") s)) (
        or_next (bounded update (eat (codes "UPDATE") s)) (
          or_next (bounded delete_from (eat_two (codes "DELETE") (codes "FROM") s))
            (bounded with_as (eat (codes "WITH") s)))))

  -- `SQL_OPEN.match(s)`
  unfoldable pub open_at : Str → Option (ℕ × (Keyword × Str))
  unfolding eat_keyword eat_comment eat_spaces
  open_at [] = none
  open_at (c ∷ s) =
      if (c == 34) || (c == 96)
      then (do m ← eat_keyword (eat_comment (eat_spaces s)); some (c, m))
      else none

  -- `SQL_OPEN.finditer(text)`, from a place on: the characters of the last match are skipped.
  unfoldable pub openers : ℕ → ℕ → Str → List Match
  unfolding open_at
  openers start skip [] = []
  openers start (suc skip) (c ∷ s) = openers (suc start) skip s
  openers start zero (c ∷ s) = elim (open_at (c ∷ s)) [
    | none ↦ openers (suc start) zero s
    | some (q, (k, rest)) ↦
        record {
          start = start;
          stop = start + (length (c ∷ s) - length rest);
          quote = q;
          keyword = k;
        }
        ∷ openers (suc start) (length s - length rest) s
  ]

  -- `\bWORD` with a test of what stands behind it, and whether the character before is a letter
  unfoldable pub has_word : Str → (Str → Bool) → Bool → Str → Bool
  unfolding eat
  has_word word test behind_letter [] = false
  has_word word test behind_letter (c ∷ s) =
      let rest = has_word word test (is_word c) s in
      (not behind_letter && (elim (eat word (c ∷ s)) [ none ↦ false | some after ↦ test after ]))
      || rest

  abbrev pub opens_paren : Str → Bool
  opens_paren s = starts_with (codes "(") (eat_spaces s)

  -- `CORROBORATION`
  unfoldable pub corroborates : Keyword → Str → Bool
  unfolding has_word eat_spaces starts_with
  corroborates select s = has_word (codes "FROM") at_boundary false s
  corroborates insert_into s = true
  corroborates update s = has_word (codes "SET") at_boundary false s
  corroborates delete_from s = true
  corroborates with_as s = has_word (codes "AS") opens_paren false s

  -- The literal to its closing quote, and 400 characters where there is none.
  unfoldable pub to_quote : ℕ → Str → Option Str
  to_quote q [] = none
  to_quote q (c ∷ s) =
      let rest = to_quote q s in
      if c == q then some [] else elim rest [ none ↦ none | some t ↦ some (c ∷ t) ]

  unfoldable pub literal_of : Str → Match → Str
  unfolding to_quote
  literal_of text m = elim (to_quote m.quote (drop m.stop text)) [
    | none ↦ take 400 (drop m.stop text)
    | some t ↦ t
  ]

  unfoldable pub is_sql : Str → Match → Bool
  unfolding corroborates literal_of
  is_sql text m = corroborates m.keyword (literal_of text m)

abbrev pub first_line : List Str → Str
first_line [] = []
first_line (l ∷ ls) = l

-- The line on which a match starts.
unfoldable pub line_of : Str → ℕ → Str
unfolding split_on
line_of text start =
    last_or [] (split_on 10 (take start text)) ++ first_line (split_on 10 (drop start text))

-- `text[max(0, start - 240): start + 240]`
unfoldable pub window_of : Str → ℕ → Str
window_of text start = drop (start - 240) (take (start + 240) text)

unfoldable pub line_number : Str → ℕ → ℕ
unfolding split_on
line_number text start = length (split_on 10 (take start text))

-- The text before `\npackage `.
unfoldable pub header : Str → Str
unfolding starts_with
header [] = []
header (c ∷ s) =
    let rest = header s in if starts_with (codes "\npackage ") (c ∷ s) then [] else c ∷ rest

-- `$` with `re.MULTILINE`
abbrev pub ends_line : Str → Bool
ends_line [] = true
ends_line (c ∷ s) = c == 10

-- `GENERATED_MARKER`, at the start of a line
unfoldable pub is_marker : Str → Bool
unfolding behind within_line
is_marker s =
    behind (codes "// Code generated ") (within_line (behind (codes " DO NOT EDIT.") ends_line)) s

unfoldable pub is_generated_source : Str → Bool
unfolding is_marker header behind_feeds
is_generated_source text = at_some_line is_marker (header text)

-- The parts of a path below the root.
unfoldable pub is_generated : List Str → Bool
unfolding any elem
is_generated parts = any (λ seg. elem seg generated_dir_segments) parts

unfoldable pub is_exception_path : List Str → Bool
unfolding any elem lower
is_exception_path parts = any (λ part. elem (lower part) exception_path_segments) parts
