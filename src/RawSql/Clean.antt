-- ===== src/RawSql/Clean.antt =====
-- When scripts/check_no_raw_sql.py passes, by the files of the tree.
use ci_workflows.RawSql.Generated.{IsDeclared}
use ci_workflows.Base.{ℕ, Bool, true, false, Option, none, some, [], ◌∷◌, ◌≡◌, ◌⊎◌, any, All}
use ci_workflows.Base.Text.{Str, codes, has_sub}
use ci_workflows.RawSql.{Match, openers, is_sql, line_of, window_of, dynamic_signals}
use ci_workflows.RawSql.Walk.{Dir, file, sub, File, inside, is_walked, is_scanned}

-- A file of the tree that no skipped directory holds.
pub data Reaches : File → Dir → Type 0 where
  here :
      (name : Str) (text : Option Str) (others : Dir)
      → Reaches (record { parts = name ∷ []; text = text }) (file name text others)
  past_file :
      (f : File) (name : Str) (text : Option Str) (others : Dir)
      → Reaches f others
      → Reaches f (file name text others)
  past_dir :
      (f : File) (name : Str) (inner others : Dir)
      → Reaches f others
      → Reaches f (sub name inner others)
  within :
      (f : File) (name : Str) (inner others : Dir)
      → is_walked name ≡ true
      → Reaches f inner
      → Reaches (inside name f) (sub name inner others)

-- A statement that is excused: no corroborated SQL, a mark on the line, or a sign of a dynamic
-- statement close by.
abbrev pub IsExcused : (ℕ → Bool) → Str → Match → Type 0
IsExcused is_word text m =
    (is_sql is_word text m ≡ false)
    ⊎ ((has_sub (codes "raw-sql-allow") (line_of text m.start) ≡ true)
        ⊎ (any (λ signal. has_sub signal (window_of text m.start)) dynamic_signals ≡ true))

-- A file that is not read by its path, that cannot be opened, that declares itself generated, or whose
-- statements are all excused.
abbrev pub IsClean : (ℕ → Bool) → File → Type 0
IsClean is_word f =
    (is_scanned f.parts ≡ false)
    ⊎ ((f.text ≡ none)
        ⊎ ((text : Str) × ((f.text ≡ some text)
              × (IsDeclared text ⊎ All (IsExcused is_word text) (openers is_word 0 0 text)))))
