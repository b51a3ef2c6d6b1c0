-- ===== src/BuildContexts/Args.antt =====
-- `arg_declarations` of scripts/base-image-build-contexts.py.
use ci_workflows.Base.{
  ℕ, zero, suc, ◌-◌, not, ◌&&◌, ◌||◌, Option, none, some, List, [], ◌∷◌, ◌++◌, ◌==◌, if◌then◌else◌,
  is_nil, init, last_or, length,
}
use ci_workflows.Base.Text.{Str, is_space}
use ci_workflows.Base.Scan.{cut}
use ci_workflows.BuildContexts.{span, take_name}

-- `"(?:[^"\\]|\\.)*"` behind its first quote: with the quote that closes it, and what follows
unfoldable pub double_quoted : Str → Option (Str × Str)
double_quoted [] = none
double_quoted (c ∷ []) = if c == 34 then some (34 ∷ [], []) else none
double_quoted (c ∷ d ∷ s) =
    let escaped = double_quoted s in
    let rest = double_quoted (d ∷ s) in
    if c == 34
    then some (34 ∷ [], d ∷ s)
    else if c == 92
    then put (c ∷ d ∷ []) escaped
    else put (c ∷ []) rest
  where
    put : Str → Option (Str × Str) → Option (Str × Str)
    put a none = none
    put a (some (b, t)) = some (a ++ b, t)

-- `'[^']*'` behind its first quote
unfoldable pub single_quoted : Str → Option (Str × Str)
unfolding cut
single_quoted s = let (a, b) = cut 39 s in elim b [ none ↦ none | some t ↦ some (a ++ 39 ∷ [], t) ]

-- The value behind `=`.
unfoldable pub arg_value : Str → Str × Str
unfolding double_quoted single_quoted span is_space
arg_value s = elim (quoted_value s) [ none ↦ span (λ c. not (is_space c)) s | some v ↦ v ]
  where
    put : ℕ → Option (Str × Str) → Option (Str × Str)
    put q none = none
    put q (some (a, t)) = some (q ∷ a, t)

    quoted_value : Str → Option (Str × Str)
    quoted_value [] = none
    quoted_value (c ∷ s) =
        if c == 34
        then put 34 (double_quoted s)
        else if c == 39
        then put 39 (single_quoted s)
        else none

-- A value between two quotes of one kind loses them.
unfoldable pub unquoted : Str → Str
unquoted [] = []
unquoted (c ∷ []) = c ∷ []
unquoted (c ∷ d ∷ s) =
    if (c == last_or d s) && (c == 34 || c == 39) then init (d ∷ s) else c ∷ d ∷ s

-- One declaration: the name, the value, and the rest.
unfoldable pub declaration : Str → Option ((Str × Option Str) × Str)
unfolding take_name arg_value unquoted
declaration s =
    let (name, rest) = take_name s in if is_nil name then none else some (with_value name rest)
  where
    with_value : Str → Str → (Str × Option Str) × Str
    with_value name [] = ((name, none), [])
    with_value name (c ∷ s) =
        let (value, t) = arg_value s in
        if c == b'=' then ((name, some (unquoted value)), t) else ((name, none), c ∷ s)

-- `arg_declarations`, from a place on: the characters of the last match are skipped.
unfoldable pub arg_declarations : ℕ → Str → List (Str × Option Str)
unfolding declaration
arg_declarations skip [] = []
arg_declarations (suc skip) (c ∷ s) = arg_declarations skip s
arg_declarations zero (c ∷ s) = elim (declaration (c ∷ s)) [
  | none ↦ arg_declarations zero s
  | some (d, rest) ↦ d ∷ arg_declarations (length s - length rest) s
]
