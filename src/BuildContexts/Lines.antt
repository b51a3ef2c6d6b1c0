-- ===== src/BuildContexts/Lines.antt =====
-- `instructions` of scripts/base-image-build-contexts.py: the lines of a Dockerfile, as its parser
-- joins them. A loop that jumps ahead skips as many lines as it has read.
use ci_workflows.Base.{
  ℕ, zero, suc, ◌-◌, Bool, true, false, not, ◌&&◌, ◌||◌, Option, none, some, List, [], ◌∷◌, ◌++◌,
  ◌==◌, if◌then◌else◌, is_nil, init, length,
}
use ci_workflows.Base.Text.{
  Str, codes, str_eq, elem, is_space, strip, lstrip_by, rstrip_by, starts_with, ends_with,
  splitlines, lower, words, upper,
}
use ci_workflows.BuildContexts.{is_letter, is_digit, span, take_name}

-- A line and its number.
abbrev pub Line : Type 0
Line = ℕ × Str

abbrev pub numbered : ℕ → List Str → List Line
numbered n [] = []
numbered n (l ∷ ls) = (n, l) ∷ numbered (suc n) ls

abbrev pub in_directive : ℕ → Bool
in_directive c = is_letter c || (is_digit c || (c == 95 || c == 45))

-- `DIRECTIVE_RE.match`: the name and the value
unfoldable pub directive : Str → Option (Str × Str)
unfolding span lstrip_by strip is_space
directive [] = none
directive (c ∷ s) =
    let (name, rest) = span in_directive (lstrip_by is_space s) in
    elim (lstrip_by is_space rest) [
      | [] ↦ none
      | d ∷ value ↦
          if ((c == b'#') && (d == b'=')) && begins_with_letter name
          then some (name, strip value)
          else none
    ]
  where
    begins_with_letter : Str → Bool
    begins_with_letter [] = false
    begins_with_letter (c ∷ s) = is_letter c

-- The value of an escape directive that counts.
abbrev pub escape_or : ℕ → Str × Str → ℕ
escape_or e (name, value) =
    if not (str_eq (lower name) (codes "escape"))
    then e
    else if str_eq value (92 ∷ [])
    then 92
    else if str_eq value (96 ∷ [])
    then 96
    else e

-- The parser directives: the escape character, and the lines behind them.
unfoldable pub read_directives : ℕ → List Line → ℕ × List Line
unfolding directive lower strip str_eq
read_directives e [] = (e, [])
read_directives e ((n, l) ∷ ls) = elim (directive (strip l)) [
  | none ↦ (e, (n, l) ∷ ls)
  | some d ↦ read_directives (escape_or e d) ls
]

-- A comment or a blank line.
unfoldable pub is_noise : Str → Bool
unfolding strip starts_with
is_noise l = is_nil (strip l) || starts_with (codes "#") (strip l)

unfoldable pub rstripped : Str → Str
unfolding rstrip_by is_space
rstripped l = rstrip_by is_space l

-- The parts of an instruction, and the lines behind it. Noise is dropped inside a continuation.
unfoldable pub collect : ℕ → Bool → List Line → List Str × List Line
unfolding is_noise rstripped ends_with
collect e continued [] = ([], [])
collect e continued ((n, l) ∷ ls) =
    let skipped = collect e true ls in
    let (parts, rest) = collect e true ls in
    if continued && is_noise l
    then skipped
    else if ends_with (e ∷ []) (rstripped l)
    then (init (rstripped l) ∷ parts, rest)
    else (rstripped l ∷ [], ls)

-- `" ".join(p.strip() for p in parts).strip()`
abbrev pub joined : List Str → Str
joined [] = []
joined (p ∷ []) = strip p
joined (p ∷ q ∷ ps) = strip p ++ 32 ∷ joined (q ∷ ps)

abbrev pub first_word : List Str → Str
first_word [] = []
first_word (w ∷ ws) = w

unfoldable pub is_heredoc_instruction : Str → Bool
unfolding words elem
is_heredoc_instruction text =
    elem (upper (first_word (words text))) (codes "RUN" ∷ codes "COPY" ∷ codes "ADD" ∷ [])

-- The name behind `<<`, `-` and a quote, with what stands behind the closing quote.
unfoldable pub quoted_name : Str → Option (Str × Str)
unfolding take_name
quoted_name [] = none
quoted_name (q ∷ s) =
    if (q == 34) || (q == 39)
    then (let (name, rest) = take_name s in if is_nil name then none else closed q name rest)
    else (let (name, rest) = take_name (q ∷ s) in if is_nil name then none else some (name, rest))
  where
    closed : ℕ → Str → Str → Option (Str × Str)
    closed q name [] = none
    closed q name (c ∷ s) = if c == q then some (name, s) else none

-- `HEREDOC_RE.match`: whether tabs are stripped, the delimiter, and the rest
unfoldable pub heredoc_at : Str → Option (Bool × (Str × Str))
unfolding quoted_name
heredoc_at [] = none
heredoc_at (c ∷ []) = none
heredoc_at (c ∷ d ∷ []) = none
heredoc_at (c ∷ d ∷ e ∷ s) =
    if not ((c == b'<') && (d == b'<'))
    then none
    else if e == b'-'
    then tagged true (quoted_name s)
    else tagged false (quoted_name (e ∷ s))
  where
    tagged : Bool → Option (Str × Str) → Option (Bool × (Str × Str))
    tagged tabs none = none
    tagged tabs (some m) = some (tabs, m)

-- `HEREDOC_RE.findall`, from a place on: the characters of the last match are skipped.
unfoldable pub heredocs : ℕ → Str → List (Bool × Str)
unfolding heredoc_at
heredocs skip [] = []
heredocs (suc skip) (c ∷ s) = heredocs skip s
heredocs zero (c ∷ s) = elim (heredoc_at (c ∷ s)) [
  | none ↦ heredocs zero s
  | some (tabs, (name, rest)) ↦ (tabs, name) ∷ heredocs (length s - length rest) s
]

abbrev pub candidate : Bool → Str → Str
candidate true l = lstrip_by (λ c. c == 9) l
candidate false l = l

-- The lines behind the terminator, where there is one.
unfoldable pub behind_terminator : Bool → Str → List Line → Option (List Line)
unfolding lstrip_by str_eq
behind_terminator tabs delimiter [] = none
behind_terminator tabs delimiter ((n, l) ∷ ls) =
    let rest = behind_terminator tabs delimiter ls in
    if str_eq (candidate tabs l) delimiter then some ls else rest

unfoldable pub skip_bodies : List (Bool × Str) → List Line → List Line
unfolding behind_terminator
skip_bodies [] ls = ls
skip_bodies ((tabs, delimiter) ∷ more) ls = elim (behind_terminator tabs delimiter ls) [
  | none ↦ skip_bodies more ls
  | some rest ↦ skip_bodies more rest
]

-- The lines behind an instruction and its heredocs.
abbrev pub behind_instruction : Str → List Line → List Line
behind_instruction text rest =
    if is_heredoc_instruction text then skip_bodies (heredocs 0 text) rest else rest

-- The loop: the lines that are read already are skipped.
unfoldable pub logical_lines : ℕ → ℕ → List Line → List Line
unfolding is_noise collect strip is_heredoc_instruction skip_bodies heredocs
logical_lines e skip [] = []
logical_lines e (suc skip) (l ∷ ls) = logical_lines e skip ls
logical_lines e zero ((n, l) ∷ ls) = elim (is_noise l) [
  | true ↦ logical_lines e zero ls
  | false ↦
      let (parts, rest) = collect e false ((n, l) ∷ ls) in
      let text = joined parts in
      (n, text) ∷ logical_lines e (length ls - length (behind_instruction text rest)) ls
]

unfoldable pub instructions : Str → List Line
unfolding splitlines read_directives logical_lines
instructions text =
    let (e, ls) = read_directives 92 (numbered 1 (splitlines text)) in logical_lines e 0 ls
