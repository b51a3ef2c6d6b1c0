-- ===== src/Regex.antt =====
-- The part of Python's `re` that scripts/classify-run-failure.py uses: `re.search` with
-- `re.IGNORECASE` on literals, alternatives, optional parts and `.` with a repetition.
pub mod Language
use ci_workflows.Base.{
  ℕ, zero, suc, ◌+◌, ◌-◌, Bool, true, false, not, ◌&&◌, Option, none, some, List, [], ◌∷◌, ◌++◌,
  ◌==◌, leb, if◌then◌else◌, take, length,
}
use ci_workflows.Base.Text.{Str, codes}

pub data Regex : Type 0 where
  empty : Regex
  lit : ℕ → Regex
  seq alt : Regex → Regex → Regex
  -- `(?:r)?`
  opt : Regex → Regex
  -- `.{0,n}`, and `.*` with no bound
  dots : Option ℕ → Regex

-- The pattern of a literal text.
abbrev pub text : Str → Regex
text [] = empty
text (c ∷ s) = seq (lit c) (text s)

-- Case folding, as far as an ASCII letter of a pattern is concerned: the dotted capital I and the
-- dotless i count as i, the long s as s and the Kelvin sign as k.
unfoldable pub fold : ℕ → ℕ
fold c =
    if leb 65 c && leb c 90
    then c + 32
    else if c == 0x130
    then 105
    else if c == 0x131
    then 105
    else if c == 0x17f
    then 115
    else if c == 0x212a
    then 107
    else c

abbrev pub same_letter : ℕ → ℕ → Bool
same_letter c d = fold c == fold d

abbrev pub or_else : Option Str → Option Str → Option Str
or_else none o = o
or_else (some s) o = some s

-- Whether one more character is allowed, and the bound behind it.
abbrev pub has_room : Option ℕ → Bool
has_room none = true
has_room (some zero) = false
has_room (some (suc n)) = true

abbrev pub less_room : Option ℕ → Option ℕ
less_room none = none
less_room (some zero) = some zero
less_room (some (suc n)) = some n

-- Greedy: as many characters as there are, then one less, and so on. A dot is no line feed.
unfoldable pub match_dots : Option ℕ → (Str → Option Str) → Str → Option Str
match_dots bound k [] = k []
match_dots bound k (c ∷ s) =
    let longer = match_dots (less_room bound) k s in
    if has_room bound && not (c == 10) then or_else longer (k (c ∷ s)) else k (c ∷ s)

match_lit : ℕ → (Str → Option Str) → Str → Option Str
match_lit c k [] = none
match_lit c k (d ∷ s) = if same_letter c d then k s else none

-- Backtracking: the continuation matches what stands behind, and its first success counts.
unfoldable pub match : Regex → (Str → Option Str) → Str → Option Str
unfolding match_dots match_lit fold
match empty k s = k s
match (lit c) k s = match_lit c k s
match (seq r q) k s = match r (match q k) s
match (alt r q) k s = or_else (match r k s) (match q k s)
match (opt r) k s = or_else (match r k s) (k s)
match (dots bound) k s = match_dots bound k s

-- The text that was matched, from the rest that was left.
abbrev pub matched : Str → Option Str → Option Str
matched s none = none
matched s (some rest) = some (take (length s - length rest) s)

-- `re.search(pattern, text, re.IGNORECASE).group(0)`: the leftmost match
unfoldable pub search : Regex → Str → Option Str
unfolding match
search r [] = matched [] (match r some [])
search r (c ∷ s) = or_else (matched (c ∷ s) (match r some (c ∷ s))) (search r s)
