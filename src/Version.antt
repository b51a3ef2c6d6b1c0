-- ===== src/Version.antt =====
-- Version tags: `STABLE`, `PSEUDO` and `semver` of scripts/check_module_pins.py. The digits are the
-- ASCII ones.
use ci_workflows.Base.{
  ℕ, zero, suc, ◌+◌, ◌-◌, ◌*◌, Bool, true, false, ◌&&◌, ◌||◌, Option, none, some, [], ◌∷◌, ◌==◌,
  leb, ltb, if◌then◌else◌, is_nil, ◌>>=◌,
}
use ci_workflows.Base.Text.{Str}

abbrev pub is_digit : ℕ → Bool
is_digit c = leb 48 c && leb c 57

abbrev pub is_hex : ℕ → Bool
is_hex c = is_digit c || (leb 97 c && leb c 102)

-- The digits that a text begins with, and the rest.
unfoldable pub span_digits : Str → Str × Str
span_digits [] = ([], [])
span_digits (c ∷ s) =
    let (ds, rest) = span_digits s in if is_digit c then (c ∷ ds, rest) else ([], c ∷ s)

-- `int(p)`
unfoldable pub number : ℕ → Str → ℕ
number acc [] = acc
number acc (c ∷ s) = number (acc * 10 + (c - 48)) s

-- `\d+`
abbrev pub read_number : Str → Option (ℕ × Str)
read_number s =
    let (ds, rest) = span_digits s in if is_nil ds then none else some (number 0 ds, rest)

-- One character that is given.
abbrev pub expect : ℕ → Str → Option Str
expect c [] = none
expect c (d ∷ s) = if c == d then some s else none

abbrev pub Triple : Type 0
Triple = ℕ × ℕ × ℕ

-- `^v\d+\.\d+\.\d+`, with what is behind it
unfoldable pub read_triple : Str → Option (Triple × Str)
unfolding span_digits number
read_triple s = do
  s₁ ← expect b'v' s
  (major, s₂) ← read_number s₁
  s₃ ← expect b'.' s₂
  (minor, s₄) ← read_number s₃
  s₅ ← expect b'.' s₄
  (patch, s₆) ← read_number s₅
  some ((major, minor, patch), s₆)

-- `$`: the end, or a line feed before it
abbrev pub at_end : Str → Bool
at_end [] = true
at_end (c ∷ []) = c == 10
at_end (c ∷ d ∷ s) = false

abbrev pub stable_triple : Option (Triple × Str) → Option Triple
stable_triple none = none
stable_triple (some (t, rest)) = if at_end rest then some t else none

-- `semver`: the three numbers of a stable tag
unfoldable pub semver : Str → Option Triple
semver version = stable_triple (read_triple version)

abbrev pub is_some_triple : Option Triple → Bool
is_some_triple none = false
is_some_triple (some t) = true

-- `STABLE.match(version)`
unfoldable pub is_stable : Str → Bool
is_stable version = is_some_triple (semver version)

-- `n` characters of a class, and what is behind them
unfoldable pub read_class : (ℕ → Bool) → ℕ → Str → Option Str
read_class p zero s = some s
read_class p (suc n) [] = none
read_class p (suc n) (c ∷ s) = let rest = read_class p n s in if p c then rest else none

abbrev pub ends : Option Str → Bool
ends none = false
ends (some rest) = at_end rest

-- `PSEUDO.match(version)`
unfoldable pub is_pseudo : Str → Bool
unfolding read_triple read_class
is_pseudo version = ends (do
  (t, s) ← read_triple version
  s₁ ← expect b'-' s
  s₂ ← read_class is_digit 14 s₁
  s₃ ← expect b'-' s₂
  read_class is_hex 12 s₃)

-- `a < b` on the triples
unfoldable pub triple_ltb : Triple → Triple → Bool
triple_ltb (a, b, c) (d, e, f) = ltb a d || ((a == d) && (ltb b e || ((b == e) && ltb c f)))
