-- ===== src/BuildContexts.antt =====
-- scripts/base-image-build-contexts.py: the variables of a Dockerfile, expanded as BuildKit does.
pub mod Lines
pub mod Reference
pub mod Args
pub mod Sources
pub mod Run
pub mod Twins
pub mod Redirects
pub mod Fuel
use ci_workflows.Base.{
  ℕ, zero, suc, Bool, true, false, not, ◌&&◌, ◌||◌, Option, none, some, List, [], ◌∷◌, ◌++◌, ◌==◌,
  leb, if◌then◌else◌, is_nil, length, ◌-◌,
}
use ci_workflows.Base.Text.{Str, codes, elem, is_space}
use ci_workflows.ModulePins.{Dict, lookup}

-- The value of a declared name: without one, known, or dependent on the builder.
pub data Arg : Type 0 where
  unset unknown : Arg
  known : Str → Arg

abbrev pub automatic_platform_args : List Str
automatic_platform_args =
    codes "BUILDPLATFORM"
    ∷ codes "BUILDOS"
    ∷ codes "BUILDARCH"
    ∷ codes "BUILDVARIANT"
    ∷ codes "TARGETPLATFORM"
    ∷ codes "TARGETOS"
    ∷ codes "TARGETARCH"
    ∷ codes "TARGETVARIANT"
    ∷ []

-- A result, `Unresolved`, or the end of the fuel.
pub data Expanded (A : Type 0) : Type 0 where
  out_of_fuel unresolved : Expanded A
  ok : A → Expanded A

infixl 5 ◌>>=◌
abbrev pub ◌>>=◌ : {A B : Type 0} → Expanded A → (A → Expanded B) → Expanded B
out_of_fuel >>= f = out_of_fuel
unresolved >>= f = unresolved
ok a >>= f = f a

abbrev pub is_letter : ℕ → Bool
is_letter c = (leb 97 c && leb c 122) || (leb 65 c && leb c 90)

abbrev pub is_digit : ℕ → Bool
is_digit c = leb 48 c && leb c 57

-- `[A-Za-z_]`, and `[A-Za-z0-9_]`
abbrev pub starts_name : ℕ → Bool
starts_name c = is_letter c || c == 95

abbrev pub continues_name : ℕ → Bool
continues_name c = starts_name c || is_digit c

-- The characters at the start of a text that pass a test, and the rest.
unfoldable pub span : (ℕ → Bool) → Str → Str × Str
span p [] = ([], [])
span p (c ∷ s) = let (a, b) = span p s in if p c then (c ∷ a, b) else ([], c ∷ s)

-- `[A-Za-z_][A-Za-z0-9_]*`: empty where there is no name
unfoldable pub take_name : Str → Str × Str
unfolding span
take_name [] = ([], [])
take_name (c ∷ s) = if starts_name c then span continues_name (c ∷ s) else ([], c ∷ s)

abbrev pub put_before : Str → Option (Str × Str) → Option (Str × Str)
put_before a none = none
put_before a (some (b, t)) = some (a ++ b, t)

-- `closing_brace`: what stands before the brace that closes, and behind it. A `$` before a brace
-- opens one more level.
unfoldable pub closing_brace : ℕ → Str → Option (Str × Str)
closing_brace depth [] = none
closing_brace depth (c ∷ []) = if (c == 125) && leb depth 1 then some ([], []) else none
closing_brace depth (c ∷ d ∷ s) =
    let escaped = closing_brace depth s in
    let deeper = closing_brace (suc depth) s in
    let higher = closing_brace (depth - 1) (d ∷ s) in
    let rest = closing_brace depth (d ∷ s) in
    if c == 92
    then put_before (c ∷ d ∷ []) escaped
    else if (c == 36) && (d == 123)
    then put_before (c ∷ d ∷ []) deeper
    else if c == 125
    then (if leb depth 1 then some ([], d ∷ s) else put_before (c ∷ []) higher)
    else put_before (c ∷ []) rest

-- `value_of`: a value, or none for a name that is unset
unfoldable pub value_of : Str → Dict Arg → Expanded (Option Str)
unfolding lookup elem
value_of name args = elim (lookup name args) [
  | some unset ↦ ok none
  | some unknown ↦ unresolved
  | some (known v) ↦ ok (some v)
  | none ↦ if elem name automatic_platform_args then unresolved else ok none
]

-- `(:?[-+])`
pub data Operator : Type 0 where
  no_operator : Operator
  -- whether an empty value counts as unset, and the operand
  default_to alternative : Bool → Str → Operator

-- The operator behind the name; `none` where the pattern does not match.
unfoldable pub operator : Str → Option Operator
operator [] = some no_operator
operator (c ∷ []) =
    if c == 45
    then some (default_to false [])
    else if c == 43
    then some (alternative false [])
    else none
operator (c ∷ d ∷ s) =
    if c == 45
    then some (default_to false (d ∷ s))
    else if c == 43
    then some (alternative false (d ∷ s))
    else if (c == 58) && (d == 45)
    then some (default_to true s)
    else if (c == 58) && (d == 43)
    then some (alternative true s)
    else none

-- Whether a value counts as set.
abbrev pub counts : Bool → Option Str → Bool
counts empty_is_unset none = false
counts empty_is_unset (some v) = not (empty_is_unset && is_nil v)

abbrev pub or_nothing : Option Str → Str
or_nothing none = []
or_nothing (some v) = v

-- `substitute` with the expansion of an operand; the name is matched and its value is known.
abbrev pub apply : (Str → Expanded Str) → Option Str → Operator → Expanded Str
apply expand_operand value no_operator = ok (or_nothing value)
apply expand_operand value (default_to empty_is_unset operand) =
    if counts empty_is_unset value then ok (or_nothing value) else expand_operand operand
apply expand_operand value (alternative empty_is_unset operand) =
    if counts empty_is_unset value then expand_operand operand else ok []

unfoldable pub substitute : (Str → Expanded Str) → Dict Arg → Str → Expanded Str
unfolding take_name operator value_of
substitute expand_operand args inner =
    let (name, rest) = take_name inner in
    if is_nil name then unresolved else elim (operator rest) [
      | none ↦ unresolved
      | some op ↦ value_of name args >>= (λ value. apply expand_operand value op)
    ]

abbrev pub append : Str → Expanded Str → Expanded Str
append a out_of_fuel = out_of_fuel
append a unresolved = unresolved
append a (ok b) = ok (a ++ b)

-- `expand`: every turn takes a character or more, so the length of the word is enough fuel.
unfoldable pub expand : ℕ → Dict Arg → Str → Expanded Str
unfolding closing_brace substitute take_name value_of
expand fuel args [] = ok []
expand zero args (c ∷ s) = out_of_fuel
expand (suc fuel) args (c ∷ []) = ok (c ∷ [])
expand (suc fuel) args (c ∷ d ∷ s) =
    let next = expand fuel args (d ∷ s) in
    let behind = expand fuel args s in
    if (c == 92) && (d == 36)
    then append (36 ∷ []) behind
    else if not (c == 36)
    then append (c ∷ []) next
    else if d == 123
    then elim (closing_brace 1 s) [
      | none ↦ unresolved
      | some (inner, rest) ↦
          substitute (λ operand. expand fuel args operand) args inner
          >>= (λ v. append v (expand fuel args rest))
    ]
    else (let (name, rest) = take_name (d ∷ s) in
        if is_nil name
        then append (c ∷ []) next
        else value_of name args >>= (λ value. append (or_nothing value) (expand fuel args rest)))

abbrev pub expand_word : Dict Arg → Str → Expanded Str
expand_word args word = expand (length word) args word
