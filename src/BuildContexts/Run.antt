-- ===== src/BuildContexts/Run.antt =====
-- `build_contexts` and `main` of scripts/base-image-build-contexts.py.
use ci_workflows.BuildContexts.Sources.{flag_values, all_mounts, without_quotes, is_number}
use ci_workflows.BuildContexts.Args.{arg_declarations}
use ci_workflows.Base.{
  ℕ, Bool, true, false, not, ◌||◌, Option, none, some, List, [], ◌∷◌, ◌++◌, if◌then◌else◌, is_nil,
  all, filter,
}
use ci_workflows.Base.Text.{
  Str, codes, str_eq, elem, is_space, strip, lstrip_by, starts_with, lower, words, upper,
}
use ci_workflows.Base.Sorting.{sort_by}
use ci_workflows.Base.Scan.{cut}
use ci_workflows.ModulePins.{Dict, lookup, insert}
use ci_workflows.BuildContexts.{
  Arg, unset, unknown, known, automatic_platform_args, Expanded, out_of_fuel, unresolved, ok, span,
  take_name, expand, expand_word,
}
use ci_workflows.BuildContexts.Lines.{instructions}
use ci_workflows.BuildContexts.Reference.{ecr_library, docker_hub_twin}

-- Which reference of an instruction.
pub data What : Type 0 where
  base_image from_image : What

pub data Warning : Type 0 where
  no_official_image cannot_resolve : ℕ → What → Str → Warning

-- What the loop over the instructions keeps.
pub record State : Type 0 where
  pub contexts : Dict Str
  pub warnings : List Warning
  pub global_args : Dict Arg
  pub stages : List Str
  pub seen_from : Bool

abbrev pub add_context : Str → Str → State → State
add_context reference twin s = record s { contexts = insert reference twin s.contexts }

abbrev pub warn : Warning → State → State
warn w s = record s { warnings = s.warnings ++ w ∷ [] }

unfoldable pub consider : Str → ℕ → What → State → State
unfolding docker_hub_twin starts_with insert
consider reference line what s =
    if not (starts_with ecr_library reference) then s else elim (docker_hub_twin reference) [
      | none ↦ warn (no_official_image line what reference) s
      | some twin ↦ add_context reference twin s
    ]

abbrev pub is_scratch : What → Str → Bool
is_scratch base_image reference = str_eq reference (codes "scratch")
is_scratch from_image reference = false

-- `consider`, where the reference is resolved and names no earlier stage.
abbrev pub consider_image : Str → ℕ → What → State → Expanded Str → State
consider_image word line what s out_of_fuel = warn (cannot_resolve line what word) s
consider_image word line what s unresolved = warn (cannot_resolve line what word) s
consider_image word line what s (ok reference) =
    if elem (lower reference) s.stages || is_scratch what reference
    then s
    else consider reference line what s

-- `resolve`, and what the callers do with the result.
unfoldable pub follow : Str → ℕ → What → State → State
unfolding expand consider elem lower str_eq
follow word line what s = consider_image word line what s (expand_word s.global_args word)

abbrev pub arg_of : Expanded Str → Arg
arg_of out_of_fuel = unknown
arg_of unresolved = unknown
arg_of (ok v) = known v

abbrev pub set_arg : Str → Arg → State → State
set_arg name a s = record s { global_args = insert name a s.global_args }

unfoldable pub declare : Dict Str → Str × Option Str → State → State
unfolding lookup insert elem expand
declare build_args (name, default) s = elim (lookup name build_args) [
  | some v ↦ set_arg name (known v) s
  | none ↦ elim default [
    | none ↦ if elem name automatic_platform_args then s else set_arg name unset s
    | some word ↦ set_arg name (arg_of (expand_word s.global_args word)) s
  ]
]

unfoldable pub declare_all : Dict Str → List (Str × Option Str) → State → State
unfolding declare
declare_all build_args [] s = s
declare_all build_args (d ∷ ds) s = declare_all build_args ds (declare build_args d s)

-- The word behind the first `AS` that has one.
unfoldable pub stage_after : List Str → Option Str
unfolding lower str_eq
stage_after [] = none
stage_after (w ∷ []) = none
stage_after (w ∷ v ∷ ws) =
    let rest = stage_after (v ∷ ws) in
    if str_eq (upper w) (codes "AS") then some (lower v) else rest

abbrev pub add_stage : Option Str → State → State
add_stage none s = s
add_stage (some []) s = s
add_stage (some (c ∷ name)) s = record s { stages = (c ∷ name) ∷ s.stages }

unfoldable pub on_from : ℕ → List Str → State → State
unfolding follow stage_after
on_from line [] s = s
on_from line (w ∷ ws) s = add_stage (stage_after (w ∷ ws)) (follow w line base_image s)

unfoldable pub on_sources : ℕ → List Str → State → State
unfolding follow without_quotes all elem lower
on_sources line [] s = s
on_sources line (source ∷ sources) s =
    let word = without_quotes source in
    on_sources line sources
      (if is_number word || elem (lower word) s.stages then s else follow word line from_image s)

abbrev pub seen : State → State
seen s = record s { seen_from = true }

-- The branches of the loop, by the keyword.
unfoldable pub step : Dict Str → ℕ → Str → Str → State → State
unfolding declare_all arg_declarations on_from on_sources flag_values all_mounts words filter
    starts_with str_eq
step build_args line keyword rest s =
    if str_eq keyword (codes "ARG")
    then (if s.seen_from then s else declare_all build_args (arg_declarations 0 rest) s)
    else if str_eq keyword (codes "FROM")
    then on_from line (filter (λ t. not (starts_with (codes "--") t)) (words rest)) (seen s)
    else if str_eq keyword (codes "COPY") || str_eq keyword (codes "ADD")
    then on_sources line (flag_values (codes "--from=") 0 rest) s
    else if str_eq keyword (codes "RUN")
    then on_sources line (all_mounts (flag_values (codes "--mount=") 0 rest)) s
    else s

-- `instruction.split(None, 1)`: the keyword and the rest; `head[0]` raises where there is no word.
unfoldable pub split_instruction : Str → Option (Str × Str)
unfolding span lstrip_by strip is_space
split_instruction text =
    let (w, rest) = span (λ c. not (is_space c)) (lstrip_by is_space text) in
    if is_nil w then none else some (upper w, strip rest)

unfoldable pub run_instructions : Dict Str → List (ℕ × Str) → State → Option State
unfolding step split_instruction
run_instructions build_args [] s = some s
run_instructions build_args ((line, text) ∷ more) s = elim (split_instruction text) [
  | none ↦ none
  | some (keyword, rest) ↦ run_instructions build_args more (step build_args line keyword rest s)
]

-- The platform arguments that the caller gives.
unfoldable pub platform_args : Dict Str → List Str → Dict Arg
unfolding lookup
platform_args build_args [] = []
platform_args build_args (name ∷ names) =
    let rest = platform_args build_args names in
    elim (lookup name build_args) [ none ↦ rest | some v ↦ (name, known v) ∷ rest ]

abbrev pub start : Dict Str → State
start build_args = record {
  contexts = [];
  warnings = [];
  global_args = platform_args build_args automatic_platform_args;
  stages = [];
  seen_from = false;
}

-- The outer `none` is an `IndexError`.
unfoldable pub build_contexts : Str → Dict Str → Option State
unfolding run_instructions instructions platform_args
build_contexts text build_args = run_instructions build_args (instructions text) (start build_args)

-- `NAME=VALUE`; `none` where the argument is refused
unfoldable pub parse_build_args : List Str → Dict Str → Option (Dict Str)
unfolding cut insert span take_name
parse_build_args [] out = some out
parse_build_args (value ∷ values) out =
    let (name, behind) = cut b'=' value in
    elim behind [
      | none ↦ none
      | some v ↦
          if is_nil (take_name name).0 || not (is_nil (take_name name).1)
          then none
          else parse_build_args values (insert name v out)
    ]

pub data Outcome : Type 0 where
  bad_invocation unreadable : Outcome
  -- the warnings, and the sorted pairs
  printed : List Warning → Dict Str → Outcome

abbrev pub exit_code : Outcome → ℕ
exit_code bad_invocation = 2
exit_code unreadable = 2
exit_code (printed warnings pairs) = 0

abbrev pub pair_key : Str × Str → Str
pair_key (key, value) = key

abbrev pub print : Option State → Option Outcome
print none = none
print (some s) = some (printed s.warnings (sort_by pair_key s.contexts))

-- The outer `none` is an exception; a file that cannot be read has no text.
unfoldable pub main : List Str → Option Str → Option Outcome
unfolding parse_build_args build_contexts sort_by
main values file = elim (parse_build_args values []) [
  | none ↦ some bad_invocation
  | some build_args ↦ elim file [
    | none ↦ some unreadable
    | some text ↦ print (build_contexts text build_args)
  ]
]
