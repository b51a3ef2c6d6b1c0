-- ===== src/OpenapiGenerator.antt =====
-- scripts/check-openapi-generator.py: how a service's OpenAPI generator is wired. What a repository has
-- is a parameter, as read.
pub mod Patterns
pub mod Wired
use ci_workflows.Base.{
  ℕ, Bool, true, false, ◌&&◌, ◌||◌, Option, none, some, List, [], ◌∷◌, ◌++◌, ◌==◌, if◌then◌else◌,
  is_nil,
}
use ci_workflows.Base.Text.{Str, codes, starts_with, has_sub, is_space}
use ci_workflows.Base.Scan.{behind, behind_feeds, skip_spaces, somewhere, at_some_line, within_line}

pub record Repo : Type 0 where
  -- the text of scripts/swagger.sh
  pub caller : Option Str
  -- whether scripts/lib/swagger.sh is a file
  pub has_vendored : Bool
  -- the text of Makefile
  pub makefile : Option Str

abbrev pub canonical_suffix : Str
canonical_suffix = codes "tooling/openapi/lib/swagger.sh"

-- `\s+`, and a test behind it, where the test fails on white space
unfoldable pub behind_spaces : (Str → Bool) → Str → Bool
unfolding skip_spaces is_space
behind_spaces test [] = false
behind_spaces test (c ∷ s) = is_space c && test (skip_spaces s)

-- `.*\.\./\.\./\.\.`
unfoldable pub climbs : Str → Bool
unfolding within_line starts_with
climbs s = within_line (starts_with (codes "../../..")) s

-- `ESCAPING_SOURCE`, at the start of a line
unfoldable pub sources_outside : Str → Bool
unfolding skip_spaces behind behind_spaces climbs
sources_outside s =
    let t = skip_spaces s in
    behind (codes "source") (behind_spaces climbs) t || behind (codes ".") (behind_spaces climbs) t

-- `2>\s*/dev/null`, and `\|\|\s*true`
unfoldable pub to_null : Str → Bool
unfolding behind skip_spaces starts_with
to_null s = behind (codes "2>") (λ t. starts_with (codes "/dev/null") (skip_spaces t)) s

unfoldable pub or_true : Str → Bool
unfolding behind skip_spaces starts_with
or_true s = behind (codes "||") (λ t. starts_with (codes "true") (skip_spaces t)) s

-- `SWALLOWED_NORMALIZE`, at a place
unfoldable pub swallows : Str → Bool
unfolding behind within_line to_null or_true
swallows s =
    behind (codes "ensure_openapi_normalize") (within_line to_null) s
    || (behind (codes "_OPENAPI_NORMALIZE_BIN") (within_line or_true) s
        || behind (codes "openapi-normalize") (within_line or_true) s)

-- `SWALLOWING_ASSIGN`, at the start of a line
unfoldable pub assigns : Str → Bool
unfolding skip_spaces behind behind_spaces starts_with
assigns s =
    behind (codes ":") (behind_spaces (starts_with (codes "\"${SHARED_GO_DIR:="))) (skip_spaces s)

-- `^openapi-contract-check\s*:`
unfoldable pub is_target : Str → Bool
unfolding behind skip_spaces starts_with
is_target s =
    behind (codes "openapi-contract-check") (λ t. starts_with (codes ":") (skip_spaces t)) s

pub data Defect : Type 0 where
  vendored escaping no_canonical swallowed swallowing : Defect

pub data Verdict : Type 0 where
  own_engine no_generator wired : Verdict
  miswired : List Defect → Verdict

abbrev pub defect_if : Bool → Defect → List Defect
defect_if b d = if b then d ∷ [] else []

abbrev pub unless : Bool → Defect → List Defect
unless b d = if b then [] else d ∷ []

unfoldable pub defects : Bool → Str → List Defect
unfolding sources_outside has_sub swallows assigns somewhere behind_feeds
defects has_vendored text =
    defect_if has_vendored vendored
    ++ (defect_if (at_some_line sources_outside text) escaping
        ++ (unless (has_sub canonical_suffix text) no_canonical
            ++ (defect_if (somewhere swallows text) swallowed
                ++ defect_if (at_some_line assigns text) swallowing)))

abbrev pub wired_if : List Defect → Verdict
wired_if [] = wired
wired_if (d ∷ ds) = miswired (d ∷ ds)

-- A Makefile that is missing counts as an empty one.
abbrev pub makefile_text : Option Str → Str
makefile_text none = []
makefile_text (some text) = text

unfoldable pub check_repo : Repo → Verdict
unfolding defects is_target behind_feeds
check_repo repo = elim repo.caller [
  | none ↦ if at_some_line is_target (makefile_text repo.makefile) then own_engine else no_generator
  | some text ↦ wired_if (defects repo.has_vendored text)
]

-- `rc`, as far as `main` combines it
abbrev pub rc_of : Verdict → ℕ
rc_of own_engine = 0
rc_of no_generator = 1
rc_of wired = 0
rc_of (miswired ds) = 1

-- `rc | check_repo(p)` for codes of 0 and 1
abbrev pub either_code : ℕ → ℕ → ℕ
either_code a b = if a == 0 then b else 1

-- The loop of `main`: a path that is no directory ends it.
unfoldable pub run : ℕ → List (Option Repo) → ℕ
unfolding check_repo
run rc [] = rc
run rc (none ∷ repos) = 2
run rc (some repo ∷ repos) = run (either_code rc (rc_of (check_repo repo))) repos

abbrev pub main_code : List (Option Repo) → ℕ
main_code repos = run 0 repos
