-- ===== src/Seed.antt =====
-- scripts/check-seed-contract.py: the fields of seed files for qualified environments, and the parts
-- of a repository that the guard reads. JSON files are read into the types below.
pub mod Reference
pub mod Guard
pub mod Mentioned
pub mod Safe
pub mod Rows
use ci_workflows.Base.{
  ℕ, zero, suc, Bool, true, false, not, ◌&&◌, ◌||◌, Option, none, some, List, [], ◌∷◌, ◌++◌, ◌==◌,
  leb, if◌then◌else◌, is_nil, any, all, filter, map,
}
use ci_workflows.Base.Text.{
  Str, codes, str_eq, elem, is_space, strip, ends_with, starts_with, has_sub, lower,
}
use ci_workflows.Base.Sorting.{sort_by}
use ci_workflows.Regex.{Regex, alt, text, search}

abbrev pub canonical_subdirs : List Str
canonical_subdirs =
    codes "system" ∷ codes "dev" ∷ codes "staging" ∷ codes "preprod" ∷ codes "prod" ∷ []

abbrev pub qualified_envs : List Str
qualified_envs = codes "staging" ∷ codes "preprod" ∷ codes "prod" ∷ []

abbrev pub safe_qualified_labels : List Str
safe_qualified_labels =
    codes "comment"
    ∷ codes "name"
    ∷ codes "description"
    ∷ codes "role"
    ∷ codes "roleslug"
    ∷ codes "slug"
    ∷ codes "key"
    ∷ codes "allowmissing"
    ∷ codes "optional"
    ∷ codes "enabled"
    ∷ codes "order"
    ∷ codes "priority"
    ∷ codes "type"
    ∷ codes "kind"
    ∷ []

-- `SECRET_FIELD_RE`
abbrev pub secret_words : Regex
secret_words = alt (text (codes "password")) (
    alt (text (codes "passwd")) (
      alt (text (codes "pwd")) (
        alt (text (codes "secret")) (
          alt (text (codes "token")) (
            alt (text (codes "apikey")) (
              alt (text (codes "api_key")) (
                alt (text (codes "access_key")) (
                  alt (text (codes "privatekey")) (
                    alt (text (codes "private_key")) (
                      alt (text (codes "credential"))
                        (alt (text (codes "salt")) (text (codes "signingkey")))))))))))))

abbrev pub is_found : Option Str → Bool
is_found none = false
is_found (some s) = true

unfoldable pub is_secret : Str → Bool
unfolding search
is_secret key = is_found (search secret_words key)

abbrev pub is_hex_digit : ℕ → Bool
is_hex_digit c = (leb 48 c && leb c 57) || ((leb 97 c && leb c 102) || (leb 65 c && leb c 70))

-- `[0-9a-fA-F]{n}`
unfoldable pub hex_run : ℕ → (Str → Bool) → Str → Bool
hex_run zero test s = test s
hex_run (suc n) test [] = false
hex_run (suc n) test (c ∷ s) = is_hex_digit c && hex_run n test s

unfoldable pub dash : (Str → Bool) → Str → Bool
dash test [] = false
dash test (c ∷ s) = (c == 45) && test s

-- `LITERAL_UUID_RE.match`, on a text without white space at its end
unfoldable pub is_uuid : Str → Bool
unfolding hex_run dash
is_uuid =
    hex_run 8 (dash (hex_run 4 (dash (hex_run 4 (dash (hex_run 4 (dash (hex_run 12 is_nil))))))))

-- A value: a text; an `int` or a Boolean, by its `str`; a float or null; an object or a list.
pub data Value : Type 0 where
  string whole : Str → Value
  scalar nested : Value

pub data Row : Type 0 where
  no_object : Row
  object : List (Str × Value) → Row

pub data Json : Type 0 where
  invalid no_list : Json
  rows : List Row → Json

-- Why a field is illegal.
pub data Fault : Type 0 where
  secret_bearing nested_value literal_indirection literal_data : Str → Fault

abbrev pub is_nested : Value → Bool
is_nested (string s) = false
is_nested (whole s) = false
is_nested scalar = false
is_nested nested = true

-- `isinstance(value, str) and ("@" in value or LITERAL_UUID_RE.match(value.strip()))`
unfoldable pub is_literal : Value → Bool
unfolding has_sub is_uuid strip
is_literal (string s) = has_sub (codes "@") s || is_uuid (strip s)
is_literal (whole s) = false
is_literal scalar = false
is_literal nested = false

abbrev pub is_indirection : Str → Bool
is_indirection key = ends_with (codes "Env") key || ends_with (codes "Ref") key

unfoldable pub qualified_field_violation : Str → Value → Option Fault
unfolding is_secret is_literal elem lower ends_with
qualified_field_violation key value =
    if is_secret key && not (is_indirection key)
    then some (secret_bearing key)
    else if is_nested value
    then some (nested_value key)
    else if is_indirection key
    then (if is_literal value then some (literal_indirection key) else none)
    else if elem (lower key) safe_qualified_labels
    then none
    else some (literal_data key)

-- The seed data directory: its subdirectories with their files, and its own files.
pub record DataDir : Type 0 where
  pub subs : List (Str × List (Str × Json))
  pub files : List (Str × Json)

-- The files of a subdirectory, where it is there.
unfoldable pub files_of : Str → List (Str × List (Str × Json)) → Option (List (Str × Json))
files_of name [] = none
files_of name ((n, files) ∷ subs) =
    let rest = files_of name subs in if str_eq n name then some files else rest

-- `sorted(d.glob("*SUFFIX"))`
unfoldable pub matching : Str → List (Str × Json) → List (Str × Json)
unfolding filter sort_by ends_with
matching suffix files = sort_by (λ (n, j). n) (filter (λ (n, j). ends_with suffix n) files)

-- `d.glob("*.json")`, with the name of the directory
abbrev pub json_in : DataDir → Str → List (Str × Json)
json_in d name = elim (files_of name d.subs) [
  | none ↦ []
  | some files ↦ map (λ (n, j). (name ++ b'/' ∷ n, j)) (matching (codes ".json") files)
]

abbrev pub env_suffix : Str → Str
env_suffix env = b'.' ∷ env ++ codes ".json"

unfoldable pub env_files : DataDir → List Str → List (Str × Json)
unfolding files_of matching
env_files d [] = []
env_files d (env ∷ envs) = (json_in d env ++ matching (env_suffix env) d.files) ++ env_files d envs

unfoldable pub qualified_env_files : DataDir → List (Str × Json)
unfolding env_files
qualified_env_files d = env_files d qualified_envs
