-- ===== src/Seed/Reference.antt =====
-- `ssot_seed_files`, `_natural_key` and `check_reference_data_integrity` of
-- scripts/check-seed-contract.py.
use ci_workflows.Base.{
  ℕ, suc, Bool, true, false, ◌&&◌, Option, none, some, List, [], ◌∷◌, ◌++◌, if◌then◌else◌,
}
use ci_workflows.Base.Text.{Str, codes, str_eq, elem, strip, lower}
use ci_workflows.Seed.{
  Value, string, whole, scalar, nested, Row, no_object, object, Json, invalid, no_list, rows,
  DataDir, files_of, json_in, matching,
}

abbrev pub natural_key_fields : List Str
natural_key_fields = codes "code" ∷ codes "slug" ∷ codes "key" ∷ codes "name" ∷ codes "id" ∷ []

-- A text or a number, as `str` gives it.
abbrev pub key_text : Value → Option Str
key_text (string s) = some s
key_text (whole s) = some s
key_text scalar = none
key_text nested = none

abbrev pub or_key : Option (Str × Str) → Option (Str × Str) → Option (Str × Str)
or_key none k = k
or_key (some j) k = some j

abbrev pub key_of : Str → Bool → Option Str → Option (Str × Str)
key_of field false v = none
key_of field true none = none
key_of field true (some s) = some (field, lower (strip s))

unfoldable pub key_in : Str → List (Str × Value) → Option (Str × Str)
unfolding lower strip str_eq
key_in field [] = none
key_in field ((k, v) ∷ fields) =
    or_key (key_of field (str_eq (lower k) field) (key_text v)) (key_in field fields)

unfoldable pub first_key : List Str → List (Str × Value) → Option (Str × Str)
unfolding key_in
first_key [] fields = none
first_key (field ∷ more) fields = or_key (key_in field fields) (first_key more fields)

unfoldable pub natural_key : List (Str × Value) → Option (Str × Str)
unfolding first_key
natural_key = first_key natural_key_fields

pub data Notice : Type 0 where
  invalid_data : Str → Notice
  no_row : Str → ℕ → Notice
  -- the index, the key, and the index at which it was seen first
  duplicate : Str → ℕ → Str × Str → ℕ → Notice

abbrev pub same_key : Str × Str → Str × Str → Bool
same_key (f, k) (g, l) = str_eq f g && str_eq k l

unfoldable pub seen_at : Str × Str → List ((Str × Str) × ℕ) → Option ℕ
unfolding str_eq
seen_at k [] = none
seen_at k ((j, i) ∷ seen) = let rest = seen_at k seen in if same_key k j then some i else rest

unfoldable pub row_notices : Str → ℕ → List ((Str × Str) × ℕ) → List Row → List Notice
unfolding natural_key seen_at
row_notices rel i seen [] = []
row_notices rel i seen (no_object ∷ rs) = no_row rel i ∷ row_notices rel (suc i) seen rs
row_notices rel i seen (object fields ∷ rs) = elim (natural_key fields) [
  | none ↦ row_notices rel (suc i) seen rs
  | some k ↦ elim (seen_at k seen) [
    | none ↦ row_notices rel (suc i) ((k, i) ∷ seen) rs
    | some first ↦ duplicate rel i k first ∷ row_notices rel (suc i) seen rs
  ]
]

unfoldable pub file_notices : Str → Json → List Notice
unfolding row_notices
file_notices rel invalid = invalid_data rel ∷ []
file_notices rel no_list = []
file_notices rel (rows rs) = row_notices rel 0 [] rs

-- `f not in seen`, on the paths
unfoldable pub ordered : List Str → List (Str × Json) → List (Str × Json)
unfolding elem
ordered seen [] = []
ordered seen ((n, j) ∷ files) =
    let again = ordered seen files in
    let fresh = ordered (n ∷ seen) files in if elem n seen then again else (n, j) ∷ fresh

unfoldable pub ssot_seed_files : DataDir → List (Str × Json)
unfolding ordered files_of matching
ssot_seed_files d = ordered [] (
    json_in d (codes "system")
    ++ (matching (codes ".common.json") d.files ++ matching (codes ".system.json") d.files))

unfoldable pub files_notices : List (Str × Json) → List Notice
unfolding file_notices
files_notices [] = []
files_notices ((rel, json) ∷ files) = file_notices rel json ++ files_notices files

unfoldable pub check_reference_data_integrity : DataDir → List Notice
unfolding files_notices ssot_seed_files
check_reference_data_integrity d = files_notices (ssot_seed_files d)
