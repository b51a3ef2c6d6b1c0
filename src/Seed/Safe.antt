-- ===== src/Seed/Safe.antt =====
-- When scripts/check-seed-contract.py passes a repository that ships its seed data.
use ci_workflows.Base.{true, false, Option, none, some, ◌≡◌, ◌⊎◌, All}
use ci_workflows.Base.Text.{Str, codes, elem, has_sub, lower}
use ci_workflows.Seed.{
  Value, Row, no_object, object, Json, invalid, no_list, rows, is_nested, is_literal,
  is_indirection, is_secret, safe_qualified_labels,
}
use ci_workflows.Seed.Guard.{assigns_empty}

-- A flat value that is bound by the environment and no literal, or a label that names no secret.
abbrev pub IsSafe : Str × Value → Type 0
IsSafe (key, value) =
    (is_nested value ≡ false)
    × (((is_indirection key ≡ true) × (is_literal value ≡ false))
        ⊎ ((is_indirection key ≡ false)
            × ((is_secret key ≡ false) × (elem (lower key) safe_qualified_labels ≡ true))))

abbrev pub IsSafeRow : Row → Type 0
IsSafeRow no_object = ⊥
IsSafeRow (object fields) = All IsSafe fields

abbrev pub IsSafeFile : Str × Json → Type 0
IsSafeFile (rel, invalid) = ⊥
IsSafeFile (rel, no_list) = ⊥
IsSafeFile (rel, rows rs) = All IsSafeRow rs

-- The deploy workflow does not turn seeding off.
abbrev pub IsSeeding : Option Str → Type 0
IsSeeding none = Unit
IsSeeding (some text) = (assigns_empty text ≡ false) ⊎ (has_sub (codes "SEED_BINARY") text ≡ true)
