-- ===== src/Tests/Pins.antt =====
-- scripts/check_module_pins.py on a small go.mod.
use ci_workflows.Base.{ℕ, true, false, some, List, [], ◌∷◌, ◌≡◌, refl, any, All}
use ci_workflows.Base.Text.{
  Str, codes, str_eq, elem, starts_with, has_sub, strip, words, splitlines, split_on,
}
use ci_workflows.Base.Sorting.{sort_by}
use ci_workflows.Version.{semver, is_stable, is_pseudo, read_triple, triple_ltb}
use ci_workflows.ModulePins.{
  Floor, lookup, insert, Parsed, before_comment, on_entry, on_line, parse_lines, parse_go_mod,
}
use ci_workflows.ModulePins.GoMod.{replaces}
use ci_workflows.ModulePins.Check.{
  Policy, binds, describe, compare_floor, check_floor, check_version, well_formed, check_required,
  check_modules, check_governed, check_parsed, is_governed,
}
use ci_workflows.ModulePins.Check.Sound.{IsPinned, check_parsed-IsPinned}

abbrev go_mod : Str
go_mod =
    codes
      "module x.io/app\n\nrequire (\n\tx.io/core v1.4.0\n\tx.io/dep v0.1.0 // indirect\n)\nrequire x.io/log v2.0.1 // for logs\nreplace x.io/other => ../other\n"

abbrev parsed : Parsed
parsed = record {
  requires = (codes "x.io/core", codes "v1.4.0") ∷ (codes "x.io/log", codes "v2.0.1") ∷ [];
  replaced = codes "x.io/other" ∷ [];
}

unfoldable parse_open : ℕ
unfolding parse_go_mod parse_lines on_line on_entry before_comment insert lookup elem any str_eq
    starts_with has_sub strip words splitlines split_on
parse_open = 0

parse_test : parse_go_mod go_mod ≡ parsed
unfolding parse_open
parse_test = refl

log_required : lookup (codes "x.io/log") (parse_go_mod go_mod).requires ≡ some (codes "v2.0.1")
unfolding parse_open
log_required = refl

other_replaced : any (replaces (codes "x.io/other")) (splitlines go_mod) ≡ true
unfolding parse_open
other_replaced = refl

-- The release branches ask for v1.3.0 of the core everywhere, and for a later log in gateways.
abbrev policy : Policy
policy = record {
  strict = true;
  floor_of =
      (codes "x.io/core", record { minimum = codes "v1.3.0"; applies_to = [] })
      ∷ (codes "x.io/log", record { minimum = codes "v3.0.0"; applies_to = codes "gateway" })
      ∷ [];
  role = codes "service";
}

unfoldable check_open : ℕ
unfolding check_parsed check_modules check_required check_governed well_formed check_version
    check_floor compare_floor describe semver is_stable is_pseudo read_triple triple_ltb sort_by
    parse_open
check_open = 0

abbrev required : List Str
required = codes "x.io/core" ∷ []

no_errors : (check_parsed policy parsed (codes "x.io/") required).errors ≡ []
unfolding check_open
no_errors = refl

check_parsed-IsPinned_example : All (IsPinned policy parsed) required
check_parsed-IsPinned_example =
    check_parsed-IsPinned policy parsed (codes "x.io/") required no_errors

log-is_governed : is_governed (codes "x.io/") required (codes "x.io/log") ≡ true
unfolding check_open
log-is_governed = refl

log-lookup : lookup (codes "x.io/log") parsed.requires ≡ some (codes "v2.0.1")
unfolding check_open
log-lookup = refl

abbrev gateway_floor : Floor
gateway_floor = record { minimum = codes "v3.0.0"; applies_to = codes "gateway" }

gateway_floor-declared : lookup (codes "x.io/log") policy.floor_of ≡ some gateway_floor
unfolding check_open
gateway_floor-declared = refl

gateway_floor-not-binds : binds policy gateway_floor ≡ false
unfolding check_open
gateway_floor-not-binds = refl
