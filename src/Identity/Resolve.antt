-- ===== src/Identity/Resolve.antt =====
-- `resolve` and `main` of scripts/resolve_service_identity.py.
use ci_workflows.Base.{
  ℕ, Bool, true, false, not, ◌&&◌, ◌||◌, Option, none, some, List, [], ◌∷◌, ◌==◌, if◌then◌else◌,
  is_nil, any,
}
use ci_workflows.Base.Text.{Str, codes, str_eq, elem, ends_with}
use ci_workflows.Identity.{
  Entry, Kind, deployable, schema, unknown, Bindings, get, Catalog, Why, no_catalog, no_environment,
  unbound, renamed, no_capabilities, other_service, load_bindings, or_text, resolve_role,
  join_comma, resolve_allowed_topics, is_value, resolve_capabilities, repo_ref, github,
  resolve_required_modules,
}
use ci_workflows.Identity.Release.{Graph, graph_pins, Targets, resolve_release_targets}

-- What `resolve` returns. A Boolean is printed in lower case.
pub record Facts : Type 0 where
  pub service : Str
  pub repo_kind : Kind
  pub upstream_module : Str
  pub required_modules : List Str
  pub targets : Targets
  pub language : Str
  pub archetype : Str
  pub tier : Str
  pub owner : Str
  pub deployable : Bool
  pub owns_database : Bool
  pub seeds : Bool
  pub has_rest : Bool
  pub has_grpc : Bool
  pub has_events : Bool
  pub coverage_threshold : Str
  pub role : Str
  pub allowed_topics : Str
  pub capabilities : Str

pub data Resolution : Type 0 where
  unresolved : Why → Resolution
  resolved : Facts → Resolution

-- `TIER_COVERAGE.get(tier, DEFAULT_COVERAGE)`
unfoldable pub tier_coverage : Str → Str
tier_coverage tier =
    if str_eq tier (codes "tier-0")
    then codes "70"
    else if str_eq tier (codes "tier-1")
    then codes "60"
    else codes "50"

-- `repo_full.split("/", 1)[1] if "/" in repo_full else repo_full`
behind_slash : Str → Option Str
behind_slash [] = none
behind_slash (c ∷ s) = let rest = behind_slash s in if c == b'/' then some s else rest

unfoldable pub repo_of : Str → Str
unfolding behind_slash
repo_of repo_full = elim (behind_slash repo_full) [ none ↦ repo_full | some repo ↦ repo ]

-- `x or d1 or d2`
abbrev pub or_either : Option Str → Option Str → Str → Str
or_either x y d = or_text x (or_text y d)

-- `expected.get(repo_id, (None, "unknown"))`
abbrev pub expected_of : Option (Option Str × Kind) → Option Str × Kind
expected_of none = (none, unknown)
expected_of (some want) = want

abbrev pub deployable_suffixes : List Str
deployable_suffixes = codes "-service" ∷ codes "-gateway" ∷ codes "-bff" ∷ []

unfoldable pub is_deployable : Kind → Str → Bool
is_deployable deployable name = true
is_deployable unknown name = any (λ suffix. ends_with suffix name) deployable_suffixes
is_deployable _ name = false

abbrev pub in_pins : Option Str → List Str → Bool
in_pins none pins = false
in_pins (some name) pins = elem name pins

-- The graph's answer, and the catalog's shape where the graph has none.
unfoldable pub pins_its_core : Entry → Option (List Str) → Bool
pins_its_core e none = not (is_nil (repo_ref e.repository))
pins_its_core e (some pins) = in_pins e.repository.name pins

abbrev pub is_schema : Kind → Bool
is_schema schema = true
is_schema _ = false

unfoldable pub upstream_of : Entry → Kind → Option (List Str) → Str
upstream_of e kind pins =
    let core_ref = repo_ref e.repository in
    if is_schema kind && (not (is_nil core_ref) && pins_its_core e pins)
    then github core_ref
    else []

-- `resolve` behind the test of the name
unfoldable pub facts_of : Catalog → Graph → Str → Str → Entry → Option Str → Kind → Resolution
facts_of c g repo coverage_override e want kind =
    let has_events = e.publishes || e.consumes in
    let owns_db = is_value e.database_mode (codes "owned") in
    let tier = or_either e.service_tier e.tier (codes "unknown") in
    let name = or_text want repo in
    let ships = is_deployable kind name in
    elim (resolve_capabilities c name ships) [
      | none ↦ unresolved (no_capabilities name)
      | some caps ↦ resolved (record {
        service = or_text e.name repo;
        repo_kind = kind;
        upstream_module = upstream_of e kind (graph_pins g repo);
        required_modules = resolve_required_modules e kind;
        targets = resolve_release_targets repo g;
        language = or_text e.language (codes "unknown");
        archetype = or_text e.archetype (codes "unresolved");
        tier = tier;
        owner = or_text e.owner (codes "unknown");
        deployable = ships;
        owns_database = owns_db;
        seeds = e.seeding_mechanism;
        has_rest = e.rest;
        has_grpc = e.grpc;
        has_events = has_events;
        coverage_threshold =
            if is_nil coverage_override then tier_coverage tier else coverage_override;
        role = resolve_role e has_events owns_db;
        allowed_topics = resolve_allowed_topics e;
        capabilities = join_comma caps;
      })
    ]

-- `want and want != repo`
unfoldable pub is_renamed : Option Str → Str → Bool
is_renamed none repo = false
is_renamed (some want) repo = not (is_nil want) && not (str_eq want repo)

unfoldable pub check_name : Catalog → Graph → Str → ℕ → Str → Entry → Option Str × Kind → Resolution
check_name c g repo repo_id coverage_override e (want, kind) =
    if is_renamed want repo
    then unresolved (renamed repo_id (or_text want []) repo)
    else facts_of c g repo coverage_override e want kind

unfoldable pub resolve_entry :
    Catalog → Graph → Str → ℕ → Str → Bindings → Option Entry → Resolution
resolve_entry c g repo_full repo_id coverage_override m none =
    unresolved (unbound repo_id repo_full)
resolve_entry c g repo_full repo_id coverage_override m (some e) =
    check_name c g (repo_of repo_full) repo_id coverage_override e
      (expected_of (get repo_id m.expected))

unfoldable pub resolve : Catalog → Graph → Str → ℕ → Str → Resolution
resolve c g repo_full repo_id coverage_override = elim (load_bindings c) [
  | none ↦ unresolved no_catalog
  | some m ↦ resolve_entry c g repo_full repo_id coverage_override m (get repo_id m.by_id)
]

abbrev pub assert_facts : Str → Facts → Resolution
assert_facts service f =
    if not (is_nil service) && not (str_eq service f.service)
    then unresolved (other_service service f.service)
    else resolved f

abbrev assert_service : Str → Resolution → Resolution
assert_service service (unresolved why) = unresolved why
assert_service service (resolved f) = assert_facts service f

-- What `main` writes, by the environment: the repository, its id as a number, and the override. No
-- repository is the empty text.
unfoldable pub main_facts : Catalog → Graph → Str → Option ℕ → Str → Str → Resolution
main_facts c g repo_full none coverage_override service = unresolved no_environment
main_facts c g repo_full (some repo_id) coverage_override service =
    if is_nil repo_full
    then unresolved no_environment
    else assert_service service (resolve c g repo_full repo_id coverage_override)
