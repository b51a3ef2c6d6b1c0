-- ===== src/Tests/Identities.antt =====
-- scripts/resolve_service_identity.py on a small catalog and a small artifact graph.
use ci_workflows.Base.{
  ℕ, true, false, not, ◌&&◌, Option, none, some, List, [], ◌∷◌, ◌++◌, ◌≡◌, refl, any,
}
use ci_workflows.Base.Text.{Str, codes, str_eq, elem, ends_with, strip}
use ci_workflows.Base.Sorting.{sort_by, str_leb}
use ci_workflows.ModulePins.{lookup}
use ci_workflows.Identity.{
  Block, Entry, Kind, topics, Catalog, renamed, unbound, set_default, get, bind, bind_service,
  bind_services, bind_artifacts, load_bindings, resolve_role, join_comma, stripped,
  resolve_allowed_topics, row_capabilities, resolve_capabilities, repo_ref,
  resolve_required_modules,
}
use ci_workflows.Identity.Release.{
  Node, Graph, no_graph, Consumer, graph_pins, level_of, requires, consumer_of, split_consumers,
  is_unorderable, consumer_leb, insert_consumer, sort_consumers, resolve_release_targets,
}
use ci_workflows.Identity.Resolve.{
  Facts, Resolution, unresolved, resolved, tier_coverage, repo_of, is_deployable, pins_its_core,
  upstream_of, facts_of, is_renamed, check_name, resolve_entry, resolve,
}
use ci_workflows.Identity.Bound.{IsIdentified, resolve-IsIdentified}
use ci_workflows.Identity.Order.{is_named, is_listed, resolve_release_targets-split}

abbrev block : Str → ℕ → Block
block name id = record { organization = some (codes "o"); name = some name; github_id = id }

abbrev no_block : Block
no_block = record { organization = none; name = none; github_id = 0 }

abbrev auth : Entry
auth = record {
  name = some (codes "auth-service");
  deployable_repository = block (codes "auth-service") 11;
  repository = block (codes "auth-core") 12;
  schema_repository = block (codes "auth-core-postgres") 13;
  service_tier = some (codes "tier-0");
  tier = none;
  language = some (codes "go");
  archetype = none;
  owner = none;
  publishes = true;
  consumes = false;
  rest = true;
  grpc = false;
  seeding_mechanism = false;
  database_mode = some (codes "owned");
  messaging_role = none;
  allowed_topics = topics [];
}

abbrev catalog : Catalog
catalog = record {
  services = some (auth ∷ []);
  artifacts = [];
  matrix = record { repo = some (codes "auth-service"); capabilities = codes "http" ∷ [] } ∷ [];
}

unfoldable resolve_open : ℕ
unfolding resolve resolve_entry check_name is_renamed facts_of upstream_of pins_its_core
    is_deployable repo_of tier_coverage resolve_release_targets sort_consumers insert_consumer
    consumer_leb split_consumers consumer_of requires level_of graph_pins resolve_required_modules
    repo_ref resolve_capabilities row_capabilities resolve_allowed_topics stripped join_comma
    resolve_role load_bindings bind_artifacts bind_services bind_service bind get set_default lookup
    sort_by str_leb any elem str_eq ends_with strip
resolve_open = 0

abbrev facts : Resolution → Option Facts
facts (unresolved why) = none
facts (resolved f) = some f

abbrev schema_facts : Facts
schema_facts = record {
  service = codes "auth-service";
  repo_kind = Kind.schema;
  upstream_module = codes "github.com/o/auth-core";
  required_modules = codes "github.com/o/auth-core" ∷ [];
  targets = record { module_path = []; consumers = []; unorderable_consumers = [] };
  language = codes "go";
  archetype = codes "unresolved";
  tier = codes "tier-0";
  owner = codes "unknown";
  deployable = false;
  owns_database = true;
  seeds = false;
  has_rest = true;
  has_grpc = false;
  has_events = true;
  coverage_threshold = codes "70";
  role = codes "P";
  allowed_topics = [];
  capabilities = [];
}

schema_resolved :
    resolve catalog no_graph (codes "o/auth-core-postgres") 13 [] ≡ resolved schema_facts
unfolding resolve_open
schema_resolved = refl

resolve-IsIdentified_example :
    IsIdentified catalog 13 (repo_of (codes "o/auth-core-postgres")) schema_facts
resolve-IsIdentified_example =
    resolve-IsIdentified catalog no_graph (codes "o/auth-core-postgres") 13 [] schema_facts
      schema_resolved

-- A repository that takes another's name, and one that nothing binds.
renamed_test :
    resolve catalog no_graph (codes "o/order-service") 11 []
    ≡ unresolved (renamed 11 (codes "auth-service") (codes "order-service"))
unfolding resolve_open
renamed_test = refl

unbound_test :
    resolve catalog no_graph (codes "o/auth-service") 14 []
    ≡ unresolved (unbound 14 (codes "o/auth-service"))
unfolding resolve_open
unbound_test = refl

abbrev node : Str → Str → Node
node path name = record {
  module_path = some path;
  kind = some (codes "core");
  repository = block name 1;
}

-- The shared library, a core that pins it, and the service that pins both; one repository is in a
-- cycle, and one is not modelled.
abbrev graph : Graph
graph = record {
  nodes =
      (codes "shared", node (codes "x.io/shared") (codes "shared"))
      ∷ (codes "svc", node [] (codes "svc"))
      ∷ (codes "core", node (codes "x.io/core") (codes "core"))
      ∷ (codes "loop", node (codes "x.io/loop") (codes "loop"))
      ∷ [];
  edges =
      record { from = codes "core"; to = codes "shared" }
      ∷ record { from = codes "svc"; to = codes "shared" }
      ∷ record { from = codes "svc"; to = codes "core" }
      ∷ [];
  release_order = (codes "shared" ∷ []) ∷ (codes "core" ∷ []) ∷ (codes "svc" ∷ []) ∷ [];
  unorderable = codes "loop" ∷ [];
  consumers = (codes "shared", codes "svc" ∷ codes "loop" ∷ codes "gone" ∷ codes "core" ∷ []) ∷ [];
}

abbrev consumer : Str → ℕ → List Str → Consumer
consumer name level pins = record {
  repository = codes "o/" ++ name;
  kind = some (codes "core");
  name = name;
  level = level;
  requires = pins;
}

targets_test : resolve_release_targets (codes "shared") graph ≡ record {
  module_path = codes "x.io/shared";
  consumers =
      consumer (codes "core") 1 (codes "x.io/shared" ∷ [])
      ∷ consumer (codes "svc") 2 (codes "x.io/core" ∷ codes "x.io/shared" ∷ [])
      ∷ [];
  unorderable_consumers = codes "loop" ∷ [];
}
unfolding resolve_open
targets_test = refl

resolve_release_targets-split_example :
    let t = resolve_release_targets (codes "shared") graph in
    (any (is_named (codes "loop")) t.consumers ≡ (
      is_listed (codes "shared") graph (codes "loop")
      && not (is_unorderable graph (codes "shared") (codes "loop"))))
    × (elem (codes "loop") t.unorderable_consumers ≡ (
        is_listed (codes "shared") graph (codes "loop")
        && is_unorderable graph (codes "shared") (codes "loop")))
resolve_release_targets-split_example =
    resolve_release_targets-split (codes "shared") graph (codes "loop")
      (unfold resolve_open in refl)

-- The schema module of a core that it pins.
abbrev pin_graph : Graph
pin_graph = record no_graph {
  nodes = (codes "auth-core-postgres", node [] (codes "auth-core-postgres")) ∷ [];
  edges = record { from = codes "auth-core-postgres"; to = codes "auth-core" } ∷ [];
}

pins_resolved :
    resolve catalog pin_graph (codes "o/auth-core-postgres") 13 [] ≡ resolved schema_facts
unfolding resolve_open
pins_resolved = refl

core_pinned :
    graph_pins pin_graph (repo_of (codes "o/auth-core-postgres")) ≡ some (codes "auth-core" ∷ [])
unfolding resolve_open
core_pinned = refl
