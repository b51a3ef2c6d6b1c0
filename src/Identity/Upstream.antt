-- ===== src/Identity/Upstream.antt =====
-- The upstream module in scripts/resolve_service_identity.py: what a release of a repository waits
-- for.
use ci_workflows.Base.{
  ℕ, true, not, ◌&&◌, Option, some, List, [], ◌≡◌, ◌≢◌, refl, arith, is_nil, Bool-cases,
  Option-cases, inl, inr,
}
use ci_workflows.Base.Text.{Str}
use ci_workflows.Identity.{
  Block, Entry, Kind, schema, get, Catalog, load_bindings, resolve_capabilities, repo_ref, github,
}
use ci_workflows.Identity.Release.{Graph, graph_pins}
use ci_workflows.Identity.Resolve.{
  Facts, resolved, repo_of, expected_of, in_pins, pins_its_core, is_schema, upstream_of, facts_of,
  check_name, resolve_entry, resolve,
}

-- The core that the repository waits for, which it pins.
pub record IsUpstream (f : Facts) (pins : List Str) : Type 0 where
  pub is_schema_module : f.repo_kind ≡ schema
  pub core : Block
  pub named : f.upstream_module ≡ github (repo_ref core)
  pub pinned : in_pins core.name pins ≡ true

is_schema_lem : (kind : Kind) → is_schema kind ≡ true → kind ≡ schema
is_schema_lem schema h = refl
is_schema_lem Kind.deployable h = cc
is_schema_lem Kind.core h = cc
is_schema_lem Kind.shared_library h = cc
is_schema_lem Kind.unknown h = cc

upstream_of_lem :
    (e : Entry) (kind : Kind) (pins : List Str)
    → upstream_of e kind (some pins) ≢ []
    → (kind ≡ schema)
      × (upstream_of e kind (some pins) ≡ github (repo_ref e.repository))
      × (in_pins e.repository.name pins ≡ true)
unfolding upstream_of pins_its_core
upstream_of_lem e kind pins h =
    elim (Bool-cases (
      is_schema kind && (not (is_nil (repo_ref e.repository)) && in_pins e.repository.name pins))) [
        | inr off ↦ absurd (h (ground (arith, off)))
        | inl on ↦ (is_schema_lem kind (ground (arith, on)), ground (arith, on), ground (arith, on))
      ]

facts_of-upstream :
    (c : Catalog) (g : Graph) (repo o : Str) (e : Entry) (want : Option Str) (kind : Kind)
    (f : Facts)
    → facts_of c g repo o e want kind ≡ resolved f
    → (f.repo_kind ≡ kind) × (f.upstream_module ≡ upstream_of e kind (graph_pins g repo))
unfolding facts_of resolve_capabilities
facts_of-upstream c g repo o e want kind f h = ground arith

-- Facts come from an entry of the catalog.
resolve-facts_of :
    (c : Catalog) (g : Graph) (repo_full : Str) (id : ℕ) (o : Str) (f : Facts)
    → resolve c g repo_full id o ≡ resolved f
    → (e : Entry) × (want : Option Str) × (kind : Kind) × (facts_of c g
          (repo_of repo_full)
          o
          e
          want
          kind
        ≡ resolved f)
unfolding resolve resolve_entry check_name
resolve-facts_of c g repo_full id o f h = elim (Option-cases (load_bindings c)) [
  | inl absent ↦ absurd (ground (arith, absent, h))
  | inr (m, e) ↦ (elim (Option-cases (get id m.by_id)) [
    | inl unbound ↦ absurd (ground (arith, e, unbound, h))
    | inr (entry, e') ↦
        let want = expected_of (get id m.expected) in
        (entry, want.0, want.1, ground (arith, e, e', h))
  ])
]

-- A release waits only for what its repository pins: of a repository that the graph models, an
-- upstream module is named only where it is a schema module, and then it is the core of an entry that
-- the repository pins by the graph.
resolve-IsUpstream :
    (c : Catalog) (g : Graph) (repo_full : Str) (id : ℕ) (coverage_override : Str) (f : Facts)
    (pins : List Str)
    → resolve c g repo_full id coverage_override ≡ resolved f
    → graph_pins g (repo_of repo_full) ≡ some pins
    → f.upstream_module ≢ []
    → IsUpstream f pins
resolve-IsUpstream c g repo_full id o f pins h p given =
    let (e, want, kind, facts) = resolve-facts_of c g repo_full id o f h in
    let (same_kind, upstream) = facts_of-upstream c g (repo_of repo_full) o e want kind f facts in
    let known : f.upstream_module ≡ upstream_of e kind (some pins) = ground (arith, upstream, p) in
    let (is_schema_kind, named, pinned) =
      upstream_of_lem e kind pins (λ none_named. given (ground (arith, known, none_named))) in
    record {
      is_schema_module = ground (arith, same_kind, is_schema_kind);
      core = e.repository;
      named = ground (arith, known, named);
      pinned = pinned;
    }
