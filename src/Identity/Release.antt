-- ===== src/Identity/Release.antt =====
-- The artifact graph in scripts/resolve_service_identity.py, and whom a release must bump.
use ci_workflows.Base.{
  ℕ, ◌+◌, Bool, not, ◌&&◌, ◌||◌, Option, none, some, List, [], ◌∷◌, ◌++◌, ◌==◌, ltb, if◌then◌else◌,
  is_nil,
}
use ci_workflows.Base.Text.{Str, codes, str_eq, elem}
use ci_workflows.Base.Sorting.{str_leb, sorted}
use ci_workflows.ModulePins.{Dict, lookup}
use ci_workflows.Identity.{Block, or_text}

pub record Node : Type 0 where
  pub module_path : Option Str
  pub kind : Option Str
  pub repository : Block

-- The edge says that the first repository pins the second.
pub record Edge : Type 0 where
  pub from : Str
  pub to : Str

pub record Graph : Type 0 where
  pub nodes : Dict Node
  pub edges : List Edge
  pub release_order : List (List Str)
  pub unorderable : List Str
  pub consumers : Dict (List Str)

-- `load_artifact_graph` where the graph is not published
abbrev pub no_graph : Graph
no_graph = record { nodes = []; edges = []; release_order = []; unorderable = []; consumers = [] }

targets : Str → List Edge → List Str
targets repo_name [] = []
targets repo_name (e ∷ es) =
    let rest = targets repo_name es in if str_eq e.from repo_name then e.to ∷ rest else rest

-- What a repository pins; nothing where the graph does not model it.
unfoldable pub graph_pins : Graph → Str → Option (List Str)
unfolding targets
graph_pins g repo_name = elim (lookup repo_name g.nodes) [
  | none ↦ none
  | some n ↦ some (targets repo_name g.edges)
]

-- `level_of`: the last level that names the repository
level_from : ℕ → Str → List (List Str) → Option ℕ
level_from i name [] = none
level_from i name (level ∷ levels) =
    let later = level_from (i + 1) name levels in
    elim later [ some j ↦ some j | none ↦ if elem name level then some i else none ]

unfoldable pub level_of : Graph → Str → ℕ
unfolding level_from
level_of g name = elim (level_from 0 name g.release_order) [ none ↦ 0 | some i ↦ i ]

abbrev pub module_of : Option Node → Str
module_of none = []
module_of (some n) = or_text n.module_path []

-- `requires[name]`, in the order of the edges
requires_from : Graph → Str → List Edge → List Str
requires_from g name [] = []
requires_from g name (e ∷ es) =
    let rest = requires_from g name es in
    let path = module_of (lookup e.to g.nodes) in
    if str_eq e.from name && not (is_nil path) then path ∷ rest else rest

unfoldable pub requires : Graph → Str → List Str
unfolding requires_from
requires g name = requires_from g name g.edges

pub record Consumer : Type 0 where
  pub repository : Str
  pub kind : Option Str
  pub name : Str
  pub level : ℕ
  pub requires : List Str

-- `f"{x}"`, where x is a text or None
abbrev shown : Option Str → Str
shown none = codes "None"
shown (some s) = s

unfoldable pub consumer_of : Graph → Str → Node → Consumer
consumer_of g name n = record {
  repository = shown n.repository.organization ++ codes "/" ++ shown n.repository.name;
  kind = n.kind;
  name = name;
  level = level_of g name;
  requires = sorted (requires g name);
}

-- The two lists that the loop fills.
pub record Split : Type 0 where
  pub consumers : List Consumer
  pub withheld : List Str

abbrev pub is_unorderable : Graph → Str → Str → Bool
is_unorderable g repo_name name = elem name g.unorderable || elem repo_name g.unorderable

unfoldable pub split_consumers : Graph → Str → List Str → Split
split_consumers g repo_name [] = record { consumers = []; withheld = [] }
split_consumers g repo_name (name ∷ names) =
    let rest = split_consumers g repo_name names in
    elim (lookup name g.nodes) [
      | none ↦ rest
      | some target ↦
          if is_unorderable g repo_name name
          then record rest { withheld = name ∷ rest.withheld }
          else record rest { consumers = consumer_of g name target ∷ rest.consumers }
    ]

-- `(c["level"], c["repository"])`, compared
unfoldable pub consumer_leb : Consumer → Consumer → Bool
consumer_leb a b =
    ltb a.level b.level || ((a.level == b.level) && str_leb a.repository b.repository)

unfoldable pub insert_consumer : Consumer → List Consumer → List Consumer
insert_consumer c [] = c ∷ []
insert_consumer c (d ∷ ds) =
    let rest = insert_consumer c ds in if consumer_leb c d then c ∷ d ∷ ds else d ∷ rest

-- A stable sort.
unfoldable pub sort_consumers : List Consumer → List Consumer
sort_consumers [] = []
sort_consumers (c ∷ cs) = insert_consumer c (sort_consumers cs)

-- The JSON list of consumers is kept as the list that it holds.
pub record Targets : Type 0 where
  pub module_path : Str
  pub consumers : List Consumer
  pub unorderable_consumers : List Str

abbrev pub names_or_nil : Option (List Str) → List Str
names_or_nil none = []
names_or_nil (some names) = names

unfoldable pub resolve_release_targets : Str → Graph → Targets
resolve_release_targets repo_name g =
    let path = module_of (lookup repo_name g.nodes) in
    let split = split_consumers g repo_name (names_or_nil (lookup repo_name g.consumers)) in
    if is_nil path
    then record { module_path = []; consumers = []; unorderable_consumers = [] }
    else record {
      module_path = path;
      consumers = sort_consumers split.consumers;
      unorderable_consumers = sorted split.withheld;
    }
