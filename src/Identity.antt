-- ===== src/Identity.antt =====
-- scripts/resolve_service_identity.py: which service a repository is, by the platform's catalog. The
-- YAML and JSON files of the catalog are read into the types below; a missing block and an empty one
-- are the same there, as in the script.
pub mod Release
pub mod Resolve
pub mod Bound
pub mod Order
pub mod Upstream
use ci_workflows.Base.{
  ℕ, Bool, true, false, not, ◌&&◌, ◌||◌, Option, none, some, List, [], ◌∷◌, ◌++◌, ◌==◌,
  if◌then◌else◌, is_nil, any, filter,
}
use ci_workflows.Base.Text.{Str, codes, str_eq, elem, strip, ends_with}

-- A repository of an entry. No id is 0.
pub record Block : Type 0 where
  pub organization : Option Str
  pub name : Option Str
  pub github_id : ℕ

-- `messaging.allowedTopics`: a text, or a list of texts; nothing is the empty list.
pub data Topics : Type 0 where
  one_topic : Str → Topics
  topics : List Str → Topics

-- A file of catalog/services or catalog/artifacts. The flags are whether a field has a value that
-- counts.
pub record Entry : Type 0 where
  pub name : Option Str
  pub deployable_repository : Block
  pub repository : Block
  pub schema_repository : Block
  pub service_tier : Option Str
  pub tier : Option Str
  pub language : Option Str
  pub archetype : Option Str
  pub owner : Option Str
  pub publishes : Bool
  pub consumes : Bool
  pub rest : Bool
  pub grpc : Bool
  pub seeding_mechanism : Bool
  pub database_mode : Option Str
  pub messaging_role : Option Str
  pub allowed_topics : Topics

pub data Kind : Type 0 where
  deployable core schema shared_library unknown : Kind

-- `mapping.setdefault(key, value)`, and `mapping.get(key)`
unfoldable pub set_default : {A : Type 0} → ℕ → A → List (ℕ × A) → List (ℕ × A)
set_default k v [] = (k, v) ∷ []
set_default k v ((j, w) ∷ d) = if j == k then (j, w) ∷ d else (j, w) ∷ set_default k v d

unfoldable pub get : {A : Type 0} → ℕ → List (ℕ × A) → Option A
get k [] = none
get k ((j, v) ∷ d) = if j == k then some v else get k d

-- `by_id` and `expected`
pub record Bindings : Type 0 where
  pub by_id : List (ℕ × Entry)
  pub expected : List (ℕ × (Option Str × Kind))

abbrev pub no_bindings : Bindings
no_bindings = record { by_id = []; expected = [] }

-- A block with an id binds it, unless it is bound.
unfoldable pub bind : Entry → Block → Kind → Bindings → Bindings
bind e b kind m = if b.github_id == 0 then m else record {
  by_id = set_default b.github_id e m.by_id;
  expected = set_default b.github_id (b.name, kind) m.expected;
}

unfoldable pub bind_service : Entry → Bindings → Bindings
bind_service e m =
    bind e e.schema_repository schema
      (bind e e.repository core (bind e e.deployable_repository deployable m))

unfoldable pub bind_services : List Entry → Bindings → Bindings
bind_services [] m = m
bind_services (e ∷ es) m = bind_services es (bind_service e m)

unfoldable pub bind_artifacts : List Entry → Bindings → Bindings
bind_artifacts [] m = m
bind_artifacts (e ∷ es) m = bind_artifacts es (bind e e.repository shared_library m)

-- A row of the capability matrix.
pub record Row : Type 0 where
  pub repo : Option Str
  pub capabilities : List Str

-- The two folders in the order of their file names, and the matrix; without the folder of services
-- there is no catalog.
pub record Catalog : Type 0 where
  pub services : Option (List Entry)
  pub artifacts : List Entry
  pub matrix : List Row

-- `Unresolved`, by its message.
pub data Why : Type 0 where
  no_catalog no_environment : Why
  unbound : ℕ → Str → Why
  renamed : ℕ → Str → Str → Why
  no_capabilities : Str → Why
  other_service : Str → Str → Why

unfoldable pub load_bindings : Catalog → Option Bindings
load_bindings c = elim c.services [
  | none ↦ none
  | some es ↦ some (bind_artifacts c.artifacts (bind_services es no_bindings))
]

-- `x or default`, for a text that may be missing
abbrev pub or_text : Option Str → Str → Str
or_text none d = d
or_text (some s) d = if is_nil s then d else s

unfoldable pub resolve_role : Entry → Bool → Bool → Str
resolve_role e has_events owns_db =
    or_text e.messaging_role
      (if not has_events then codes "E" else if owns_db then codes "P" else codes "DK")

-- `",".join(xs)`
unfoldable pub join_comma : List Str → Str
join_comma [] = []
join_comma (x ∷ []) = x
join_comma (x ∷ y ∷ xs) = x ++ codes "," ++ join_comma (y ∷ xs)

-- A text alone counts as a list of one, unless it is empty.
abbrev pub topic_list : Topics → List Str
topic_list (one_topic t) = if is_nil t then [] else t ∷ []
topic_list (topics ts) = ts

unfoldable pub stripped : List Str → List Str
stripped [] = []
stripped (t ∷ ts) =
    let rest = stripped ts in let name = strip t in if is_nil name then rest else name ∷ rest

unfoldable pub resolve_allowed_topics : Entry → Str
resolve_allowed_topics e = join_comma (stripped (topic_list e.allowed_topics))

abbrev pub is_value : Option Str → Str → Bool
is_value none v = false
is_value (some s) v = str_eq s v

-- The capabilities of the first row of the repository.
unfoldable pub row_capabilities : Str → List Row → List Str
row_capabilities repo_name [] = []
row_capabilities repo_name (row ∷ rows) =
    let rest = row_capabilities repo_name rows in
    if is_value row.repo repo_name then row.capabilities else rest

-- Nothing where a deployable has none.
unfoldable pub resolve_capabilities : Catalog → Str → Bool → Option (List Str)
resolve_capabilities c repo_name is_deployable =
    let caps = row_capabilities repo_name c.matrix in
    if is_deployable && is_nil caps then none else some caps

-- `_repo_ref`
abbrev pub both_names : Option Str → Option Str → Str
both_names (some org) (some name) =
    if is_nil org || is_nil name then [] else org ++ codes "/" ++ name
both_names _ _ = []

unfoldable pub repo_ref : Block → Str
repo_ref b = both_names b.organization b.name

-- `f"github.com/{r}"`
abbrev pub github : Str → Str
github r = codes "github.com/" ++ r

abbrev github_all : List Str → List Str
github_all [] = []
github_all (r ∷ rs) = if is_nil r then github_all rs else github r ∷ github_all rs

-- The JSON array, as the list that it holds.
unfoldable pub resolve_required_modules : Entry → Kind → List Str
resolve_required_modules e deployable =
    github_all (repo_ref e.repository ∷ repo_ref e.schema_repository ∷ [])
resolve_required_modules e schema = github_all (repo_ref e.repository ∷ [])
resolve_required_modules e _ = []
