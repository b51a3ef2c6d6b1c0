-- ===== src/Hub.antt =====
-- scripts/hub_layout.py: where a repository lives in a tree of many. A path is the list of its
-- parts, and the file system is a parameter, read at one moment: the owner folders, which the
-- script reads once and keeps, are computed where they are used.
pub mod Owners
pub mod Logical
pub mod Clients
pub mod Find
pub mod Matches
use ci_workflows.Base.{
  Bool, true, false, not, ◌&&◌, ◌||◌, Option, none, some, List, [], ◌∷◌, ◌++◌, ◌>>=◌, if◌then◌else◌,
  any, filter, map, length, ltb, last_or, init, is_nil,
}
use ci_workflows.Base.Text.{Str, codes, str_eq, elem, starts_with}
use ci_workflows.Base.Sorting.{sort_by, sorted}

-- The parts of a path, from the root of the file system or from the root of the tree.
abbrev pub FilePath : Type 0
FilePath = List Str

-- What the script asks of the file system. The probes answer false where Python raises `OSError`.
pub record FileSystem : Type 0 where
  pub is_dir : FilePath → Bool
  pub is_symlink : FilePath → Bool
  pub exists : FilePath → Bool
  -- `os.path.realpath`
  pub real : FilePath → FilePath
  -- the names of the entries; `none` where `os.scandir` raises
  pub scandir : FilePath → Option (List Str)
  -- `base.glob(pattern)`, and with `false` `glob.glob`, which skips names with a dot
  pub matches : Bool → FilePath → Str → List FilePath
  -- `base.rglob(pattern)`
  pub walk : FilePath → Str → List FilePath

abbrev pub categories : List Str
categories =
    codes "services"
    ∷ codes "gateways"
    ∷ codes "shared"
    ∷ codes "contracts"
    ∷ codes "tools"
    ∷ codes "docs"
    ∷ codes "infra"
    ∷ codes "frontend"
    ∷ []

abbrev pub core : Str
core = codes "core"

abbrev pub owner_level_repos : List Str
owner_level_repos = codes "ci-workflows" ∷ []

-- `path / name`
infixl 20 ◌/◌
abbrev pub ◌/◌ : FilePath → Str → FilePath
path / name = path ++ name ∷ []

-- `path.name`
abbrev pub name_of : FilePath → Str
name_of path = last_or [] path

unfoldable pub path_eq : FilePath → FilePath → Bool
path_eq [] [] = true
path_eq [] (d ∷ q) = false
path_eq (c ∷ p) [] = false
path_eq (c ∷ p) (d ∷ q) = str_eq c d && path_eq p q

unfoldable pub elem_path : FilePath → List FilePath → Bool
unfolding any path_eq
elem_path p = any (path_eq p)

-- `path.relative_to(base)`, the base first; `none` where Python raises
unfoldable pub relative_to : FilePath → FilePath → Option FilePath
relative_to [] path = some path
relative_to (b ∷ base) [] = none
relative_to (b ∷ base) (c ∷ path) =
    let rest = relative_to base path in if str_eq b c then rest else none

-- Paths compare by their parts. No name contains a NUL, the least character, so the parts joined by
-- it compare in the same way.
unfoldable pub parts_key : FilePath → Str
parts_key [] = []
parts_key (c ∷ path) = c ++ 0 ∷ parts_key path

-- `a for a in xs if f(a)`, the first one
unfoldable pub first_of {ℓ} : {A : Type ℓ} → (A → Bool) → List A → Option A
first_of p [] = none
first_of p (x ∷ xs) = let rest = first_of p xs in if p x then some x else rest

-- `(p.name != CORE, p.name)`, as one text
abbrev pub owner_key : FilePath → Str
owner_key p = (if str_eq (name_of p) core then 0 else 1) ∷ name_of p

module _ (F : FileSystem) where
  unfoldable pub holds_category : FilePath → List Str → Bool
  unfolding any
  holds_category path names = any (λ c. F.is_dir (path / c)) names

  unfoldable pub is_owner_folder : FilePath → Bool
  unfolding holds_category elem
  is_owner_folder path =
      let name = name_of path in
      if elem name categories
        || (elem name owner_level_repos
            || (starts_with (codes ".") name || starts_with (codes "_") name))
      then false
      else if F.is_symlink path || not (F.is_dir path)
      then false
      else holds_category path categories

  unfoldable pub owner_folders : FilePath → List FilePath
  unfolding is_owner_folder filter sort_by
  owner_folders root = elim (F.scandir root) [
    | none ↦ []
    | some names ↦
        sort_by owner_key (filter is_owner_folder (map (λ name. root / name) (sorted names)))
  ]

  unfoldable pub is_hub : FilePath → List Str → Bool
  unfolding holds_category
  is_hub root names =
      if holds_category root names
      then true
      else (F.is_dir (root / core) && not (F.is_symlink (root / core)))
        && holds_category (root / core) names

  unfoldable pub detect_layout : FilePath → List Str → Str
  unfolding is_hub
  detect_layout root names = if is_hub root names then codes "monorepo" else codes "repo"

  -- `parents[1]` raises on a path of less than two parts.
  unfoldable pub default_root : FilePath → Option FilePath
  default_root script =
      let repo = init (init (F.real script)) in
      let parent = init repo in
      if ltb (length (F.real script)) 2
      then none
      else some (if str_eq (name_of parent) core then init parent else parent)

-- One tree. `none` reads every client folder.
pub record Hub : Type 0 where
  pub root : FilePath
  pub clients : Option (List Str)

abbrev pub is_wanted : Option (List Str) → FilePath → Bool
is_wanted none owner = true
is_wanted (some clients) owner = str_eq (name_of owner) core || elem (name_of owner) clients

module _ (F : FileSystem) where
  unfoldable pub owners : Hub → List FilePath
  unfolding owner_folders filter elem
  owners H = filter (is_wanted H.clients) (owner_folders F H.root)

  -- Whether a path really lies in an owner folder.
  abbrev pub lies_in : FilePath → FilePath → Bool
  lies_in path owner = elim (relative_to (F.real owner) (F.real path)) [
    | none ↦ false
    | some rest ↦ true
  ]

  unfoldable pub owner_of : Hub → FilePath → Option Str
  unfolding owners first_of
  owner_of H path = do owner ← first_of (lies_in path) (owners H); some (name_of owner)

  unfoldable pub for_client_of : Hub → FilePath → Hub
  unfolding owner_of
  for_client_of H path = elim (owner_of H path) [
    | none ↦ H
    | some owner ↦
        if str_eq owner core then H else record { root = H.root; clients = some (owner ∷ []) }
  ]

  unfoldable pub spellings : Hub → FilePath → List FilePath
  unfolding owners
  spellings H rel = (H.root ++ rel) ∷ map (λ owner. owner ++ rel) (owners H)

  unfoldable pub resolve : Hub → FilePath → FilePath
  unfolding spellings first_of
  resolve H rel = elim (first_of F.exists (spellings H rel)) [
    | none ↦ H.root ++ rel
    | some path ↦ path
  ]

  unfoldable pub logical_parts : Hub → FilePath → FilePath
  unfolding owners
  logical_parts H [] = []
  logical_parts H (p ∷ []) = p ∷ []
  logical_parts H (p ∷ q ∷ parts) =
      if elem p (map name_of (owners H)) then q ∷ parts else p ∷ q ∷ parts

  unfoldable pub logical : Hub → FilePath → Option FilePath
  unfolding logical_parts relative_to
  logical H path = do parts ← relative_to H.root path; some (logical_parts H parts)
