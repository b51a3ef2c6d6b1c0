-- ===== src/Tests/Hubs.antt =====
-- scripts/hub_layout.py on a small tree.
use ci_workflows.Base.{
  ℕ, Bool, true, false, Option, none, some, List, [], ◌∷◌, ◌++◌, ◌≡◌, refl, filter, any, all, times,
  map, All, if◌then◌else◌,
}
use ci_workflows.Base.Text.{Str, codes, str_eq, elem, starts_with}
use ci_workflows.Base.Sorting.{sort_by, str_leb}
use ci_workflows.ModulePins.{lookup, insert}
use ci_workflows.Hub.{
  FilePath, FileSystem, Hub, name_of, path_eq, elem_path, relative_to, parts_key, first_of,
  holds_category, is_owner_folder, owner_folders, is_hub, detect_layout, default_root, owners,
  owner_of, for_client_of, spellings, resolve, logical_parts, logical,
}
use ci_workflows.Hub.Find.{
  add_hit, add_hits, glob_base, glob_bases, logical_key, glob, walk_bases, walk_categories, rglob,
}
use ci_workflows.Hub.Logical.{spellings-logical-resolve}
use ci_workflows.Hub.Matches.{is_at, is_match, glob_once}
use ci_workflows.Classification.{
  add_items, load_allowlist, judge, report, first_hit, deployable_root, run_single, audit_entry,
  audit, run_fleet, run_ci, main,
}

abbrev p2 : Str → Str → FilePath
p2 a b = codes "w" ∷ a ∷ b ∷ []

abbrev at_root : Str → FilePath
at_root a = codes "w" ∷ a ∷ []

-- `org` moved to the client acme and left a link behind; `hub` is in core.
abbrev pub org_link : FilePath
org_link = p2 (codes "services") (codes "org")

abbrev org : FilePath
org = codes "w" ∷ codes "acme" ∷ codes "services" ∷ codes "org" ∷ []

abbrev pub hub_repo : FilePath
hub_repo = codes "w" ∷ codes "core" ∷ codes "services" ∷ codes "hub" ∷ []

abbrev folders : List FilePath
folders =
    at_root (codes "services")
    ∷ at_root (codes "core")
    ∷ at_root (codes "acme")
    ∷ at_root (codes "zeta")
    ∷ at_root (codes "_old")
    ∷ p2 (codes "core") (codes "services")
    ∷ p2 (codes "acme") (codes "services")
    ∷ p2 (codes "zeta") (codes "services")
    ∷ p2 (codes "_old") (codes "services")
    ∷ []

abbrev is_folder : FilePath → Bool
is_folder p = elem_path p folders

abbrev no_link : FilePath → Bool
no_link p = false

abbrev is_there : FilePath → Bool
is_there p = elem_path p (org_link ∷ org ∷ hub_repo ∷ folders)

abbrev real_path : FilePath → FilePath
real_path p = if path_eq p org_link then org else p

abbrev names : FilePath → Option (List Str)
names p = some (codes "zeta" ∷ codes "services" ∷ codes "acme" ∷ codes "core" ∷ codes "_old" ∷ [])

abbrev found_at : Bool → FilePath → Str → List FilePath
found_at hidden base pattern =
    if str_eq pattern (codes "services/org")
    then filter (path_eq (base ++ codes "services" ∷ codes "org" ∷ [])) (org_link ∷ org ∷ [])
    else if str_eq pattern (codes "services/hub")
    then filter (path_eq (base ++ codes "services" ∷ codes "hub" ∷ [])) (hub_repo ∷ [])
    else []

abbrev walked : FilePath → Str → List FilePath
walked base pattern =
    filter (λ p. any (λ b. path_eq b base) (at_root (codes "services") ∷ [])) (org_link ∷ [])

abbrev pub files : FileSystem
files = record {
  is_dir = is_folder;
  is_symlink = no_link;
  exists = is_there;
  real = real_path;
  scandir = names;
  matches = found_at;
  walk = walked;
}

abbrev tree : Hub
tree = record { root = codes "w" ∷ []; clients = none }

unfoldable pub hub_open : ℕ
unfolding path_eq elem_path relative_to parts_key first_of holds_category is_owner_folder
    owner_folders is_hub detect_layout default_root owners owner_of for_client_of spellings resolve
    logical_parts logical add_hit add_hits glob_base glob_bases logical_key glob walk_bases
    walk_categories rglob sort_by str_leb str_eq elem starts_with filter any all times lookup insert
    add_items load_allowlist judge report first_hit deployable_root run_single audit_entry audit
    run_fleet run_ci main
hub_open = 0

owners_test : map name_of (owners files tree) ≡ codes "core" ∷ codes "acme" ∷ codes "zeta" ∷ []
unfolding hub_open
owners_test = refl

spellings-logical-resolve_example :
    All
      (λ path. logical files tree path ≡ some (codes "services" ∷ codes "hub" ∷ []))
      (spellings files tree (codes "services" ∷ codes "hub" ∷ []))
    × (logical files tree (resolve files tree (codes "services" ∷ codes "hub" ∷ []))
        ≡ some (codes "services" ∷ codes "hub" ∷ []))
unfolding hub_open
spellings-logical-resolve_example =
    spellings-logical-resolve files tree (codes "services") (codes "hub" ∷ []) refl

glob_test : glob files tree true (codes "services/org") ≡ some (org_link ∷ [])
unfolding hub_open
glob_test = refl

glob_once_example : times (is_at files org) (org_link ∷ []) ≡ (
    if any (is_match files org true (codes "services/org")) (tree.root ∷ owners files tree)
    then 1
    else 0)
unfolding hub_open
glob_once_example = glob_once files org true (codes "services/org") tree (org_link ∷ []) refl
