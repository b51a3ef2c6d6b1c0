-- ===== src/SdkContract.antt =====
-- scripts/check-frontend-sdk-contract.py: whether a frontend's SDK stands on a published API document.
-- The files of the app and of the registry are parameters, as read. A JSON object has texts and other
-- values, and a value that is no text is kept as `str` shows it.
pub mod Detectors
pub mod Pinned
use ci_workflows.Base.{
  ℕ, Bool, true, false, not, ◌&&◌, ◌||◌, Option, none, some, List, [], ◌∷◌, ◌>>=◌, if◌then◌else◌,
  is_nil,
}
use ci_workflows.Base.Text.{Str, codes, str_eq, starts_with}
use ci_workflows.ModulePins.{Dict, lookup}

pub data Field : Type 0 where
  text other : Str → Field

-- api-contract.lock.json
pub data LockFile : Type 0 where
  absent invalid_json not_an_object : LockFile
  lock_object : Dict Field → LockFile

-- package.json: absent or no JSON, or whether its scripts have `generate:api`
pub data Package : Type 0 where
  no_package bad_package : Package
  scripts : Bool → Package

pub record App : Type 0 where
  pub manifest : Package
  pub lock_file : LockFile
  -- `sha256_file(root / name)`, where that is a file
  pub digest : Str → Option Str
  -- the text of scripts/generate-api-sdk.js
  pub script : Option Str
  -- for a directory, whether some `.ts` file is below it
  pub has_sources : Str → Option Bool

-- `sha256_file(registry / service / f"{version}.json")`, where that is a file
abbrev pub Registry : Type 0
Registry = Str → Str → Option Str

pub record Control : Type 0 where
  pub id : Str
  pub status : Option Str
  pub detector : Str
  pub severity : Option Str
  pub title : Option Str

pub data Message : Type 0 where
  lock_not_json lock_not_object lock_missing : Message
  missing_fields : List Str → Message
  no_sha256 : Message
  no_spec_file : Str → Message
  spec_differs : Str → Str → Message
  no_registry : Message
  not_published : Str → Str → Message
  registry_differs : Str → Str → Message
  no_script reads_docs_json : Message
  no_generated_dir no_ts_files : Str → Message
  unknown_detector : Str → Message

abbrev pub package_generates_api : App → Bool
package_generates_api app = generates app.manifest
  where
    generates : Package → Bool
    generates no_package = false
    generates bad_package = false
    generates (scripts has_script) = has_script

-- `load_lock`: the lock, and what is wrong with its file
abbrev pub load_lock : LockFile → Option (Dict Field) × Option Message
load_lock absent = (none, none)
load_lock invalid_json = (none, some lock_not_json)
load_lock not_an_object = (none, some lock_not_object)
load_lock (lock_object lock) = (some lock, none)

abbrev pub required : List Str
required =
    codes "service"
    ∷ codes "version"
    ∷ codes "spec_file"
    ∷ codes "spec_digest"
    ∷ codes "generated_dir"
    ∷ []

-- A text that is not empty.
unfoldable pub is_given : Dict Field → Str → Bool
unfolding lookup
is_given lock k = elim (lookup k lock) [
  | none ↦ false
  | some (other shown) ↦ false
  | some (text []) ↦ false
  | some (text (c ∷ s)) ↦ true
]

unfoldable pub missing : Dict Field → List Str → List Str
unfolding is_given
missing lock [] = []
missing lock (k ∷ ks) = let rest = missing lock ks in if is_given lock k then rest else k ∷ rest

-- `str` of a field
abbrev pub shown_as : Field → Str
shown_as (text s) = s
shown_as (other s) = s

-- The detectors: the outer `none` is an exception, the inner one a control that holds.
abbrev pub Found : Type 0
Found = Option (Option Message)

unfoldable pub check_fields : Dict Field → Found
unfolding missing lookup starts_with
check_fields lock = elim (missing lock required) [
  | k ∷ ks ↦ some (some (missing_fields (k ∷ ks)))
  | [] ↦ lookup (codes "spec_digest") lock >>= (λ digest.
      some (if starts_with (codes "sha256:") (shown_as digest) then none else some no_sha256))
]

unfoldable pub check_lockfile_present : Option (Dict Field) → Option Message → Found
unfolding check_fields
check_lockfile_present lock (some lock_err) = some (some lock_err)
check_lockfile_present none none = some (some lock_missing)
check_lockfile_present (some lock) none = check_fields lock

-- A part of a path: what is no text raises.
abbrev pub path_part : Dict Field → Str → Option Str
path_part lock k = lookup k lock >>= as_text
  where
    as_text : Field → Option Str
    as_text (text s) = some s
    as_text (other s) = none

abbrev pub is_text : Str → Field → Bool
is_text s (text t) = str_eq s t
is_text s (other t) = false

abbrev pub compare_published : Str → Field → Str → Str → Option Str → Option Message
compare_published file digest service version none = some (not_published service version)
compare_published file digest service version (some published_digest) =
    if is_text published_digest digest then none else some (registry_differs service version)

unfoldable pub check_published : Option Registry → Dict Field → Str → Field → Found
unfolding lookup str_eq
check_published none lock file digest = some (some no_registry)
check_published (some registry) lock file digest = path_part lock (codes "service") >>= (λ service.
    lookup (codes "version") lock >>= (λ version. some (
      compare_published file digest service (shown_as version)
        (registry service (shown_as version)))))

unfoldable pub check_spec : App → Option Registry → Dict Field → Str → Found
unfolding check_published lookup str_eq
check_spec app registry lock file = elim (app.digest file) [
  | none ↦ some (some (no_spec_file file))
  | some spec_digest ↦ lookup (codes "spec_digest") lock >>= (λ digest.
      if is_text spec_digest digest
      then check_published registry lock file digest
      else some (some (spec_differs file spec_digest)))
]

-- An empty object counts as no lock.
unfoldable pub check_spec_matches_published_pin :
    App → Option Registry → Option (Dict Field) → Found
unfolding check_spec lookup
check_spec_matches_published_pin app registry none = some none
check_spec_matches_published_pin app registry (some []) = some none
check_spec_matches_published_pin app registry (some (f ∷ lock)) =
    path_part (f ∷ lock) (codes "spec_file") >>= check_spec app registry (f ∷ lock)
