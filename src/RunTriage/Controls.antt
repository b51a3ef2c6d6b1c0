-- ===== src/RunTriage/Controls.antt =====
-- `load_controls` of scripts/classify-run-failure.py: the catalog, if it is complete.
use ci_workflows.Base.{
  Bool, true, false, Option, none, some, List, [], ◌∷◌, ◌++◌, if◌then◌else◌, is_nil, filter,
}
use ci_workflows.Base.Text.{Str, codes, elem}
use ci_workflows.RunTriage.{Control, Detector, find_detector, field, or_text}

abbrev pub required_fields : List Str
required_fields =
    codes "id"
    ∷ codes "title"
    ∷ codes "owner"
    ∷ codes "scope"
    ∷ codes "status"
    ∷ codes "severity"
    ∷ codes "policy"
    ∷ codes "rationale"
    ∷ codes "remediation"
    ∷ codes "detector"
    ∷ []

pub data CatalogError : Type 0 where
  missing : Str → List Str → CatalogError
  unknown_detector : Str → Option Str → CatalogError
  duplicate_id : Str → CatalogError

-- `not control.get(key)`
abbrev pub is_blank : Option Str → Bool
is_blank none = true
is_blank (some v) = is_nil v

abbrev pub control_id_of : Control → Str
control_id_of control = or_text (codes "<missing>") (field (codes "id") control)

unfoldable pub missing_fields : Control → List Str
missing_fields control = filter (λ key. is_blank (field key control)) required_fields

abbrev pub is_known : Option Detector → Bool
is_known none = false
is_known (some d) = true

abbrev pub known_detector : Option Str → Bool
known_detector none = false
known_detector (some name) = is_known (find_detector name)

-- The errors of one control, with the ids seen before it.
unfoldable pub control_errors : List Str → Control → List CatalogError
control_errors seen control =
    let cid = control_id_of control in
    let fields = missing_fields control in
    (if is_nil fields then [] else missing cid fields ∷ [])
    ++ ((if known_detector (field (codes "detector") control)
          then []
          else unknown_detector cid (field (codes "detector") control) ∷ [])
        ++ (if elem cid seen then duplicate_id cid ∷ [] else []))

-- The loop of `load_controls`.
unfoldable pub catalog_errors : List Str → List Control → List CatalogError
catalog_errors seen [] = []
catalog_errors seen (control ∷ controls) =
    control_errors seen control ++ catalog_errors (control_id_of control ∷ seen) controls

-- What the YAML parser makes of the catalog: it fails, or finds no list of controls, or one.
pub data Document : Type 0 where
  unreadable no_controls : Document
  controls : List Control → Document

-- `SystemExit` with a message, `SystemExit(EX_CATALOG)`, or the catalog.
pub data Loaded : Type 0 where
  exits_with_message : Loaded
  exits_with_errors : List CatalogError → Loaded
  loaded : List Control → Loaded

unfoldable pub load_controls : Document → Loaded
load_controls unreadable = exits_with_message
load_controls no_controls = exits_with_message
load_controls (controls cs) =
    let errors = catalog_errors [] cs in
    if is_nil errors then loaded cs else exits_with_errors errors
