-- ===== src/RunTriage/Catalog.antt =====
-- What `load_controls` of scripts/classify-run-failure.py lets through.
use ci_workflows.Base.{
  true, false, not, Option, none, some, List, [], ◌∷◌, ◌≡◌, inl, inr, all, refl, subst, arith,
  Option-cases, All, filter-nil, all→All, append-eq-nil,
}
use ci_workflows.Base.Text.{Str, codes, elem}
use ci_workflows.RunTriage.{Control, Detector, find_detector, field, or_text}
use ci_workflows.RunTriage.Controls.{
  required_fields, missing_fields, is_blank, control_id_of, known_detector, control_errors,
  catalog_errors, Document, load_controls, loaded,
}

-- A control with a value for each required field, an id among them, and a detector that exists.
pub record IsUsable (control : Control) : Type 0 where
  pub complete : all (λ key. not (is_blank (field key control))) required_fields ≡ true
  pub has_id : (id : Str) × (field (codes "id") control ≡ some id)
  pub has_detector :
      (d : Detector) × (find_detector (or_text [] (field (codes "detector") control)) ≡ some d)

-- No id stands twice.
abbrev pub DistinctIds : List Str → List Control → Type 0
DistinctIds seen [] = Unit
DistinctIds seen (c ∷ cs) =
    (elem (control_id_of c) seen ≡ false) × DistinctIds (control_id_of c ∷ seen) cs

known-find :
    (o : Option Str)
    → known_detector o ≡ true
    → (d : Detector) × (find_detector (or_text [] o) ≡ some d)
known-find none h = cc
known-find (some name) h = elim (Option-cases (find_detector name)) [
  | inl e ↦ absurd (ground (arith, e))
  | inr found ↦ found
]

blank-some : (o : Option Str) → is_blank o ≡ false → (v : Str) × (o ≡ some v)
blank-some none h = cc
blank-some (some v) h = (v, refl)

control_errors-nil :
    (seen : List Str) (control : Control)
    → control_errors seen control ≡ []
    → (missing_fields control ≡ [])
      × (known_detector (field (codes "detector") control) ≡ true)
      × (elem (control_id_of control) seen ≡ false)
unfolding control_errors
control_errors-nil seen control h = ground arith

missing_fields-nil :
    (control : Control)
    → missing_fields control ≡ []
    → all (λ key. not (is_blank (field key control))) required_fields ≡ true
unfolding missing_fields
missing_fields-nil control h =
    (filter-nil (λ key. is_blank (field key control)) required_fields).0 h

control_errors-IsUsable :
    (seen : List Str) (control : Control) → control_errors seen control ≡ [] → IsUsable control
control_errors-IsUsable seen control h =
    let (fields, detector, fresh) = control_errors-nil seen control h in
    let complete = missing_fields-nil control fields in
    record {
      complete = complete;
      has_id = blank-some (field (codes "id") control) (
          ground (
            arith,
            (all→All (λ key. not (is_blank (field key control))) required_fields complete).0,
          ));
      has_detector = known-find (field (codes "detector") control) detector;
    }

catalog_errors_sound :
    (seen : List Str) (controls : List Control)
    → catalog_errors seen controls ≡ []
    → All IsUsable controls × DistinctIds seen controls
unfolding catalog_errors
catalog_errors_sound seen [] h = (tt, tt)
catalog_errors_sound seen (c ∷ cs) h =
    let (here, later) = append-eq-nil (control_errors seen c) _ h in
    let (usable, distinct) = catalog_errors_sound (control_id_of c ∷ seen) cs later in
    ((control_errors-IsUsable seen c here, usable), ((control_errors-nil seen c here).2, distinct))

-- A catalog that is let through is complete: each control has a value for every required field and
-- a detector that exists, and no id stands twice.
pub load_controls-IsUsable :
    (doc : Document) (cs : List Control)
    → load_controls doc ≡ loaded cs
    → All IsUsable cs × DistinctIds [] cs
unfolding load_controls
load_controls-IsUsable Document.unreadable cs h = cc
load_controls-IsUsable Document.no_controls cs h = cc
load_controls-IsUsable (Document.controls ds) cs h =
    let errors : catalog_errors [] ds ≡ [] = ground arith in
    let same : ds ≡ cs = ground arith in
    subst (λ xs. All IsUsable xs × DistinctIds [] xs) same (catalog_errors_sound [] ds errors)
