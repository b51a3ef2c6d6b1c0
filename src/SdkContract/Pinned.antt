-- ===== src/SdkContract/Pinned.antt =====
-- A run of scripts/check-frontend-sdk-contract.py that passes, and the document that the app pins.
use ci_workflows.Base.{
  Bool, true, Option, none, some, List, [], ◌∷◌, ◌≡◌, refl, sym, ap, not, both_true, ◌∙◌,
  if◌then◌else◌, arith, any, Bool-cases, Option-cases, inl, inr, append-eq-nil, ◌&&◌, ◌++◌, ◌>>=◌,
}
use ci_workflows.Base.Text.{Str, codes, str_eq, str_eq_iff}
use ci_workflows.ModulePins.{Dict, lookup}
use ci_workflows.SdkContract.{
  Field, text, other, App, Registry, lock_object, Control, Message, Found, path_part, is_text,
  package_generates_api, compare_published, check_published, check_spec,
  check_spec_matches_published_pin, shown_as, spec_differs,
}
use ci_workflows.SdkContract.Detectors.{
  Detector, spec_matches_published_pin, detector_of, run_detector, is_active, Finding, add_finding,
  judge_control, judge_controls, evaluate, exit_code, outcome_of, Outcome, main,
}

-- An app whose lock names a file, and a document of the registry, with one digest, which the lock
-- states.
abbrev pub IsPublished : App → Registry → Dict Field → Type 0
IsPublished app registry lock =
    (file : Str) × ((service : Str) × ((version : Field) × ((digest : Str) × ((lookup
                (codes "spec_file") lock
              ≡ some (text file))
            × ((lookup (codes "service") lock ≡ some (text service))
                × ((lookup (codes "version") lock ≡ some version)
                    × ((lookup (codes "spec_digest") lock ≡ some (text digest))
                        × ((app.digest file ≡ some digest)
                            × (registry service (shown_as version) ≡ some digest)))))))))

path_part-text :
    (lock : Dict Field) (k s : Str) → path_part lock k ≡ some s → lookup k lock ≡ some (text s)
path_part-text lock k s h = elim (Option-cases (lookup k lock)) [
  | inl e ↦ ground (arith, e)
  | inr (text t, e) ↦ ground (arith, e)
  | inr (other t, e) ↦ ground (arith, e)
]

is_text-text : (s : Str) (f : Field) → is_text s f ≡ true → f ≡ text s
is_text-text s (text t) h = let same = (str_eq_iff s t).0 h in cc
is_text-text s (other t) h = cc

compare_published-none :
    (file : Str) (digest : Field) (service version : Str) (o : Option Str)
    → compare_published file digest service version o ≡ none
    → (d : Str) × ((o ≡ some d) × (digest ≡ text d))
compare_published-none file digest service version none h = cc
compare_published-none file digest service version (some d) h =
    (d, (refl, is_text-text d digest (ground arith)))

bind_some {ℓ κ} :
    {A : Type ℓ} {B : Type κ} (o : Option A) (f : A → Option B) (b : B)
    → (o >>= f) ≡ some b
    → (a : A) × ((o ≡ some a) × (f a ≡ some b))
bind_some none f b h = cc
bind_some (some a) f b h = (a, (refl, h))

check_spec-IsPublished :
    (app : App) (registry : Option Registry) (lock : Dict Field) (file : Str)
    → lookup (codes "spec_file") lock ≡ some (text file)
    → check_spec app registry lock file ≡ some none
    → (r : Registry) × ((registry ≡ some r) × IsPublished app r lock)
unfolding check_spec check_published
check_spec-IsPublished app registry lock file f h = elim (Option-cases (app.digest file)) [
  | inl e ↦ ground (arith, e)
  | inr (d, e) ↦
      let opened : (lookup (codes "spec_digest") lock >>= judged d) ≡ some none =
        sym (rw (check_spec, e) refl) ∙ h in
      let (digest, (at, k)) =
        bind_some (lookup (codes "spec_digest") lock) (judged d) none opened in
      elim (Bool-cases (is_text d digest)) [
        | inr n ↦ ground (arith, n)
        | inl y ↦ published d digest at e (is_text-text d digest y) registry (ground (arith, y))
      ]
]
  where
    judged : Str → Field → Found
    judged d digest =
        if is_text d digest
        then check_published registry lock file digest
        else some (some (spec_differs file d))

    published :
        (d : Str) (digest : Field)
        → lookup (codes "spec_digest") lock ≡ some digest
        → app.digest file ≡ some d
        → digest ≡ text d
        → (registry : Option Registry) → check_published registry lock file digest ≡ some none
        → (r : Registry) × ((registry ≡ some r) × IsPublished app r lock)
    published d digest at e same none k = ground arith
    published d digest at e same (some r) k =
        let (service, (s, k1)) =
          bind_some (path_part lock (codes "service"))
            (λ service. lookup (codes "version") lock >>= (λ version. some (
              compare_published file digest service (shown_as version)
                (r service (shown_as version)))))
            none k in
        let (version, (v, k2)) =
          bind_some (lookup (codes "version") lock)
            (λ version. some (
              compare_published file digest service (shown_as version)
                (r service (shown_as version))))
            none k1 in
        let (d2, (o, q)) =
          compare_published-none file digest service (shown_as version)
            (r service (shown_as version)) (ground arith) in
        let one : text d2 ≡ text d = sym q ∙ same in
        let eq : d2 ≡ d = ground arith in
        let given = path_part-text lock (codes "service") service s in
        let stated = at ∙ ap (λ z. some z) same in
        let kept = o ∙ ap (λ z. some z) eq in
        (r, (refl, (file, (service, (version, (d, (f, (given, (v, (stated, (e, kept)))))))))))

-- A control that is active, by its detector.
abbrev pub is_check : Str → Control → Bool
is_check name c = is_active c && str_eq c.detector name

-- Where no control is reported, one that some test picks is not.
judge_controls-any :
    (app : App) (registry : Option Registry) (locks : Option (Dict Field) × Option Message)
    (p : Control → Bool) (cs : List Control)
    → judge_controls app registry locks cs ≡ some []
    → any p cs ≡ true
    → (c : Control) × ((p c ≡ true) × (judge_control app registry locks c ≡ some []))
unfolding judge_controls any
judge_controls-any app registry locks p [] h a = cc
judge_controls-any app registry locks p (c ∷ cs) h a =
    let more = λ (here : List Finding).
      judge_controls app registry locks cs >>= (λ more. some (here ++ more)) in
    let (here, (e, k)) = bind_some (judge_control app registry locks c) more [] h in
    let (rest, (e2, k2)) =
      bind_some (judge_controls app registry locks cs) (λ more. some (here ++ more)) [] k in
    let (n, m) = append-eq-nil here rest (ground arith) in
    elim (Bool-cases (p c)) [
      | inl t ↦ (c, (t, e ∙ ap (λ z. some z) n))
      | inr t ↦
          judge_controls-any app registry locks p cs (e2 ∙ ap (λ z. some z) m) (ground (arith, t))
    ]

-- A control whose detector runs and that is not reported holds.
judge_control-holds :
    (app : App) (registry : Option Registry) (locks : Option (Dict Field) × Option Message)
    (c : Control) (d : Detector)
    → is_active c ≡ true
    → detector_of c.detector ≡ some d
    → judge_control app registry locks c ≡ some []
    → run_detector app registry locks d ≡ some none
unfolding judge_control
judge_control-holds app registry locks c d active known h =
    let opened : (run_detector app registry locks d >>= (λ message. some (add_finding c message)))
        ≡ some [] =
      sym (rw (judge_control, active, known) refl) ∙ h in
    let (message, (e, k)) =
      bind_some (run_detector app registry locks d) (λ message. some (add_finding c message)) []
        opened in
    e ∙ ap (λ z. some z) (held message (ground arith))
  where
    held : (message : Option Message) → add_finding c message ≡ [] → message ≡ none
    held none h = refl
    held (some m) h = cc

-- With a lock the controls are judged.
with_lock :
    (app : App) (registry : Option Registry) (catalog : List Control) (lock : Dict Field)
    → app.lock_file ≡ lock_object lock
    → main app registry (some catalog) ≡ (
        judge_controls app registry (some lock, none) catalog
        >>= (λ findings. some (outcome_of findings)))
unfolding main evaluate
with_lock app registry catalog lock l = elim (Bool-cases (package_generates_api app)) [
  | inl g ↦ rw (main, evaluate, not, l, g) refl
  | inr g ↦ rw (main, evaluate, not, l, g) refl
]

no_findings : (found : List Finding) → exit_code (outcome_of found) ≡ 0 → found ≡ []
no_findings [] h = refl
no_findings (f ∷ fs) h = ground arith

-- A run that passes on an app with a lock, under a catalog in which the control of the published pin
-- is active, has found one document: the file that the lock names has the digest of the published
-- document of that service and version, and the lock states that digest.
pub main-IsPublished :
    (app : App) (registry : Option Registry) (catalog : List Control) (f : Str × Field)
    (lock : Dict Field) (r : Outcome)
    → app.lock_file ≡ lock_object (f ∷ lock)
    → any (is_check (codes "spec_matches_published_pin")) catalog ≡ true
    → main app registry (some catalog) ≡ some r
    → exit_code r ≡ 0
    → (reg : Registry) × ((registry ≡ some reg) × IsPublished app reg (f ∷ lock))
unfolding check_spec_matches_published_pin detector_of str_eq
main-IsPublished app registry catalog f lock r l active h code =
    let locks : Option (Dict Field) × Option Message = (some (f ∷ lock), none) in
    let (found, (e, k)) =
      bind_some (judge_controls app registry locks catalog) (λ findings. some (outcome_of findings))
        r (sym (with_lock app registry catalog (f ∷ lock) l) ∙ h) in
    let empty = no_findings found (ground arith) in
    let (c, (t, j)) =
      judge_controls-any app registry locks (is_check (codes "spec_matches_published_pin")) catalog
        (e ∙ ap (λ z. some z) empty) active in
    let (on, named) =
      both_true (is_active c) (str_eq c.detector (codes "spec_matches_published_pin")) t in
    let name = (str_eq_iff c.detector (codes "spec_matches_published_pin")).0 named in
    let ran =
      judge_control-holds app registry locks c spec_matches_published_pin on
        (ap detector_of name ∙ refl) j in
    let (file, (at, checked)) =
      bind_some (path_part (f ∷ lock) (codes "spec_file")) (check_spec app registry (f ∷ lock)) none
        ran in
    check_spec-IsPublished app registry (f ∷ lock) file
      (path_part-text (f ∷ lock) (codes "spec_file") file at) checked
