-- ===== src/RunTriage/Verdicts.antt =====
-- The verdicts of scripts/classify-run-failure.py, one for each failed job.
use ci_workflows.Base.{
  Option, none, some, List, [], ◌∷◌, ◌≡◌, ◌⊎◌, inl, inr, refl, arith, Option-cases,
}
use ci_workflows.Base.Text.{Str, codes}
use ci_workflows.Regex.{Regex, search}
use ci_workflows.Regex.Language.{Occurs, search_sound}
use ci_workflows.RunTriage.{
  Job, Annotations, Evidence, Control, Verdict, refused, Detector, billing, runner, gate, Evidence,
  budget_refused, runner_refused, annotation_text, matches, ran_no_steps, hit_as,
  refused_for_billing, refused_for_runner, find_detector, detect, kind_of, field, or_text, judge,
}
use ci_workflows.RunTriage.Patterns.{billing_patterns, runner_patterns}

-- One of the patterns of a list.
abbrev pub Among : Regex → List Regex → Type 0
Among r [] = ⊥
Among r (x ∷ xs) = (r ≡ x) ⊎ Among r xs

-- The text has a part in the language of one of the patterns.
abbrev pub Mentions : Str → List Regex → Type 0
Mentions text rs = (r : Regex) × (hit : Str) × Among r rs × Occurs r hit text

matches-Mentions :
    (text : Str) (rs : List Regex) (hit : Str) → matches text rs ≡ some hit → Mentions text rs
unfolding matches
matches-Mentions text [] hit h = cc
matches-Mentions text (r ∷ rs) hit h = elim (Option-cases (search r text)) [
  | inl e ↦
      let (q, m, among, occurs) = matches-Mentions text rs hit (ground (arith, e)) in
      (q, m, inr among, occurs)
  | inr (m, e) ↦ (r, m, inl refl, search_sound r text m e)
]

-- A job that no runner claimed, with an annotation that words a refusal.
abbrev pub IsRefusal : Annotations → Job → Type 0
IsRefusal annotations job =
    (job.steps ≡ [])
    × (Mentions (annotation_text job annotations) billing_patterns
        ⊎ Mentions (annotation_text job annotations) runner_patterns)

hit_as-some :
    (show : Str → Evidence) (o : Option Str) (e : Evidence)
    → hit_as show o ≡ some e
    → (hit : Str) × (o ≡ some hit)
hit_as-some show none e h = cc
hit_as-some show (some hit) e h = (hit, refl)

billing-IsRefusal :
    (job : Job) (annotations : Annotations) (e : Evidence)
    → refused_for_billing job annotations ≡ some e
    → IsRefusal annotations job
unfolding refused_for_billing ran_no_steps
billing-IsRefusal job annotations e h =
    let text = annotation_text job annotations in
    let (hit, m) = hit_as-some budget_refused (matches text billing_patterns) e (ground arith) in
    (ground arith, inl (matches-Mentions text billing_patterns hit m))

runner-IsRefusal :
    (job : Job) (annotations : Annotations) (e : Evidence)
    → refused_for_runner job annotations ≡ some e
    → IsRefusal annotations job
unfolding refused_for_runner ran_no_steps
runner-IsRefusal job annotations e h =
    let text = annotation_text job annotations in
    let (hit, m) = hit_as-some runner_refused (matches text runner_patterns) e (ground arith) in
    (ground arith, inr (matches-Mentions text runner_patterns hit m))

detect-IsRefusal :
    (d : Detector) (job : Job) (annotations : Annotations) (e : Evidence)
    → detect d job annotations ≡ some e
    → kind_of d ≡ refused
    → IsRefusal annotations job
detect-IsRefusal billing job annotations e h k = billing-IsRefusal job annotations e h
detect-IsRefusal runner job annotations e h k = runner-IsRefusal job annotations e h
detect-IsRefusal gate job annotations e h k = cc

-- Whatever the controls, a verdict that is given is about its job, and a job is called refused only if it ran no
-- step and its annotations word a refusal: a gate that ran is never excused.
pub judge_sound :
    (job : Job) (annotations : Annotations) (controls : List Control) (v : Verdict)
    → judge job annotations controls ≡ some v
    → (v.job ≡ job) × (v.kind ≡ refused → IsRefusal annotations job)
unfolding judge
judge_sound job annotations [] v h = (ground arith, λ k. absurd (ground arith))
judge_sound job annotations (control ∷ controls) v h =
    elim (Option-cases (find_detector (or_text [] (field (codes "detector") control)))) [
      | inl e ↦ absurd (ground (arith, e))
      | inr (d, e) ↦ (elim (Option-cases (detect d job annotations)) [
        | inl e' ↦ judge_sound job annotations controls v (ground (arith, e, e'))
        | inr (evidence, e') ↦ (elim (Option-cases (field (codes "id") control)) [
          | inl e'' ↦ absurd (ground (arith, e, e', e''))
          | inr (id, e'') ↦ (
            ground (arith, e, e', e''),
            λ k. detect-IsRefusal d job annotations evidence e' (ground (arith, e, e', e'')),
          )
        ])
      ])
    ]
