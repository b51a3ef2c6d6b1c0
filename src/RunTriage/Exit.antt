-- ===== src/RunTriage/Exit.antt =====
-- The exit code of scripts/classify-run-failure.py, and what its 75 stands for.
use ci_workflows.Base.{
  false, some, List, [], ◌∷◌, ◌≡◌, ◌≢◌, inl, inr, any, filter, map, refl, sym, ◌∙◌, arith,
  Option-cases, Bool-cases, All, subst,
}
use ci_workflows.RunTriage.{
  Job, Annotations, Control, Verdict, refused, has_failed, detect, kind_of, judge, judge_all,
  classify, is_active,
}
use ci_workflows.RunTriage.Controls.{Document, Loaded, load_controls, loaded}
use ci_workflows.RunTriage.Main.{is_genuine, exit_code, main_code}
use ci_workflows.RunTriage.Verdicts.{IsRefusal, judge_sound}
use ci_workflows.RunTriage.Catalog.{IsUsable, load_controls-IsUsable}

judge_total :
    (job : Job) (annotations : Annotations) (controls : List Control)
    → All IsUsable controls
    → (v : Verdict) × (judge job annotations controls ≡ some v)
unfolding judge
judge_total job annotations [] u = (_, refl)
judge_total job annotations (c ∷ cs) (u, us) =
    let (d, e) = u.has_detector in
    let (id, e') = u.has_id in
    elim (Option-cases (detect d job annotations)) [
      | inl quiet ↦
          let (v, r) = judge_total job annotations cs us in (v, ground (arith, e, quiet, r))
      | inr (evidence, e'') ↦ (
        record { job = job; control_id = id; kind = kind_of d; evidence = evidence },
        ground (arith, e, e', e''),
      )
    ]

-- Verdicts for jobs, in order: each about its job, and a refusal only where the job is one.
abbrev pub IsFaithful : Annotations → List Job → List Verdict → Type 0
IsFaithful annotations jobs vs =
    (map (λ v. v.job) vs ≡ jobs) × All (λ v. v.kind ≡ refused → IsRefusal annotations v.job) vs

judge_all_total :
    (annotations : Annotations) (controls : List Control) (jobs : List Job)
    → All IsUsable controls
    → (vs : List Verdict) × (judge_all annotations controls jobs ≡ some vs)
      × IsFaithful annotations (filter has_failed jobs) vs
unfolding judge_all filter
judge_all_total annotations controls [] u = ([], refl, (refl, tt))
judge_all_total annotations controls (job ∷ jobs) u =
    let (vs, e, (jobs_of, refusals)) = judge_all_total annotations controls jobs u in
    let (v, e') = judge_total job annotations controls u in
    let (same, sound) = judge_sound job annotations controls v e' in
    elim (Bool-cases (has_failed job)) [
      | inr fine ↦ (vs, ground (arith, fine, e), (ground (arith, fine, jobs_of), refusals))
      | inl failed ↦ (
        v ∷ vs,
        ground (arith, failed, e, e'),
        (
          ground (arith, failed, jobs_of, same),
          (λ k. subst (IsRefusal annotations) (sym same) (sound k), refusals),
        ),
      )
    ]

All-filter : (cs : List Control) → All IsUsable cs → All IsUsable (filter is_active cs)
unfolding filter
All-filter [] u = tt
All-filter (c ∷ cs) (u, us) = elim (Bool-cases (is_active c)) [
  | inl t ↦ rw t (u, All-filter cs us)
  | inr f ↦ rw f (All-filter cs us)
]

-- With a catalog that was let through, the classification ends without a `KeyError`, and gives one
-- verdict for each failed job, in order; a job called refused ran no step, and its annotations word
-- a refusal.
pub classify_total :
    (doc : Document) (cs : List Control) (jobs : List Job) (annotations : Annotations)
    → load_controls doc ≡ loaded cs
    → (vs : List Verdict) × (classify jobs annotations cs ≡ some vs)
      × IsFaithful annotations (filter has_failed jobs) vs
unfolding classify
classify_total doc cs jobs annotations h =
    judge_all_total annotations (filter is_active cs) jobs
      (All-filter cs (load_controls-IsUsable doc cs h).0)

genuine-kind : (v : Verdict) → is_genuine v ≡ false → v.kind ≡ refused
genuine-kind v h = ground arith

none_genuine : (vs : List Verdict) → any is_genuine vs ≡ false → All (λ v. v.kind ≡ refused) vs
unfolding any
none_genuine [] h = tt
none_genuine (v ∷ vs) h = (genuine-kind v (ground arith), none_genuine vs (ground arith))

exit_code-refused :
    (vs : List Verdict) → exit_code vs ≡ 75 → (vs ≢ []) × All (λ v. v.kind ≡ refused) vs
exit_code-refused [] h = unfold exit_code any in absurd (ground arith)
exit_code-refused (v ∷ vs) h = (λ e. cc, none_genuine (v ∷ vs) (unfold exit_code in ground arith))

All-jobs :
    (annotations : Annotations) (vs : List Verdict)
    → All (λ v. v.kind ≡ refused) vs
    → All (λ v. v.kind ≡ refused → IsRefusal annotations v.job) vs
    → All (IsRefusal annotations) (map (λ v. v.job) vs)
All-jobs annotations [] k f = tt
All-jobs annotations (v ∷ vs) (k, ks) (f, fs) = (f k, All-jobs annotations vs ks fs)

map-eq-nil : (vs : List Verdict) → map (λ v. v.job) vs ≡ [] → vs ≡ []
map-eq-nil [] h = refl
map-eq-nil (v ∷ vs) h = cc

-- On a bundle that can be read, the script exits with 75, "no verdict about the commit", only if some job failed, and every
-- failed job ran no step and is annotated with the wording of a refusal.
pub main_code-refused :
    (doc : Document) (jobs : List Job) (annotations : Annotations)
    → main_code doc (some (jobs, annotations)) ≡ 75
    → (filter has_failed jobs ≢ []) × All (IsRefusal annotations) (filter has_failed jobs)
main_code-refused doc jobs annotations h = go (load_controls doc) refl
  where
    go :
        (l : Loaded)
        → load_controls doc ≡ l
        → (filter has_failed jobs ≢ []) × All (IsRefusal annotations) (filter has_failed jobs)
    go Loaded.exits_with_message e = unfold main_code in absurd (ground (arith, e))
    go (Loaded.exits_with_errors errors) e = unfold main_code in absurd (ground (arith, e))
    go (loaded cs) e =
        let (vs, c, (same, sound)) = classify_total doc cs jobs annotations e in
        let (some_verdict, all_refused) =
          exit_code-refused vs (unfold main_code in ground (arith, e, c)) in
        (
          λ none_failed. some_verdict (map-eq-nil vs (same ∙ none_failed)),
          subst (All (IsRefusal annotations)) same (All-jobs annotations vs all_refused sound),
        )
