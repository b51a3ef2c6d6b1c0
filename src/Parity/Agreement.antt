-- ===== src/Parity/Agreement.antt =====
-- When scripts/check-detector-parity.py passes.
use ci_workflows.Base.{
  Bool, true, false, not, List, [], ◌∷◌, ◌≡◌, ◌↔◌, inr, refl, arith, is_nil, any, All,
  append-eq-nil,
}
use ci_workflows.Base.Text.{Str}
use ci_workflows.ModulePins.{Dict}
use ci_workflows.Parity.{Family, Cell, Answer, error, cells, ci_report, cli_report, cell_at}
use ci_workflows.Parity.Artifact.{ToolRun, baseline_artifact_parity}
use ci_workflows.Parity.Comments.{CommentsAgree, artifact-CommentsAgree}
use ci_workflows.Parity.Run.{
  Repo, compare_cells, compare_controls, compare_answers, run_family, is_vacuous, family_failed,
  any_failed, shared_errors, main_code,
}
use ci_workflows.Parity.Tallies.{
  Agrees, has_verdict, IsFine, ⊕-IsFine, compare_cells-IsFine, ⊕-is_vacuous,
  compare_cells-is_vacuous,
}

-- Both detectors answer about a repository, and agree on every control that the CI decides.
abbrev pub BothAgree : Family → Answer → Answer → Type 0
BothAgree fam (error text) cli = ⊥
BothAgree fam (cells ci) (error text) = ⊥
BothAgree fam (cells ci) (cells cli) = All (Agrees fam ci cli) fam.pairs

-- Whether the CI decides some control.
abbrev pub decides : Family → Answer → Answer → Bool
decides fam (error text) cli = false
decides fam (cells ci) (error text) = false
decides fam (cells ci) (cells cli) =
    any (λ (cid, check). has_verdict (cell_at cid ci).verdict) fam.pairs

abbrev pub on_repo {ℓ} : {A : Type ℓ} → (Family → Answer → Answer → A) → Family → Repo → A
on_repo f fam r = f fam (ci_report fam (r.ci fam)) (cli_report fam (r.cli fam))

-- A family agrees on every repository, and the run says something about it.
abbrev pub FamilyAgrees : List Repo → Family → Type 0
FamilyAgrees repos fam =
    All (on_repo BothAgree fam) repos × (any (on_repo decides fam) repos ≡ true)

module _ (fam : Family) (repo : Str) where
  compare_controls-IsFine :
      (pairs : Dict Str) (ci cli : Dict Cell)
      → IsFine fam (compare_controls fam repo pairs ci cli) ↔ All (Agrees fam ci cli) pairs
  unfolding compare_controls
  compare_controls-IsFine [] ci cli = (λ h. tt, λ h. (refl, (refl, inr refl)))
  compare_controls-IsFine ((cid, check) ∷ pairs) ci cli =
      let c = cell_at cid ci in
      let d = cell_at cid cli in
      let (f, g) = compare_cells-IsFine fam repo cid c d in
      let (f1, g1) = compare_controls-IsFine pairs ci cli in
      let (to, back) =
        ⊕-IsFine fam (compare_cells fam repo cid c d) (compare_controls fam repo pairs ci cli) in
      (λ h. let (a, b) = to h in (f a, f1 b), λ (a, b). back (g a, g1 b))

  compare_answers-IsFine :
      (ci cli : Answer) → IsFine fam (compare_answers fam repo ci cli) ↔ BothAgree fam ci cli
  unfolding compare_answers
  compare_answers-IsFine (error text) cli = (λ (a, b). ground arith, λ h. absurd h)
  compare_answers-IsFine (cells ci) (error text) = (λ (a, b). ground arith, λ h. absurd h)
  compare_answers-IsFine (cells ci) (cells cli) = compare_controls-IsFine fam.pairs ci cli

run_family-IsFine :
    (fam : Family) (repos : List Repo)
    → IsFine fam (run_family fam repos) ↔ All (on_repo BothAgree fam) repos
unfolding run_family
run_family-IsFine fam [] = (λ h. tt, λ h. (refl, (refl, inr refl)))
run_family-IsFine fam (r ∷ rs) =
    let ci = ci_report fam (r.ci fam) in
    let cli = cli_report fam (r.cli fam) in
    let (f, g) = compare_answers-IsFine fam r.name ci cli in
    let (f1, g1) = run_family-IsFine fam rs in
    let (to, back) = ⊕-IsFine fam (compare_answers fam r.name ci cli) (run_family fam rs) in
    (λ h. let (a, b) = to h in (f a, f1 b), λ (a, b). back (g a, g1 b))

compare_controls-is_vacuous :
    (fam : Family) (repo : Str) (pairs : Dict Str) (ci cli : Dict Cell)
    → not (is_vacuous (compare_controls fam repo pairs ci cli))
      ≡ any (λ (cid, check). has_verdict (cell_at cid ci).verdict) pairs
unfolding compare_controls any
compare_controls-is_vacuous fam repo [] ci cli = refl
compare_controls-is_vacuous fam repo ((cid, check) ∷ pairs) ci cli =
    let c = cell_at cid ci in
    let d = cell_at cid cli in
    ground (
      arith,
      ⊕-is_vacuous (compare_cells fam repo cid c d) (compare_controls fam repo pairs ci cli),
      compare_cells-is_vacuous fam repo cid c d,
      compare_controls-is_vacuous fam repo pairs ci cli,
    )

compare_answers-is_vacuous :
    (fam : Family) (repo : Str) (ci cli : Answer)
    → not (is_vacuous (compare_answers fam repo ci cli)) ≡ decides fam ci cli
unfolding compare_answers
compare_answers-is_vacuous fam repo (error text) cli = refl
compare_answers-is_vacuous fam repo (cells ci) (error text) = refl
compare_answers-is_vacuous fam repo (cells ci) (cells cli) =
    compare_controls-is_vacuous fam repo fam.pairs ci cli

run_family-is_vacuous :
    (fam : Family) (repos : List Repo)
    → not (is_vacuous (run_family fam repos)) ≡ any (on_repo decides fam) repos
unfolding run_family any
run_family-is_vacuous fam [] = refl
run_family-is_vacuous fam (r ∷ rs) =
    let ci = ci_report fam (r.ci fam) in
    let cli = cli_report fam (r.cli fam) in
    ground (
      arith,
      ⊕-is_vacuous (compare_answers fam r.name ci cli) (run_family fam rs),
      compare_answers-is_vacuous fam r.name ci cli,
      run_family-is_vacuous fam rs,
    )

family-FamilyAgrees :
    (repos : List Repo) (fam : Family)
    → ((family_failed fam (run_family fam repos) ≡ false) × ((run_family fam repos).errors ≡ []))
      ↔ FamilyAgrees repos fam
family-FamilyAgrees repos fam =
    let t = run_family fam repos in
    let (f, g) = run_family-IsFine fam repos in
    let v = run_family-is_vacuous fam repos in
    (
      λ (a, b). (f (b, (ground arith, ground arith)), ground (arith, v)),
      λ (a, b). let (e, (d, c)) = g a in (ground (arith, v), e),
    )

all-FamilyAgrees :
    (fams : List Family) (repos : List Repo)
    → ((any_failed fams repos ≡ false) × (shared_errors fams repos ≡ []))
      ↔ All (FamilyAgrees repos) fams
unfolding any_failed shared_errors
all-FamilyAgrees [] repos = (λ h. tt, λ h. (refl, refl))
all-FamilyAgrees (fam ∷ fams) repos =
    let (f, g) = family-FamilyAgrees repos fam in
    let (f1, g1) = all-FamilyAgrees fams repos in
    (
      λ (a, b).
          let (b1, b2) = append-eq-nil (run_family fam repos).errors (shared_errors fams repos) b in
          (f (ground arith, b1), f1 (ground arith, b2)),
      λ (h, hs).
          let (a, b) = g h in let (a1, b1) = g1 hs in (ground (arith, a, a1), rw (b, b1) refl),
    )

is_nil→eq : {A : Type 0} (xs : List A) → (is_nil xs ≡ true) ↔ (xs ≡ [])
is_nil→eq [] = (λ h. refl, λ h. refl)
is_nil→eq (x ∷ xs) = (λ h. cc, λ h. ground arith)

-- The harness passes exactly where, in each family, both detectors answer about every repository, on
-- every control that the CI decides the CLI gives the same verdict, and the same count where counts
-- are binding, and the CI decides some control; and both tools wrote a baseline whose comment, where
-- it has one, names the three members and the rule, and is the other's, where both have one. What the
-- CLI says about a control that the CI does not decide is not compared.
pub main_code-FamilyAgrees :
    (fams : List Family) (repos : List Repo) (ci cli : ToolRun)
    → (main_code fams repos ci cli ≡ 0) ↔ (All (FamilyAgrees repos) fams × CommentsAgree ci cli)
unfolding main_code
main_code-FamilyAgrees fams repos ci cli =
    let (f, g) = all-FamilyAgrees fams repos in
    let (f1, g1) = artifact-CommentsAgree ci cli in
    let p = is_nil→eq (baseline_artifact_parity ci cli) in
    let q = is_nil→eq (shared_errors fams repos) in
    (
      λ h. (f (ground arith, q.0 (ground arith)), f1 (p.0 (ground arith))),
      λ (a, b). let (x, y) = g a in let n = p.1 (g1 b) in let m = q.1 y in ground arith,
    )
