-- ===== src/OpenapiGenerator/Wired.antt =====
-- `main` of scripts/check-openapi-generator.py: when it passes.
use ci_workflows.OpenapiGenerator.Patterns.{
  IsEscaping, IsAssigning, IsTarget, IsSwallowing, IsMentioning, sources_outside-IsEscaping,
  assigns-IsAssigning, is_target-IsTarget, somewhere-IsSwallowing, has_sub-IsMentioning,
}
use ci_workflows.Base.{
  ℕ, Bool, true, false, Option, none, some, List, [], ◌∷◌, ◌++◌, ◌≡◌, ◌↔◌, ◌⊎◌, inl, inr, refl, sym,
  ap, ◌∙◌, subst, arith, All, Bool-cases, Option-cases,
}
use ci_workflows.Base.Text.{Str, has_sub}
use ci_workflows.Base.Scan.{somewhere, at_some_line, OnSomeLine, at_some_line-OnSomeLine}
use ci_workflows.OpenapiGenerator.{
  Repo, canonical_suffix, sources_outside, swallows, assigns, is_target, Defect, defects,
  makefile_text, check_repo, rc_of, either_code, defect_if, unless, wired_if, vendored, escaping,
  no_canonical, swallowed, swallowing, run, main_code,
}

-- What holds of scripts/swagger.sh and beside it.
abbrev pub IsSoundCaller : Repo → Str → Type 0
IsSoundCaller repo text =
    (repo.has_vendored ≡ false)
    × (IsMentioning text
        × ((¬ OnSomeLine IsEscaping text)
            × ((¬ OnSomeLine IsAssigning text) × (¬ IsSwallowing text))))

-- A repository whose generator is another engine, by a target of its Makefile, or whose
-- scripts/swagger.sh mentions the canonical library and has none of the defects.
abbrev pub IsWired : Repo → Type 0
IsWired repo =
    ((repo.caller ≡ none) × OnSomeLine IsTarget (makefile_text repo.makefile))
    ⊎ ((text : Str) × ((repo.caller ≡ some text) × IsSoundCaller repo text))

-- A test fails exactly where what it finds is not there.
false_iff {ℓ} : {P : Type ℓ} (b : Bool) → (b ≡ true) ↔ P → (b ≡ false) ↔ (¬ P)
false_iff true i = (λ h. cc, λ n. absurd (n (i.0 refl)))
false_iff false i = (λ h p. let t = i.1 p in cc, λ n. refl)

-- No defect is listed exactly where no test finds one.
listed-nil :
    (v e c s a : Bool)
    → (defect_if v vendored
          ++ (defect_if e escaping
              ++ (unless c no_canonical ++ (defect_if s swallowed ++ defect_if a swallowing)))
        ≡ [])
      ↔ ((v ≡ false) × ((c ≡ true) × ((e ≡ false) × ((a ≡ false) × (s ≡ false)))))
listed-nil true e c s a = (λ h. ground arith, λ (x, y). cc)
listed-nil false true c s a = (λ h. ground arith, λ (x, (y, (z, w))). cc)
listed-nil false false false s a = (λ h. ground arith, λ (x, (y, z)). cc)
listed-nil false false true true a = (λ h. ground arith, λ (x, (y, (z, (w, u)))). cc)
listed-nil false false true false true = (λ h. ground arith, λ (x, (y, (z, (w, u)))). cc)
listed-nil false false true false false = (λ h. (refl, (refl, (refl, (refl, refl)))), λ h. refl)

defects-nil :
    (v : Bool) (text : Str)
    → (defects v text ≡ []) ↔ (
        (v ≡ false)
        × ((has_sub canonical_suffix text ≡ true)
            × ((at_some_line sources_outside text ≡ false)
                × ((at_some_line assigns text ≡ false) × (somewhere swallows text ≡ false)))))
unfolding defects
defects-nil v text =
    listed-nil v (at_some_line sources_outside text) (has_sub canonical_suffix text)
      (somewhere swallows text) (at_some_line assigns text)

wired_if-code : (ds : List Defect) → (rc_of (wired_if ds) ≡ 0) ↔ (ds ≡ [])
wired_if-code [] = (λ h. refl, λ h. refl)
wired_if-code (d ∷ ds) = (λ h. ground arith, λ h. cc)

defects-IsSoundCaller :
    (repo : Repo) (text : Str) → (defects repo.has_vendored text ≡ []) ↔ IsSoundCaller repo text
defects-IsSoundCaller repo text =
    let (f, g) = defects-nil repo.has_vendored text in
    let (fm, gm) = has_sub-IsMentioning text in
    let (fo, go) =
      false_iff (at_some_line sources_outside text)
        (at_some_line-OnSomeLine sources_outside IsEscaping sources_outside-IsEscaping text) in
    let (fa, ga) =
      false_iff (at_some_line assigns text)
        (at_some_line-OnSomeLine assigns IsAssigning assigns-IsAssigning text) in
    let (fs, gs) = false_iff (somewhere swallows text) (somewhere-IsSwallowing text) in
    (
      λ h. let (v, (c, (o, (a, s)))) = f h in (v, (fm c, (fo o, (fa a, fs s)))),
      λ (v, (c, (o, (a, s)))). g (v, (gm c, (go o, (ga a, gs s)))),
    )

check_repo-IsWired : (repo : Repo) → (rc_of (check_repo repo) ≡ 0) ↔ IsWired repo
unfolding check_repo
check_repo-IsWired repo = elim (Option-cases repo.caller) [
  | inl e ↦
      let (f, g) =
        at_some_line-OnSomeLine is_target IsTarget is_target-IsTarget
          (makefile_text repo.makefile) in
      elim (Bool-cases (at_some_line is_target (makefile_text repo.makefile))) [
        | inl t ↦ (λ h. inl (e, f t), λ h. ground (arith, e, t))
        | inr t ↦ (
          λ h. ground (arith, e, t),
          λ h. elim h [
            | inl (x, y) ↦ let u = g y in ground (arith, t, u)
            | inr (text, (x, y)) ↦ ground (arith, e, x)
          ],
        )
      ]
  | inr (text, e) ↦
      let judged : check_repo repo ≡ wired_if (defects repo.has_vendored text) =
        rw (check_repo, e) refl in
      let (f, g) = wired_if-code (defects repo.has_vendored text) in
      let (f1, g1) = defects-IsSoundCaller repo text in
      (
        λ h. inr (text, (e, f1 (f (ap rc_of (sym judged) ∙ h)))),
        λ h. elim h [
          | inl (x, y) ↦ ground (arith, e, x)
          | inr (text2, (x, k)) ↦
              let same : text2 ≡ text = ground (arith, x, e) in
              ap rc_of judged ∙ g (g1 (subst (IsSoundCaller repo) same k))
        ],
      )
]

-- A path that is a repository that is wired.
abbrev pub IsWiredRepo : Option Repo → Type 0
IsWiredRepo none = ⊥
IsWiredRepo (some repo) = IsWired repo

run-IsWired :
    (rc : ℕ) (repos : List (Option Repo)) → (run rc repos ≡ 0) ↔ ((rc ≡ 0) × All IsWiredRepo repos)
unfolding run
run-IsWired rc [] = (λ h. (h, tt), λ (h, _). h)
run-IsWired rc (none ∷ repos) = (λ h. ground arith, λ (h, (k, ks)). absurd k)
run-IsWired rc (some repo ∷ repos) =
    let (f, g) = run-IsWired (either_code rc (rc_of (check_repo repo))) repos in
    let (f1, g1) = check_repo-IsWired repo in
    (
      λ h.
          let (both, rest) = f h in
          let (a, b) = either-zero rc (rc_of (check_repo repo)) both in (a, (f1 b, rest)),
      λ (a, (k, ks)). let b = g1 k in g (ground (arith, a, b), ks),
    )
  where
    either-zero : (a b : ℕ) → either_code a b ≡ 0 → (a ≡ 0) × (b ≡ 0)
    either-zero a b h = ground arith

-- The check passes exactly if each path is a repository that is wired: it has no scripts/swagger.sh
-- and a Makefile with a line for the target of the other engine, or that script has the path of the
-- canonical library somewhere in its text, no vendored copy beside it, no line that sources a path
-- with `../../..`, no line that assigns SHARED_GO_DIR by `:`, and no place where a failure of the
-- normalizer goes to /dev/null or to `true`.
pub main_code-IsWiredRepo :
    (repos : List (Option Repo)) → (main_code repos ≡ 0) ↔ All IsWiredRepo repos
main_code-IsWiredRepo repos = let (f, g) = run-IsWired 0 repos in (λ h. (f h).1, λ k. g (refl, k))
