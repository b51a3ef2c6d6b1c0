-- ===== src/Parity/Tallies.antt =====
-- What one control adds to a run of scripts/check-detector-parity.py, and sums of such parts.
use ci_workflows.Base.{
  Bool, true, false, not, ◌&&◌, Option, none, some, [], ◌==◌, ◌≡◌, ◌↔◌, ◌⊎◌, inl, inr, refl, sym,
  ap, arith, append-eq-nil, Bool-cases, Option-cases, subst,
}
use ci_workflows.Base.Text.{Str}
use ci_workflows.ModulePins.{Dict}
use ci_workflows.Parity.{Verdict, Family, Cell, cell_at}
use ci_workflows.Parity.Run.{
  Tally, nothing, ◌⊕◌, verdict_eq, compare_verdict, compare_asked, compare_cells, is_vacuous,
}

-- A control that the CI does not decide, or for which both give one verdict, and one count where
-- counts are binding.
abbrev pub SameCells : Family → Cell → Cell → Type 0
SameCells fam ci cli =
    (ci.verdict ≡ none)
    ⊎ ((v : Verdict) × ((ci.verdict ≡ some v)
          × ((cli.verdict ≡ some v) × ((fam.strict_counts ≡ false) ⊎ (ci.count ≡ cli.count)))))

abbrev pub Agrees : Family → Dict Cell → Dict Cell → Str × Str → Type 0
Agrees fam ci cli (cid, check) = SameCells fam (cell_at cid ci) (cell_at cid cli)

abbrev pub has_verdict : Option Verdict → Bool
has_verdict none = false
has_verdict (some v) = true

-- What a part of the run adds does not fail it.
abbrev pub IsFine : Family → Tally → Type 0
IsFine fam t =
    (t.errors ≡ []) × ((t.disagree ≡ 0) × ((fam.strict_counts ≡ false) ⊎ (t.count_gaps ≡ 0)))

verdict_eq→eq : (v w : Verdict) → (verdict_eq v w ≡ true) ↔ (v ≡ w)
unfolding verdict_eq
verdict_eq→eq v w = ground arith

pub ⊕-IsFine : (fam : Family) (s t : Tally) → IsFine fam (s ⊕ t) ↔ (IsFine fam s × IsFine fam t)
⊕-IsFine fam s t = (
  λ (e, (d, g)).
      let (a, b) = append-eq-nil s.errors t.errors e in
      ((a, (omega arith, ground arith)), (b, (omega arith, ground arith))),
  λ ((a, (d, g)), (b, (d1, g1))). (rw (a, b) refl, (omega arith, ground arith)),
)

compare_verdict-IsFine :
    (fam : Family) (repo cid : Str) (v w : Verdict) (ci cli : Cell)
    → cli.verdict ≡ some w
    → IsFine fam (compare_verdict fam repo cid v ci cli)
      ↔ ((v ≡ w) × ((fam.strict_counts ≡ false) ⊎ (ci.count ≡ cli.count)))
compare_verdict-IsFine fam repo cid v w ci cli e =
    let (f, g) = verdict_eq→eq v w in
    elim (Bool-cases (verdict_eq v w)) [
      | inr n ↦
          rw (e, n) (λ (a, (b, c)). absurd (omega arith), λ (a, b). absurd (ground (arith, g a, n)))
      | inl y ↦ elim (Bool-cases (ci.count == cli.count)) [
        | inl s ↦ rw (e, y, s) (λ h. (f y, inr (ground (arith, s))), λ h. (refl, (refl, inr refl)))
        | inr d ↦
            rw (e, y, d)
              (λ (a, (b, c)). (f y, ground (arith, d)), λ (a, b). (refl, (refl, ground (arith, d))))
      ]
    ]

compare_verdict-unanswered :
    (fam : Family) (repo cid : Str) (v : Verdict) (ci cli : Cell)
    → cli.verdict ≡ none
    → IsFine fam (compare_verdict fam repo cid v ci cli)
    → ⊥
compare_verdict-unanswered fam repo cid v ci cli e = rw e (λ (a, (b, c)). absurd (omega arith))

compare_cells-some :
    (fam : Family) (repo cid : Str) (v : Verdict) (ci cli : Cell)
    → ci.verdict ≡ some v
    → compare_cells fam repo cid ci cli ≡ compare_verdict fam repo cid v ci cli
unfolding compare_cells
compare_cells-some fam repo cid v ci cli e = ap (compare_asked fam repo cid ci cli) e

pub compare_cells-IsFine :
    (fam : Family) (repo cid : Str) (ci cli : Cell)
    → IsFine fam (compare_cells fam repo cid ci cli) ↔ SameCells fam ci cli
unfolding compare_cells
compare_cells-IsFine fam repo cid ci cli = elim (Option-cases ci.verdict) [
  | inl e ↦ rw (e, compare_cells) (λ h. inl refl, λ h. (refl, (refl, inr refl)))
  | inr (v, e) ↦
      let same : compare_cells fam repo cid ci cli ≡ compare_verdict fam repo cid v ci cli =
        compare_cells-some fam repo cid v ci cli e in
      elim (Option-cases cli.verdict) [
        | inl d ↦ (
          λ h.
              absurd
                (compare_verdict-unanswered fam repo cid v ci cli d (subst (IsFine fam) same h)),
          λ h. elim h [
            | inl x ↦ ground (arith, x, e)
            | inr (u, (x, (y, z))) ↦ ground (arith, y, d)
          ],
        )
        | inr (w, d) ↦
            let (f, g) = compare_verdict-IsFine fam repo cid v w ci cli d in
            (
              λ h.
                  let (a, b) = f (subst (IsFine fam) same h) in
                  inr (v, (e, (ground (arith, a, d), b))),
              λ h. elim h [
                | inl x ↦ ground (arith, x, e)
                | inr (u, (x, (y, z))) ↦
                    let equal : v ≡ w = ground arith in subst (IsFine fam) (sym same) (g (equal, z))
              ],
            )
      ]
]

-- A part is vacuous where it reaches no verdict.
pub ⊕-is_vacuous : (s t : Tally) → is_vacuous (s ⊕ t) ≡ (is_vacuous s && is_vacuous t)
⊕-is_vacuous s t = ground arith

pub compare_cells-is_vacuous :
    (fam : Family) (repo cid : Str) (ci cli : Cell)
    → is_vacuous (compare_cells fam repo cid ci cli) ≡ not (has_verdict ci.verdict)
unfolding compare_cells
compare_cells-is_vacuous fam repo cid ci cli = elim (Option-cases ci.verdict) [
  | inl e ↦
      let same : compare_cells fam repo cid ci cli ≡ record nothing { unasked = 1 } =
        ap (compare_asked fam repo cid ci cli) e in
      ground (arith, same, e)
  | inr (v, e) ↦
      let same = compare_cells-some fam repo cid v ci cli e in
      let decided : is_vacuous (compare_verdict fam repo cid v ci cli) ≡ false = ground arith in
      ground (arith, same, decided, e)
]
