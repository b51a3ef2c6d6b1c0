-- ===== src/Seed/Mentioned.antt =====
-- What scripts/check-seed-contract.py asks of the text of a Dockerfile.
use ci_workflows.Base.{
  ℕ, Bool, true, false, Option, none, some, [], ◌∷◌, ◌++◌, ◌≡◌, ◌↔◌, ◌⊎◌, inl, inr, refl, ap, ◌∙◌,
  subst, arith, Bool-cases,
}
use ci_workflows.Base.Text.{Str, codes, has_sub, is_space}
use ci_workflows.Base.Scan.{
  behind, skip_spaces, somewhere_iff, behind_iff, IsPastSpaces, skip_spaces-IsPastSpaces, HasPart,
  has_sub-HasPart,
}
use ci_workflows.Seed.Guard.{Repo, begins_visible, has_marker, names_data, check_dockerfile}

-- A text with `# seed binary path: /app/` and a character that is no white space, where white space
-- may follow the `#` and the colon.
abbrev pub IsMarked : Str → Type 0
IsMarked text =
    (before : Str) × ((t : Str) × ((u : Str) × ((c : ℕ) × ((rest : Str) × ((text
                ≡ before ++ (codes "#" ++ t))
              × (IsPastSpaces t (codes "seed binary path:" ++ u)
                  × (IsPastSpaces u (codes "/app/" ++ c ∷ rest) × (is_space c ≡ false))))))))

-- A Dockerfile that has the marker of the seed binary, and names the path of the seed data.
abbrev pub IsMentioned : Option Str → Type 0
IsMentioned none = ⊥
IsMentioned (some text) =
    IsMarked text × (HasPart (codes "seed/data") text ⊎ HasPart (codes "seed\\data") text)

visible :
    (s : Str)
    → begins_visible s ≡ true
    → (c : ℕ) × ((rest : Str) × ((s ≡ c ∷ rest) × (is_space c ≡ false)))
visible [] h = cc
visible (c ∷ s) h = (c, (s, (refl, ground (arith, h))))

has_marker-IsMarked : (text : Str) → (has_marker text ≡ true) ↔ IsMarked text
unfolding has_marker
has_marker-IsMarked text =
    let (f, g) = somewhere_iff (behind (codes "#") named) text in
    (
      λ h.
          let (before, (s, (e, k))) = f h in
          let (t, (e1, k1)) = (behind_iff (codes "#") named s).0 k in
          let (v, (p, k2)) =
            (skip_spaces-IsPastSpaces (behind (codes "seed binary path:") pathed) t).0 k1 in
          let (u, (e2, k3)) = (behind_iff (codes "seed binary path:") pathed v).0 k2 in
          let (w, (q, k4)) =
            (skip_spaces-IsPastSpaces (behind (codes "/app/") begins_visible) u).0 k3 in
          let (x, (e3, k5)) = (behind_iff (codes "/app/") begins_visible w).0 k4 in
          let (c, (rest, (e4, k6))) = visible x k5 in
          let path = e3 ∙ ap (λ z. codes "/app/" ++ z) e4 in
          (
            before,
            (
              t,
              (
                u,
                (
                  c,
                  (
                    rest,
                    (
                      e ∙ ap (λ z. before ++ z) e1,
                      (subst (IsPastSpaces t) e2 p, (subst (IsPastSpaces u) path q, k6)),
                    ),
                  ),
                ),
              ),
            ),
          ),
      λ (before, (t, (u, (c, (rest, (e, (p, (q, n)))))))).
          let k5 : begins_visible (c ∷ rest) ≡ true = ground (arith, n) in
          let k4 =
            (behind_iff (codes "/app/") begins_visible (codes "/app/" ++ c ∷ rest)).1
              (c ∷ rest, (refl, k5)) in
          let k3 =
            (skip_spaces-IsPastSpaces (behind (codes "/app/") begins_visible) u).1 (_, (q, k4)) in
          let k2 =
            (behind_iff (codes "seed binary path:") pathed (codes "seed binary path:" ++ u)).1
              (u, (refl, k3)) in
          let k1 =
            (skip_spaces-IsPastSpaces (behind (codes "seed binary path:") pathed) t).1
              (_, (p, k2)) in
          let k = (behind_iff (codes "#") named (codes "#" ++ t)).1 (t, (refl, k1)) in
          g (before, (codes "#" ++ t, (e, k))),
    )
  where
    pathed : Str → Bool
    pathed u = behind (codes "/app/") begins_visible (skip_spaces u)

    named : Str → Bool
    named t = behind (codes "seed binary path:") pathed (skip_spaces t)

-- The tests of `check_dockerfile`.
abbrev IsTested : Option Str → Type 0
IsTested none = ⊥
IsTested (some text) = (has_marker text ≡ true) × (names_data text ≡ true)

check_dockerfile-IsTested : (r : Repo) → (check_dockerfile r ≡ []) ↔ IsTested r.dockerfile
unfolding check_dockerfile
check_dockerfile-IsTested r = ground arith

text_judged :
    (text : Str) → ((has_marker text ≡ true) × (names_data text ≡ true)) ↔ IsMentioned (some text)
text_judged text =
    let (f, g) = has_marker-IsMarked text in
    let (f1, g1) = has_sub-HasPart b's' (codes "eed/data") text in
    let (f2, g2) = has_sub-HasPart b's' (codes "eed\\data") text in
    (
      λ (a, b). (
        f a,
        elim (Bool-cases (has_sub (codes "seed/data") text)) [
          | inl t ↦ inl (f1 t)
          | inr n ↦ inr (f2 (ground (arith, b, n)))
        ],
      ),
      λ (a, b). (
        g a,
        elim b [
          | inl p ↦ let t = g1 p in ground (arith, t)
          | inr p ↦ let t = g2 p in ground (arith, t)
        ],
      ),
    )

IsTested-IsMentioned : (d : Option Str) → IsTested d ↔ IsMentioned d
IsTested-IsMentioned none = (λ h. h, λ h. h)
IsTested-IsMentioned (some text) = text_judged text

pub check_dockerfile-IsMentioned : (r : Repo) → (check_dockerfile r ≡ []) ↔ IsMentioned r.dockerfile
check_dockerfile-IsMentioned r =
    let (f, g) = check_dockerfile-IsTested r in
    let (f1, g1) = IsTested-IsMentioned r.dockerfile in (λ h. f1 (f h), λ k. g (g1 k))
