-- ===== src/OpenapiGenerator/Patterns.antt =====
-- The texts that the expressions of scripts/check-openapi-generator.py find.
use ci_workflows.Base.{
  ℕ, Bool, true, ◌||◌, [], ◌∷◌, ◌++◌, ◌≡◌, ◌↔◌, ◌⊎◌, inl, inr, refl, ap, ◌∙◌, arith, Bool-cases,
  false,
}
use ci_workflows.Base.Text.{Str, codes, starts_with, has_sub, is_space}
use ci_workflows.Base.Scan.{
  behind, skip_spaces, somewhere, somewhere_iff, within_line, IsFree, IsPastSpaces,
  skip_spaces-IsPastSpaces, starts_with_iff, behind_iff, within_line_iff, HasPart, has_sub-HasPart,
  past_literal,
}
use ci_workflows.OpenapiGenerator.{
  canonical_suffix, behind_spaces, climbs, sources_outside, to_null, or_true, swallows, assigns,
  is_target,
}

-- A word behind white space at the start of a line, white space behind it, and the rest.
abbrev pub IsSpaced : Str → Str → Str → Type 0
IsSpaced word s rest =
    (t : Str) × ((space : ℕ) × ((r : Str) × (IsPastSpaces s t
          × ((t ≡ word ++ space ∷ r) × ((is_space space ≡ true) × IsPastSpaces r rest)))))

-- A line that sources a path with three steps up on that line.
abbrev pub IsEscaping : Str → Type 0
IsEscaping s =
    (t : Str) × ((mid : Str) × ((rest : Str) × ((IsSpaced (codes "source") s t
            ⊎ IsSpaced (codes ".") s t)
          × ((t ≡ mid ++ (codes "../../.." ++ rest)) × IsFree 10 mid))))

-- A line that assigns by `:`.
abbrev pub IsAssigning : Str → Type 0
IsAssigning s =
    (t : Str) × ((rest : Str) × (IsSpaced (codes ":") s t
        × (t ≡ codes "\"${SHARED_GO_DIR:=" ++ rest)))

abbrev pub IsTarget : Str → Type 0
IsTarget s =
    (t : Str) × ((rest : Str) × ((s ≡ codes "openapi-contract-check" ++ t)
        × IsPastSpaces t (codes ":" ++ rest)))

-- A literal, a second one on the same line, and a third one behind it and white space.
abbrev pub Discards : Str → Str → Str → Str → Type 0
Discards first second third s =
    (mid : Str) × ((t : Str) × ((rest : Str) × ((s ≡ first ++ (mid ++ (second ++ t)))
          × (IsFree 10 mid × IsPastSpaces t (third ++ rest)))))

-- A text in which a failure of the normalizer is swallowed.
abbrev pub IsSwallowing : Str → Type 0
IsSwallowing text =
    (before : Str) × ((s : Str) × ((text ≡ before ++ s)
        × (Discards (codes "ensure_openapi_normalize") (codes "2>") (codes "/dev/null") s
            ⊎ (Discards (codes "_OPENAPI_NORMALIZE_BIN") (codes "||") (codes "true") s
                ⊎ Discards (codes "openapi-normalize") (codes "||") (codes "true") s))))

-- A text with the path of the canonical library in it.
abbrev pub IsMentioning : Str → Type 0
IsMentioning text = HasPart (codes "tooling/openapi/lib/swagger.sh") text

IsSpaced-iff :
    (word : Str) (test : Str → Bool) (s : Str)
    → (behind word (behind_spaces test) (skip_spaces s) ≡ true)
      ↔ ((rest : Str) × (IsSpaced word s rest × (test rest ≡ true)))
unfolding behind_spaces
IsSpaced-iff word test s =
    let (f, g) = skip_spaces-IsPastSpaces (behind word (behind_spaces test)) s in
    (
      λ h.
          let (t, (p, b)) = f h in
          let (u, (e, k)) = (behind_iff word (behind_spaces test) t).0 b in opened t p u e k,
      λ (rest, ((t, (space, (r, (p, (e, (w, q)))))), h)).
          let k = (skip_spaces-IsPastSpaces test r).1 (rest, (q, h)) in
          g (
            t,
            (p, (behind_iff word (behind_spaces test) t).1 (space ∷ r, (e, ground (arith, w, k)))),
          ),
    )
  where
    opened :
        (t : Str)
        → IsPastSpaces s t
        → (u : Str) → t ≡ word ++ u
        → behind_spaces test u ≡ true
        → (rest : Str) × (IsSpaced word s rest × (test rest ≡ true))
    opened t p [] e k = cc
    opened t p (c ∷ r) e k =
        let (rest, (q, h)) = (skip_spaces-IsPastSpaces test r).0 (ground (arith, k)) in
        (rest, ((t, (c, (r, (p, (e, (ground (arith, k), q)))))), h))

climbs_iff :
    (s : Str)
    → (climbs s ≡ true)
      ↔ ((mid : Str) × ((rest : Str) × ((s ≡ mid ++ (codes "../../.." ++ rest)) × IsFree 10 mid)))
unfolding climbs
climbs_iff s =
    let (f, g) = within_line_iff (starts_with (codes "../../..")) s in
    (
      λ h.
          let (mid, (u, (e, (free, t)))) = f h in
          let (rest, e2) = (starts_with_iff (codes "../../..") u).0 t in
          (mid, (rest, (e ∙ ap (λ z. mid ++ z) e2, free))),
      λ (mid, (rest, (e, free))). g (
        mid,
        (
          codes "../../.." ++ rest,
          (
            e,
            (free, (starts_with_iff (codes "../../..") (codes "../../.." ++ rest)).1 (rest, refl)),
          ),
        ),
      ),
    )

pub sources_outside-IsEscaping : (s : Str) → (sources_outside s ≡ true) ↔ IsEscaping s
unfolding sources_outside
sources_outside-IsEscaping s =
    let (f, g) = IsSpaced-iff (codes "source") climbs s in
    let (f1, g1) = IsSpaced-iff (codes ".") climbs s in
    (
      λ h. elim (Bool-cases (behind (codes "source") (behind_spaces climbs) (skip_spaces s))) [
        | inl t ↦
            let (u, (p, c)) = f t in
            let (mid, (rest, (e, free))) = (climbs_iff u).0 c in
            (u, (mid, (rest, (inl p, (e, free)))))
        | inr n ↦
            let (u, (p, c)) = f1 (ground (arith, n)) in
            let (mid, (rest, (e, free))) = (climbs_iff u).0 c in
            (u, (mid, (rest, (inr p, (e, free)))))
      ],
      λ (u, (mid, (rest, (p, (e, free))))).
          let c = (climbs_iff u).1 (mid, (rest, (e, free))) in
          elim p [
            | inl q ↦ let t = g (u, (q, c)) in ground (arith, t)
            | inr q ↦ let t = g1 (u, (q, c)) in ground (arith, t)
          ],
    )

pub assigns-IsAssigning : (s : Str) → (assigns s ≡ true) ↔ IsAssigning s
unfolding assigns
assigns-IsAssigning s =
    let literal = codes "\"${SHARED_GO_DIR:=" in
    let (f, g) = IsSpaced-iff (codes ":") (starts_with literal) s in
    (
      λ h.
          let (t, (p, k)) = f h in
          let (rest, e) = (starts_with_iff literal t).0 k in (t, (rest, (p, e))),
      λ (t, (rest, (p, e))). g (t, (p, (starts_with_iff literal t).1 (rest, e))),
    )

pub is_target-IsTarget : (s : Str) → (is_target s ≡ true) ↔ IsTarget s
unfolding is_target
is_target-IsTarget s =
    let (f, g) =
      behind_iff (codes "openapi-contract-check") (λ t. starts_with (codes ":") (skip_spaces t))
        s in
    (
      λ h.
          let (t, (e, k)) = f h in
          let (rest, p) = (past_literal (codes ":") t).0 k in (t, (rest, (e, p))),
      λ (t, (rest, (e, p))). g (t, (e, (past_literal (codes ":") t).1 (rest, p))),
    )

Discards-iff :
    (first second third s : Str)
    → (behind first (within_line (behind second (λ t. starts_with third (skip_spaces t)))) s ≡ true)
      ↔ Discards first second third s
Discards-iff first second third s =
    let last = λ (t : Str). starts_with third (skip_spaces t) in
    let (f, g) = behind_iff first (within_line (behind second last)) s in
    (
      λ h.
          let (r, (e, w)) = f h in
          let (mid, (u, (e2, (free, b)))) = (within_line_iff (behind second last) r).0 w in
          let (t, (e3, k)) = (behind_iff second last u).0 b in
          let (rest, p) = (past_literal third t).0 k in
          let whole = e ∙ ap (λ z. first ++ z) (e2 ∙ ap (λ z. mid ++ z) e3) in
          (mid, (t, (rest, (whole, (free, p))))),
      λ (mid, (t, (rest, (e, (free, p))))).
          let k = (past_literal third t).1 (rest, p) in
          let b = (behind_iff second last (second ++ t)).1 (t, (refl, k)) in
          let w =
            (within_line_iff (behind second last) (mid ++ (second ++ t))).1
              (mid, (second ++ t, (refl, (free, b)))) in
          g (mid ++ (second ++ t), (e, w)),
    )

abbrev IsSwallowed : Str → Type 0
IsSwallowed s =
    Discards (codes "ensure_openapi_normalize") (codes "2>") (codes "/dev/null") s
    ⊎ (Discards (codes "_OPENAPI_NORMALIZE_BIN") (codes "||") (codes "true") s
        ⊎ Discards (codes "openapi-normalize") (codes "||") (codes "true") s)

or_iff {ℓ κ} :
    {P : Type ℓ} {Q : Type κ} (a b : Bool)
    → (a ≡ true) ↔ P
    → (b ≡ true) ↔ Q
    → ((a || b) ≡ true) ↔ (P ⊎ Q)
or_iff true b i j = (λ h. inl (i.0 refl), λ h. refl)
or_iff false b i j = (λ h. inr (j.0 h), λ h. elim h [ inl p ↦ let t = i.1 p in cc | inr q ↦ j.1 q ])

swallows-IsSwallowed : (s : Str) → (swallows s ≡ true) ↔ IsSwallowed s
unfolding swallows to_null or_true
swallows-IsSwallowed s =
    or_iff _ _ (Discards-iff (codes "ensure_openapi_normalize") (codes "2>") (codes "/dev/null") s)
      (or_iff _ _ (Discards-iff (codes "_OPENAPI_NORMALIZE_BIN") (codes "||") (codes "true") s)
        (Discards-iff (codes "openapi-normalize") (codes "||") (codes "true") s))

pub somewhere-IsSwallowing : (text : Str) → (somewhere swallows text ≡ true) ↔ IsSwallowing text
somewhere-IsSwallowing text =
    let (f, g) = somewhere_iff swallows text in
    (
      λ h. let (b, (s, (e, k))) = f h in (b, (s, (e, (swallows-IsSwallowed s).0 k))),
      λ (b, (s, (e, k))). g (b, (s, (e, (swallows-IsSwallowed s).1 k))),
    )

pub has_sub-IsMentioning : (text : Str) → (has_sub canonical_suffix text ≡ true) ↔ IsMentioning text
has_sub-IsMentioning text = has_sub-HasPart b't' (codes "ooling/openapi/lib/swagger.sh") text
