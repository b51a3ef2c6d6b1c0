-- ===== src/RawSql/Generated.antt =====
-- The files that scripts/check_no_raw_sql.py takes for generated ones.
use ci_workflows.Base.{
  ℕ, suc, true, false, [], ◌∷◌, ◌++◌, ◌≡◌, ◌↔◌, ◌⊎◌, inl, inr, refl, sym, ap, ◌∙◌, subst, arith,
  ◌≤◌, length, Bool-cases,
}
use ci_workflows.Base.Text.{Str, codes, starts_with}
use ci_workflows.Base.Scan.{
  behind, behind_iff, within_line, within_line_iff, IsFree, OnSomeLine, at_some_line-OnSomeLine,
  starts_with_iff,
}
use ci_workflows.RawSql.{header, ends_line, is_marker, is_generated_source}

-- What stands before the first line feed with `package ` behind it, or the whole text.
abbrev pub IsHeader : Str → Str → Type 0
IsHeader text head =
    (tail : Str) × ((text ≡ head ++ tail)
      × (((tail ≡ []) ⊎ ((rest : Str) × (tail ≡ codes "\npackage " ++ rest)))
          × ((before after : Str)
              → text ≡ before ++ (codes "\npackage " ++ after)
              → length head ≤ length before)))

-- A line that is the marker of a generator.
abbrev pub IsMarker : Str → Type 0
IsMarker s =
    (mid : Str) × ((rest : Str) × ((s
          ≡ codes "// Code generated " ++ (mid ++ (codes " DO NOT EDIT." ++ rest)))
        × (IsFree 10 mid × ((rest ≡ []) ⊎ ((more : Str) × (rest ≡ 10 ∷ more))))))

-- A text that declares itself generated in its header.
abbrev pub IsDeclared : Str → Type 0
IsDeclared text = (head : Str) × (IsHeader text head × OnSomeLine IsMarker head)

ends_line-End : (s : Str) → (ends_line s ≡ true) ↔ ((s ≡ []) ⊎ ((more : Str) × (s ≡ 10 ∷ more)))
ends_line-End [] = (λ h. inl refl, λ h. refl)
ends_line-End (c ∷ s) = (
  λ h. inr (s, let same : c ≡ 10 = ground (arith, h) in ap (λ z. z ∷ s) same),
  λ h. elim h [
    | inl e ↦ cc
    | inr (more, e) ↦ let same : c ≡ 10 = ground arith in ground (arith, same)
  ],
)

is_marker-IsMarker : (s : Str) → (is_marker s ≡ true) ↔ IsMarker s
unfolding is_marker
is_marker-IsMarker s =
    let last = behind (codes " DO NOT EDIT.") ends_line in
    let (f, g) = behind_iff (codes "// Code generated ") (within_line last) s in
    (
      λ h.
          let (r, (e, w)) = f h in
          let (mid, (u, (e2, (free, b)))) = (within_line_iff last r).0 w in
          let (rest, (e3, k)) = (behind_iff (codes " DO NOT EDIT.") ends_line u).0 b in
          let whole = e ∙ ap (λ z. codes "// Code generated " ++ z) (e2 ∙ ap (λ z. mid ++ z) e3) in
          (mid, (rest, (whole, (free, (ends_line-End rest).0 k)))),
      λ (mid, (rest, (e, (free, k)))).
          let u = codes " DO NOT EDIT." ++ rest in
          let b =
            (behind_iff (codes " DO NOT EDIT.") ends_line u).1
              (rest, (refl, (ends_line-End rest).1 k)) in
          g (mid ++ u, (e, (within_line_iff last (mid ++ u)).1 (mid, (u, (refl, (free, b)))))),
    )

header-IsHeader : (text : Str) → IsHeader text (header text)
unfolding header
header-IsHeader [] = ([], (refl, (inl refl, λ before after e. omega arith)))
header-IsHeader (c ∷ s) = elim (Bool-cases (starts_with (codes "\npackage ") (c ∷ s))) [
  | inl t ↦
      let (rest, e) = (starts_with_iff (codes "\npackage ") (c ∷ s)).0 t in
      rw t (c ∷ s, (refl, (inr (rest, e), λ before after k. omega arith)))
  | inr n ↦
      let (tail, (e, (k, first))) = header-IsHeader s in
      rw n (tail, (ap (λ z. c ∷ z) e, (k, later c s (header s) n first)))
]
  where
    later :
        (c : ℕ) (s head : Str)
        → starts_with (codes "\npackage ") (c ∷ s) ≡ false
        → ((before after : Str)
            → s ≡ before ++ (codes "\npackage " ++ after)
            → length head ≤ length before)
        → (before after : Str) → c ∷ s ≡ before ++ (codes "\npackage " ++ after)
        → suc (length head) ≤ length before
    later c s head n first [] after e =
        let t = (starts_with_iff (codes "\npackage ") (c ∷ s)).1 (after, e) in cc
    later c s head n first (d ∷ before) after e = let k = first before after cc in omega arith

-- There is one header.
IsHeader-header : (head text : Str) → IsHeader text head → header text ≡ head
unfolding header starts_with
IsHeader-header [] text (tail, (e, (inl k, first))) = ap header (e ∙ k)
IsHeader-header [] text (tail, (e, (inr (rest, k), first))) = ap header (e ∙ k)
IsHeader-header (c ∷ head) [] (tail, (e, (k, first))) = cc
IsHeader-header (c ∷ head) (d ∷ s) (tail, (e, (k, first))) =
    elim (Bool-cases (starts_with (codes "\npackage ") (d ∷ s))) [
      | inl t ↦
          let (rest, e2) = (starts_with_iff (codes "\npackage ") (d ∷ s)).0 t in
          absurd (omega (arith, first [] rest e2))
      | inr n ↦
          let same : d ≡ c = cc in
          let here : header (d ∷ s) ≡ d ∷ header s = rw (header, n) refl in
          let more = IsHeader-header head s (
            tail,
            (
              cc,
              (
                k,
                λ before after e2.
                    let longer = first (d ∷ before) after (ap (λ z. d ∷ z) e2) in omega arith,
              ),
            ),
          ) in
          here ∙ cc
    ]

pub is_generated_source-IsDeclared :
    (text : Str) → (is_generated_source text ≡ true) ↔ IsDeclared text
unfolding is_generated_source
is_generated_source-IsDeclared text =
    let (f, g) = at_some_line-OnSomeLine is_marker IsMarker is_marker-IsMarker (header text) in
    (
      λ h. (header text, (header-IsHeader text, f h)),
      λ (head, (i, m)). g (subst (OnSomeLine IsMarker) (sym (IsHeader-header head text i)) m),
    )
