-- ===== src/BaseImages/Lines.antt =====
-- What scripts/check-base-image-registry.py reads in a line of a Dockerfile: the words behind `FROM`,
-- the base image, and the names of stages.
use ci_workflows.Base.Scan.{begins_with_space, lstrip-gap, lstrip_gap}
use ci_workflows.Base.{
  ℕ, true, false, some, List, [], ◌∷◌, ◌++◌, ◌==◌, ◌≡◌, ◌↔◌, ◌⊎◌, inl, inr, refl, sym, ap, ◌∙◌,
  arith, all, any, Bool-cases, Option-cases, ==→eq,
}
use ci_workflows.Base.Text.{
  Str, codes, str_eq, str_eq_iff, elem, elem-append, is_space, lstrip_by, lower, upper, upper_char,
  starts_with, words, pieces, drop_empty,
}
use ci_workflows.BaseImages.{drop_ignoring_case, from_words, image_token, named_stages, stage_names}

-- A line with the word `FROM` in any case, with white space behind it and none but white space before
-- it, and the words behind it.
abbrev pub IsFrom : Str → List Str → Type 0
IsFrom line ws =
    (gap : Str) × ((keyword : Str) × ((space : ℕ) × ((rest : Str) × ((line
              ≡ gap ++ (keyword ++ space ∷ rest))
            × ((all is_space gap ≡ true)
                × ((upper keyword ≡ codes "FROM")
                    × ((is_space space ≡ true) × (ws ≡ words rest))))))))

drop-some :
    (p s rest : Str)
    → drop_ignoring_case p s ≡ some rest
    → (keyword : Str) × ((s ≡ keyword ++ rest) × (upper keyword ≡ p))
unfolding drop_ignoring_case
drop-some [] s rest h = ([], (ground arith, refl))
drop-some (c ∷ p) [] rest h = cc
drop-some (c ∷ p) (d ∷ s) rest h = elim (Bool-cases (c == upper_char d)) [
  | inr e ↦ ground (arith, e)
  | inl e ↦
      let same = ==→eq c (upper_char d) e in
      let (k, (a, b)) = drop-some p s rest (ground (arith, e)) in (d ∷ k, (ap (λ z. d ∷ z) a, cc))
]

drop-keyword :
    (p keyword rest : Str) → upper keyword ≡ p → drop_ignoring_case p (keyword ++ rest) ≡ some rest
unfolding drop_ignoring_case
drop-keyword [] [] rest h = refl
drop-keyword [] (d ∷ k) rest h = cc
drop-keyword (c ∷ p) [] rest h = cc
drop-keyword (c ∷ p) (d ∷ k) rest h = ground (arith, drop-keyword p k rest)

-- The keyword does not begin with white space.
no_space :
    (keyword rest : Str)
    → upper keyword ≡ codes "FROM"
    → begins_with_space (keyword ++ rest) ≡ false
unfolding is_space
no_space [] rest h = cc
no_space (c ∷ k) rest h = let first : upper_char c ≡ 70 = ground arith in ground arith

words_space : (c : ℕ) (s : Str) → is_space c ≡ true → words (c ∷ s) ≡ words s
unfolding words pieces drop_empty
words_space c s h = rw h refl

behind_keyword :
    (line rest : Str)
    → drop_ignoring_case (codes "FROM") (lstrip_by is_space line) ≡ some rest
    → (from_words line ≡ []) ⊎ IsFrom line (from_words line)
unfolding from_words words pieces drop_empty
behind_keyword line [] h = inl (rw (from_words, h) refl)
behind_keyword line (c ∷ rest) h = elim (Bool-cases (is_space c)) [
  | inr f ↦ inl (rw (from_words, h, f) refl)
  | inl t ↦
      let (gap, (whole, g)) = lstrip-gap line in
      let (keyword, (split, k)) = drop-some (codes "FROM") (lstrip_by is_space line) (c ∷ rest) h in
      let found : from_words line ≡ words rest = rw (from_words, h, t) refl in
      inr (gap, (keyword, (c, (rest, (whole ∙ ap (λ z. gap ++ z) split, (g, (k, (t, found))))))))
]

from_words-IsFrom : (line : Str) → (from_words line ≡ []) ⊎ IsFrom line (from_words line)
unfolding from_words
from_words-IsFrom line =
    elim (Option-cases (drop_ignoring_case (codes "FROM") (lstrip_by is_space line))) [
      | inl e ↦ inl (rw (from_words, e) refl)
      | inr (rest, e) ↦ behind_keyword line rest e
    ]

IsFrom-from_words : (line : Str) (ws : List Str) → IsFrom line ws → from_words line ≡ ws
unfolding from_words
IsFrom-from_words line ws (gap, (keyword, (space, (rest, (e, (g, (k, (b, w)))))))) =
    let stripped = lstrip_gap gap (keyword ++ space ∷ rest) g (no_space keyword (space ∷ rest) k) in
    let dropped = drop-keyword (codes "FROM") keyword (space ∷ rest) k in
    let found : from_words (gap ++ (keyword ++ space ∷ rest)) ≡ words (space ∷ rest) =
      rw (from_words, stripped, dropped, b) refl in
    ap from_words e ∙ (found ∙ (words_space space rest b ∙ sym w))

-- The first word that is no flag.
abbrev pub IsImage : List Str → Str → Type 0
IsImage ws img =
    (flags : List Str) × ((rest : List Str) × ((ws ≡ flags ++ img ∷ rest)
        × ((all (starts_with (codes "--")) flags ≡ true) × (starts_with (codes "--") img ≡ false))))

IsImage-image_token : (ws : List Str) (img : Str) → IsImage ws img → image_token ws ≡ img
unfolding image_token all
IsImage-image_token ws img (flags, (rest, (e, (f, n)))) = ap image_token e ∙ skip flags f
  where
    skip :
        (flags : List Str)
        → all (starts_with (codes "--")) flags ≡ true
        → image_token (flags ++ img ∷ rest) ≡ img
    skip [] h = rw n refl
    skip (w ∷ ws) h = ground (arith, skip ws)

image_token-IsImage : (ws : List Str) → (image_token ws ≡ []) ⊎ IsImage ws (image_token ws)
unfolding image_token all
image_token-IsImage [] = inl refl
image_token-IsImage (w ∷ ws) = elim (Bool-cases (starts_with (codes "--") w)) [
  | inr n ↦ rw n (inr ([], (ws, (refl, (refl, n)))))
  | inl t ↦ rw t (elim (image_token-IsImage ws) [
    | inl e ↦ inl e
    | inr (flags, (rest, (e, (f, n)))) ↦
        inr (w ∷ flags, (rest, (ap (λ z. w ∷ z) e, (ground (arith, t, f), n))))
  ])
]

-- The base image that a line names.
abbrev pub IsBase : Str → Str → Type 0
IsBase line img = (ws : List Str) × (IsFrom line ws × IsImage ws img)

pub IsBase-image_token : (line img : Str) → IsBase line img → image_token (from_words line) ≡ img
IsBase-image_token line img (ws, (f, i)) =
    ap image_token (IsFrom-from_words line ws f) ∙ IsImage-image_token ws img i

pub image_token-IsBase :
    (line : Str)
    → (image_token (from_words line) ≡ []) ⊎ IsBase line (image_token (from_words line))
unfolding image_token
image_token-IsBase line = elim (from_words-IsFrom line) [
  | inl e ↦ inl (rw e refl)
  | inr f ↦ elim (image_token-IsImage (from_words line)) [
    | inl e ↦ inl e
    | inr i ↦ inr (from_words line, (f, i))
  ]
]

-- The word behind an `AS`, in lower case.
abbrev pub IsNamed : List Str → Str → Type 0
IsNamed ws name =
    (before : List Str) × ((tok : Str) × ((next : Str) × ((after : List Str) × ((ws
              ≡ before ++ tok ∷ next ∷ after)
            × ((upper tok ≡ codes "AS") × (name ≡ lower next))))))

named_stages-IsNamed :
    (name : Str) (ws : List Str) → elem name (named_stages ws) ≡ true → IsNamed ws name
unfolding named_stages elem any
named_stages-IsNamed name [] h = cc
named_stages-IsNamed name (tok ∷ []) h = cc
named_stages-IsNamed name (tok ∷ next ∷ ws) h =
    elim (Bool-cases (str_eq (upper tok) (codes "AS"))) [
      | inr n ↦ later (named_stages-IsNamed name (next ∷ ws) (ground (arith, n)))
      | inl t ↦ elim (Bool-cases (str_eq name (lower next))) [
        | inr n ↦ later (named_stages-IsNamed name (next ∷ ws) (ground (arith, t, n)))
        | inl s ↦ (
          [],
          (
            tok,
            (
              next,
              (
                ws,
                (
                  refl,
                  ((str_eq_iff (upper tok) (codes "AS")).0 t, (str_eq_iff name (lower next)).0 s),
                ),
              ),
            ),
          ),
        )
      ]
    ]
  where
    later : IsNamed (next ∷ ws) name → IsNamed (tok ∷ next ∷ ws) name
    later (before, (word, (found, (after, (e, r))))) =
        (tok ∷ before, (word, (found, (after, (ap (λ z. tok ∷ z) e, r)))))

IsNamed-named_stages :
    (name : Str) (ws : List Str) → IsNamed ws name → elem name (named_stages ws) ≡ true
unfolding named_stages elem any
IsNamed-named_stages name ws (before, (tok, (next, (after, (e, (u, l)))))) =
    ap (λ z. elem name (named_stages z)) e ∙ place before
  where
    place : (before : List Str) → elem name (named_stages (before ++ tok ∷ next ∷ after)) ≡ true
    place [] = ground (arith, str_eq_iff (upper tok) (codes "AS"), str_eq_iff name (lower next))
    place (b ∷ []) = let rest = place [] in ground (arith, rest)
    place (b ∷ c ∷ bs) = let rest = place (c ∷ bs) in ground (arith, rest)

-- The name of a stage of the file.
abbrev pub IsStage : List Str → Str → Type 0
IsStage lines name =
    (before : List Str) × ((line : Str) × ((after : List Str) × ((ws : List Str) × ((lines
              ≡ before ++ line ∷ after)
            × (IsFrom line ws × IsNamed ws name)))))

IsStage-found :
    (name : Str) (lines : List Str) → elem name (stage_names lines) ≡ true → IsStage lines name
unfolding stage_names elem any named_stages
IsStage-found name [] h = cc
IsStage-found name (line ∷ lines) h =
    elim (Bool-cases (elem name (named_stages (from_words line)))) [
      | inl t ↦ elim (from_words-IsFrom line) [
        | inl e ↦ let none_named = ap (λ z. elem name (named_stages z)) e in cc
        | inr f ↦ (
          [],
          (
            line,
            (lines, (from_words line, (refl, (f, named_stages-IsNamed name (from_words line) t)))),
          ),
        )
      ]
      | inr n ↦
          let (before, (l, (after, (ws, (e, r))))) = IsStage-found name lines (
            ground
              (arith, n, elem-append name (named_stages (from_words line)) (stage_names lines))) in
          (line ∷ before, (l, (after, (ws, (ap (λ z. line ∷ z) e, r)))))
    ]

stage_placed :
    (name line : Str) (ws : List Str) (before after : List Str)
    → IsFrom line ws
    → IsNamed ws name
    → elem name (stage_names (before ++ line ∷ after)) ≡ true
unfolding stage_names
stage_placed name line ws [] after f n =
    let same = ap (λ z. elem name (named_stages z)) (IsFrom-from_words line ws f) in
    let here = IsNamed-named_stages name ws n in
    ground
      (arith, same, here, elem-append name (named_stages (from_words line)) (stage_names after))
stage_placed name line ws (b ∷ before) after f n = ground (
  arith,
  stage_placed name line ws before after f n,
  elem-append name (named_stages (from_words b)) (stage_names (before ++ line ∷ after)),
)

pub stage_names-IsStage :
    (name : Str) (lines : List Str) → (elem name (stage_names lines) ≡ true) ↔ IsStage lines name
stage_names-IsStage name lines = (
  IsStage-found name lines,
  λ (before, (line, (after, (ws, (e, (f, n)))))).
      ap (λ z. elem name (stage_names z)) e ∙ stage_placed name line ws before after f n,
)
