-- ===== src/BaseImages/Hosted.antt =====
-- `main` of scripts/check-base-image-registry.py: when it passes.
use ci_workflows.BaseImages.Lines.{
  IsBase, IsStage, IsBase-image_token, image_token-IsBase, stage_names-IsStage,
}
use ci_workflows.Base.{
  ℕ, suc, Bool, true, not, some, List, [], ◌∷◌, ◌++◌, ◌≡◌, ◌↔◌, ◌⊎◌, inl, inr, refl, sym, ap, ◌∙◌,
  subst, arith, length, any, filter, All, Bool-cases, Option-cases, append-eq-nil,
}
use ci_workflows.Base.Text.{Str, codes, str_eq, str_eq_iff, lower, starts_with, splitlines}
use ci_workflows.Base.Scan.{cut, IsFree, cut-IsFree, cut_at}
use ci_workflows.Hub.{FilePath}
use ci_workflows.BaseImages.{
  is_mark, has_late_mark, is_hosted, is_passed, image_token, from_words, stage_names, check_lines,
  check, Tree, is_file, targets, check_all, Problem, exit_code, report, judge, main,
}

-- A text with a dot or a colon behind its first character.
abbrev pub HasMark : Str → Type 0
HasMark host =
    (c : ℕ) × ((before : Str) × ((x : ℕ) × ((after : Str) × ((host ≡ c ∷ before ++ x ∷ after)
            × (is_mark x ≡ true)))))

-- An image whose first part is a host, as Docker tells a registry from a namespace.
abbrev pub NamesRegistry : Str → Type 0
NamesRegistry img =
    (host : Str) × ((rest : Str) × ((img ≡ host ++ b'/' ∷ rest)
        × (IsFree b'/' host × ((host ≡ codes "localhost") ⊎ HasMark host))))

any-mark :
    (p : ℕ → Bool) (s : Str)
    → (any p s ≡ true)
      ↔ ((before : Str) × ((x : ℕ) × ((after : Str) × ((s ≡ before ++ x ∷ after) × (p x ≡ true)))))
unfolding any
any-mark p s = (find s, λ (b, (x, (a, (e, h)))). rw e (place b x a h))
  where
    find :
        (s : Str)
        → any p s ≡ true
        → (before : Str) × ((x : ℕ) × ((after : Str) × ((s ≡ before ++ x ∷ after) × (p x ≡ true))))
    find [] h = cc
    find (c ∷ s) h = elim (Bool-cases (p c)) [
      | inl t ↦ ([], (c, (s, (refl, t))))
      | inr f ↦
          let (b, (x, (a, (e, k)))) = find s (ground (arith, f)) in
          (c ∷ b, (x, (a, (ap (λ z. c ∷ z) e, k))))
    ]

    place : (b : Str) (x : ℕ) (a : Str) → p x ≡ true → any p (b ++ x ∷ a) ≡ true
    place [] x a h = ground (arith, h)
    place (c ∷ b) x a h = ground (arith, place b x a h)

has_late_mark-HasMark : (host : Str) → (has_late_mark host ≡ true) ↔ HasMark host
has_late_mark-HasMark [] = (λ h. cc, λ (c, (b, (x, (a, (e, k))))). cc)
has_late_mark-HasMark (d ∷ s) =
    let (f, g) = any-mark is_mark s in
    (
      λ h. let (b, (x, (a, (e, k)))) = f h in (d, (b, (x, (a, (ap (λ z. d ∷ z) e, k))))),
      λ (c, (b, (x, (a, (e, k))))). g (b, (x, (a, (cc, k)))),
    )

is_hosted-NamesRegistry : (img : Str) → (is_hosted img ≡ true) ↔ NamesRegistry img
unfolding is_hosted
is_hosted-NamesRegistry img = (
  λ h. elim (Option-cases (cut b'/' img).1) [
    | inl n ↦ ground (arith, h, n)
    | inr (rest, r) ↦
        let host = (cut b'/' img).0 in
        let (e, k) = cut-IsFree b'/' img rest r in
        (
          host,
          (
            rest,
            (
              e,
              (
                k,
                elim (Bool-cases (str_eq host (codes "localhost"))) [
                  | inl l ↦ inl ((str_eq_iff host (codes "localhost")).0 l)
                  | inr l ↦ inr ((has_late_mark-HasMark host).0 (ground (arith, h, r, l)))
                ],
              ),
            ),
          ),
        )
  ],
  λ (host, (rest, (e, (k, m)))).
      let at = cut_at b'/' host rest k in
      rw (e, is_hosted, at)
        (elim m [
          | inl l ↦ let t = (str_eq_iff host (codes "localhost")).1 l in ground (arith, t)
          | inr l ↦ let t = (has_late_mark-HasMark host).1 l in ground (arith, t)
        ]),
)

-- A base image that is a stage of the file, `scratch`, an argument, or names its registry.
abbrev pub IsGoodImage : List Str → Str → Type 0
IsGoodImage lines img =
    (img ≡ [])
    ⊎ (IsStage lines (lower img)
        ⊎ ((img ≡ codes "scratch") ⊎ ((starts_with (codes "$") img ≡ true) ⊎ NamesRegistry img)))

-- A line whose base image, if it names one, is good.
abbrev pub IsGoodLine : List Str → Str → Type 0
IsGoodLine lines line = (img : Str) → IsBase line img → IsGoodImage lines img

is_passed-IsGoodImage :
    (lines : List Str) (img : Str)
    → (is_passed (stage_names lines) img ≡ true) ↔ IsGoodImage lines img
unfolding is_passed
is_passed-IsGoodImage lines [] = (λ h. inl refl, λ h. refl)
is_passed-IsGoodImage lines (c ∷ s) = ground (
  arith,
  is_hosted-NamesRegistry (c ∷ s),
  str_eq_iff (c ∷ s) (codes "scratch"),
  stage_names-IsStage (lower (c ∷ s)) lines,
)

is_passed-IsGoodLine :
    (lines : List Str) (line : Str)
    → (is_passed (stage_names lines) (image_token (from_words line)) ≡ true) ↔ IsGoodLine lines line
is_passed-IsGoodLine lines line =
    let image = image_token (from_words line) in
    let (f, g) = is_passed-IsGoodImage lines image in
    (
      λ h img b. subst (IsGoodImage lines) (IsBase-image_token line img b) (f h),
      λ k. g (elim (image_token-IsBase line) [ inl e ↦ inl e | inr b ↦ k image b ]),
    )

check_lines-IsGoodLine :
    (path : FilePath) (all_lines : List Str) (n : ℕ) (lines : List Str)
    → (check_lines path (stage_names all_lines) n lines ≡ []) ↔ All (IsGoodLine all_lines) lines
unfolding check_lines
check_lines-IsGoodLine path all_lines n [] = (λ _. tt, λ _. refl)
check_lines-IsGoodLine path all_lines n (line ∷ lines) =
    let (f, g) = check_lines-IsGoodLine path all_lines (suc n) lines in
    let (f1, g1) = is_passed-IsGoodLine all_lines line in
    elim (Bool-cases (is_passed (stage_names all_lines) (image_token (from_words line)))) [
      | inl e ↦
          (λ h. (f1 e, f (ground (arith, e))), λ (k, ks). let rest = g ks in ground (arith, e))
      | inr e ↦ (λ h. ground (arith, e), λ (k, ks). let t = g1 k in cc)
    ]

-- A Dockerfile that exists and whose lines are all good.
abbrev pub IsGoodFile : Tree → FilePath → Type 0
IsGoodFile t path =
    (text : Str) × ((t.read_text path ≡ some text)
      × All (IsGoodLine (splitlines text)) (splitlines text))

check_all-append :
    (t : Tree) (path : FilePath) (paths : List FilePath) (text : Str)
    → t.read_text path ≡ some text
    → check_all t (path ∷ paths) ≡ check path text ++ check_all t paths
unfolding check_all
check_all-append t path paths text e = rw (check_all, e) refl

check_all-IsGoodFile :
    (t : Tree) (paths : List FilePath)
    → ((filter (λ p. not (is_file t p)) paths ≡ []) × (check_all t paths ≡ []))
      ↔ All (IsGoodFile t) paths
unfolding check_all filter
check_all-IsGoodFile t [] = (λ _. tt, λ _. (refl, refl))
check_all-IsGoodFile t (path ∷ paths) =
    let (f, g) = check_all-IsGoodFile t paths in
    elim (Option-cases (t.read_text path)) [
      | inl e ↦ (λ (a, b). ground (arith, e), λ ((text, (x, y)), ks). ground (arith, x, e))
      | inr (text, e) ↦
          let (f1, g1) = check_lines-IsGoodLine path (splitlines text) 1 (splitlines text) in
          let checked : check_all t (path ∷ paths) ≡ check path text ++ check_all t paths =
            check_all-append t path paths text e in
          let kept : filter (λ p. not (is_file t p)) (path ∷ paths)
              ≡ filter (λ p. not (is_file t p)) paths =
            rw (not, e) refl in
          (
            λ (a, b).
                let (here, there) =
                  append-eq-nil (check path text) (check_all t paths) (sym checked ∙ b) in
                ((text, (e, f1 here)), f (sym kept ∙ a, there)),
            λ ((text2, (x, y)), ks).
                let same : text2 ≡ text = ground (arith, x, e) in
                let (a, b) = g ks in
                let here =
                  g1 (subst (λ u. All (IsGoodLine (splitlines u)) (splitlines u)) same y) in
                (kept ∙ a, checked ∙ (ap (λ z. z ++ check_all t paths) here ∙ b)),
          )
    ]

judge-code :
    (t : Tree) (paths missing : List FilePath)
    → (exit_code (judge t paths missing) ≡ 0) ↔ ((missing ≡ []) × (check_all t paths ≡ []))
unfolding check_all
judge-code t paths (p ∷ missing) = (λ h. ground arith, λ (a, b). cc)
judge-code t [] [] = (λ h. (refl, refl), λ h. refl)
judge-code t (path ∷ paths) [] =
    (λ h. (refl, reported (check_all t (path ∷ paths)) h), λ (a, b). rw b refl)
  where
    reported : (ps : List Problem) → exit_code (report (length (path ∷ paths)) ps) ≡ 0 → ps ≡ []
    reported [] h = refl
    reported (p ∷ ps) h = ground arith

-- The check passes exactly if the root is a directory or there are paths, each Dockerfile that is
-- looked at exists, and the base image of each `FROM` in it is `scratch`, begins with a `$`, names its
-- registry, or is a name that some `FROM` of the file, the same one or a later one included, gives to
-- its stage by `AS`.
pub main-IsGoodFile :
    (t : Tree) (paths : List FilePath)
    → (exit_code (main t paths) ≡ 0)
      ↔ ((found : List FilePath) × ((targets t paths ≡ some found) × All (IsGoodFile t) found))
unfolding main
main-IsGoodFile t paths = elim (Option-cases (targets t paths)) [
  | inl e ↦ (λ h. ground (arith, e), λ (found, (x, y)). ground (arith, x, e))
  | inr (found, e) ↦
      let (f, g) = judge-code t found (filter (λ p. not (is_file t p)) found) in
      let (f1, g1) = check_all-IsGoodFile t found in
      let judged : main t paths ≡ judge t found (filter (λ p. not (is_file t p)) found) =
        rw (main, e) refl in
      (
        λ h. (found, (e, f1 (f (ap exit_code (sym judged) ∙ h)))),
        λ (found2, (x, y)).
            let same : found2 ≡ found = ground (arith, x, e) in
            ap exit_code judged ∙ g (g1 (subst (All (IsGoodFile t)) same y)),
      )
]
