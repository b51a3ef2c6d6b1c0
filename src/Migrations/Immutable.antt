-- ===== src/Migrations/Immutable.antt =====
-- When the guard of scripts/check-migration-immutability.py passes.
use ci_workflows.Base.{
  Bool, true, false, not, Option, none, some, List, [], ◌∷◌, if◌then◌else◌, ◌≡◌, ◌↔◌, ◌⊎◌, inl, inr,
  refl, arith, All, is_nil, filter, Bool-cases, Option-cases,
}
use ci_workflows.Base.Text.{Str, codes, str_eq_iff, str_eq_self, elem, ends_with, splitlines}
use ci_workflows.Base.Sorting.{sorted, All-sort_by}
use ci_workflows.PosixPath.{path_name}
use ci_workflows.Migrations.{
  Checkout, Change, merge_base_args, ls_tree_args, rev_parse_args, verify_args, cat_file_args, blob,
  git, git_ok, exceptions, change_of, report_change, find_violations, violations, Violation, Report,
  cannot_resolve, json, report, main, exit_code,
}

-- A file of the merge base that is the same object at HEAD.
abbrev pub IsSame : Checkout → Str → Str → Type 0
IsSame C commit name =
    (object : Str) × ((git C (rev_parse_args (blob commit name)) ≡ some object)
      × ((git_ok C (cat_file_args (blob (codes "HEAD") name)) ≡ true)
          × (git C (rev_parse_args (blob (codes "HEAD") name)) ≡ some object)))

-- An exception for a file that git knows.
abbrev pub IsExcepted : Checkout → Str → Str → Type 0
IsExcepted C commit name =
    (elem (path_name name) (exceptions C) ≡ true)
    × ((c : Option Change) × (change_of C commit name ≡ some c))

-- A file of the merge base that counts as no migration, is excepted, or is the same at HEAD.
abbrev pub IsKept : Checkout → Str → Str → Type 0
IsKept C commit name =
    (ends_with (codes ".up.sql") name ≡ false) ⊎ (IsExcepted C commit name ⊎ IsSame C commit name)

-- The base is known, and every line of the merge base's listing is a file that is kept.
abbrev pub IsImmutable : Checkout → Str → Type 0
IsImmutable C base =
    (git_ok C (verify_args base) ≡ true)
    × ((commit : Str) × ((git C (merge_base_args base) ≡ some commit)
          × ((listing : Str) × ((git C (ls_tree_args commit) ≡ some listing)
                × All (IsKept C commit) (splitlines listing)))))

module _ (C : Checkout) (commit : Str) where
  change_of-IsSame : (name : Str) → (change_of C commit name ≡ some none) ↔ IsSame C commit name
  unfolding change_of
  change_of-IsSame name = elim (Option-cases (git C (rev_parse_args (blob commit name)))) [
    | inl e ↦ (λ h. ground arith, λ (o, (a, (b, c))). ground arith)
    | inr (before, e) ↦ elim (Option-cases (git C (rev_parse_args (blob (codes "HEAD") name)))) [
      | inl f ↦ (λ h. ground arith, λ (o, (a, (b, c))). ground arith)
      | inr (after, f) ↦ (
        λ h. (before, (e, (ground arith, ground (arith, str_eq_iff before after)))),
        λ (o, (a, (b, c))). ground (arith, str_eq_self o),
      )
    ]
  ]

  -- One turn of the loop reports nothing exactly for a file that is kept.
  find_violations-turn :
      (name : Str) (names : List Str)
      → (find_violations C commit (exceptions C) (name ∷ names) ≡ some [])
        ↔ (IsKept C commit name × (find_violations C commit (exceptions C) names ≡ some []))
  unfolding find_violations report_change
  find_violations-turn name names =
      let (f, g) = change_of-IsSame name in
      elim (Bool-cases (ends_with (codes ".up.sql") name)) [
        | inr e ↦ (λ h. (inl e, ground (arith, e)), λ (k, h). ground (arith, e))
        | inl e ↦ elim (Option-cases (change_of C commit name)) [
          | inl d ↦ (
            λ h. ground arith,
            λ (k, h). elim k [
              | inl x ↦ ground arith
              | inr (inl (x, (c, y))) ↦ ground arith
              | inr (inr s) ↦ ground (arith, g s)
            ],
          )
          | inr (none, d) ↦ (λ h. (inr (inr (f d)), ground arith), λ (k, h). ground arith)
          | inr (some c, d) ↦ elim (Bool-cases (elem (path_name name) (exceptions C))) [
            | inl a ↦ (λ h. (inr (inl (a, (some c, d))), ground arith), λ (k, h). ground arith)
            | inr a ↦ (
              λ h. ground arith,
              λ (k, h). elim k [
                | inl x ↦ ground arith
                | inr (inl x) ↦ ground arith
                | inr (inr s) ↦ ground (arith, g s)
              ],
            )
          ]
        ]
      ]

  find_violations-IsKept :
      (names : List Str)
      → (find_violations C commit (exceptions C) names ≡ some []) ↔ All (IsKept C commit) names
  unfolding find_violations
  find_violations-IsKept [] = (λ _. tt, λ _. refl)
  find_violations-IsKept (name ∷ names) =
      let (f, g) = find_violations-turn name names in
      let (f1, g1) = find_violations-IsKept names in
      (λ h. let (k, r) = f h in (k, f1 r), λ (k, ks). g (k, g1 ks))

filter_lines-All :
    (C : Checkout) (commit : Str) (lines : List Str)
    → All (IsKept C commit) (filter (λ line. not (is_nil line)) lines) ↔ All (IsKept C commit) lines
unfolding filter ends_with
filter_lines-All C commit [] = (λ h. h, λ h. h)
filter_lines-All C commit ([] ∷ lines) =
    let (f, g) = filter_lines-All C commit lines in (λ h. (inl refl, f h), λ (k, h). g h)
filter_lines-All C commit ((c ∷ line) ∷ lines) =
    let (f, g) = filter_lines-All C commit lines in (λ (k, h). (k, f h), λ (k, h). (k, g h))

abbrev lines_of : Str → List Str
lines_of listing = filter (λ line. not (is_nil line)) (splitlines listing)

abbrev listed : Str → List Str
listed listing = sorted (lines_of listing)

listed-IsKept :
    (C : Checkout) (commit listing : Str)
    → (find_violations C commit (exceptions C) (listed listing) ≡ some [])
      ↔ All (IsKept C commit) (splitlines listing)
listed-IsKept C commit listing =
    let (f, g) = find_violations-IsKept C commit (listed listing) in
    let (f1, g1) = All-sort_by (λ s. s) (IsKept C commit) (lines_of listing) in
    let (f2, g2) = filter_lines-All C commit (splitlines listing) in
    (λ h. f2 (f1 (f h)), λ k. g (g1 (g2 k)))

-- No violation is found exactly where the merge base is known, and so are its files, and all of
-- them are kept.
violations-IsKept :
    (C : Checkout) (base : Str)
    → (violations C base ≡ some []) ↔ (
        (commit : Str) × ((git C (merge_base_args base) ≡ some commit)
          × ((listing : Str) × ((git C (ls_tree_args commit) ≡ some listing)
                × All (IsKept C commit) (splitlines listing)))))
unfolding violations
violations-IsKept C base = (
  λ h. elim (Option-cases (git C (merge_base_args base))) [
    | inl e ↦ ground arith
    | inr (commit, e) ↦ elim (Option-cases (git C (ls_tree_args commit))) [
      | inl l ↦ ground arith
      | inr (listing, l) ↦
          (commit, (e, (listing, (l, (listed-IsKept C commit listing).0 (ground arith)))))
    ]
  ],
  λ (commit, (e, (listing, (l, k)))). ground (arith, (listed-IsKept C commit listing).1 k),
)

-- The exit code, whether the report is JSON or not.
main-exit_code :
    (C : Checkout) (base : Str) (as_json : Bool) (r : Report) (found : List Violation)
    → C.has_directory ≡ true
    → git_ok C (verify_args base) ≡ true
    → violations C base ≡ some found
    → main C base as_json ≡ some r
    → exit_code r ≡ (if is_nil found then 0 else 1)
unfolding main
main-exit_code C base false r [] d e v h = let at : r ≡ report C [] = ground arith in rw at refl
main-exit_code C base false r (x ∷ xs) d e v h =
    let at : r ≡ report C (x ∷ xs) = ground arith in rw at refl
main-exit_code C base true r found d e v h =
    let at : r ≡ json base found = ground arith in rw at refl

-- In a checkout with migrations.
main-with_directory :
    (C : Checkout) (base : Str) (as_json : Bool) (r : Report)
    → C.has_directory ≡ true
    → main C base as_json ≡ some r
    → (exit_code r ≡ 0) ↔ IsImmutable C base
unfolding main
main-with_directory C base as_json r d h =
    let (f, g) = violations-IsKept C base in
    elim (Bool-cases (git_ok C (verify_args base))) [
      | inr e ↦
          let at : r ≡ cannot_resolve base = ground arith in
          let code : exit_code r ≡ 1 = rw at refl in (λ x. ground arith, λ (x, y). ground arith)
      | inl e ↦ elim (Option-cases (violations C base)) [
        | inl v ↦ ground arith
        | inr ([], v) ↦ (λ x. (e, f v), λ x. main-exit_code C base as_json r [] d e v h)
        | inr (v0 ∷ vs, v) ↦
            let code = main-exit_code C base as_json r (v0 ∷ vs) d e v h in
            (λ x. ground arith, λ (x, y). ground (arith, g y))
      ]
    ]

-- A run that does not raise passes exactly where the checkout has no migrations directory, or the
-- base branch resolves, and every line of the merge base's listing, as `git ls-tree` prints it, that
-- ends with `.up.sql` names the same object at the head or stands in the exceptions file.
pub main-IsImmutable :
    (C : Checkout) (base : Str) (as_json : Bool) (r : Report)
    → main C base as_json ≡ some r
    → (exit_code r ≡ 0) ↔ ((C.has_directory ≡ false) ⊎ IsImmutable C base)
unfolding main
main-IsImmutable C base as_json r h = elim (Bool-cases C.has_directory) [
  | inr d ↦ (λ x. inl d, λ x. ground (arith, d, h))
  | inl d ↦
      let (f, g) = main-with_directory C base as_json r d h in
      (λ x. inr (f x), λ x. elim x [ inl n ↦ ground (arith, d, n) | inr i ↦ g i ])
]
