-- ===== src/Base/Sorting.antt =====
-- `sorted` on strings: insertion sort by code points, with the facts that callers use.
use mathlib.Core.Path.{◌≡◌, refl}
use mathlib.Core.Logic.{◌↔◌}
use mathlib.Core.Bool.{Bool, true, false, ◌||◌, ◌&&◌}
use mathlib.Core.List.{List, [], ◌∷◌}
use native.Mathlib.Omega.{arith}
use ci_workflows.Base.Tests.{ltb, ◌==◌, if◌then◌else◌}
use ci_workflows.Base.Lists.{any, all, All, times}
use ci_workflows.Base.Text.{Str}

-- `s <= t` on strings
unfoldable pub str_leb : Str → Str → Bool
str_leb [] t = true
str_leb (c ∷ s) [] = false
str_leb (c ∷ s) (d ∷ t) = ltb c d || ((c == d) && str_leb s t)

module _ {ℓ} {A : Type ℓ} (key : A → Str) where
  unfoldable pub insert_by : A → List A → List A
  insert_by x [] = x ∷ []
  insert_by x (y ∷ ys) =
      let rest = insert_by x ys in if str_leb (key x) (key y) then x ∷ y ∷ ys else y ∷ rest

  unfoldable pub sort_by : List A → List A
  unfolding insert_by str_leb
  sort_by [] = []
  sort_by (x ∷ xs) = insert_by x (sort_by xs)

  any-insert_by : (p : A → Bool) (x : A) (xs : List A) → any p (insert_by x xs) ≡ (p x || any p xs)
  unfolding insert_by any
  any-insert_by p x [] = refl
  any-insert_by p x (y ∷ ys) = ground (arith, any-insert_by p x ys)

  -- Sorting keeps what some element satisfies.
  pub any-sort_by : (p : A → Bool) (xs : List A) → any p (sort_by xs) ≡ any p xs
  unfolding sort_by any
  any-sort_by p [] = refl
  any-sort_by p (x ∷ xs) = ground (arith, any-insert_by p x (sort_by xs), any-sort_by p xs)

  all-insert_by : (p : A → Bool) (x : A) (xs : List A) → all p (insert_by x xs) ≡ (p x && all p xs)
  unfolding insert_by all
  all-insert_by p x [] = refl
  all-insert_by p x (y ∷ ys) = ground (arith, all-insert_by p x ys)

  -- Sorting keeps what every element satisfies.
  pub all-sort_by : (p : A → Bool) (xs : List A) → all p (sort_by xs) ≡ all p xs
  unfolding sort_by all
  all-sort_by p [] = refl
  all-sort_by p (x ∷ xs) = ground (arith, all-insert_by p x (sort_by xs), all-sort_by p xs)

  times-insert_by :
      (p : A → Bool) (x : A) (xs : List A) → times p (insert_by x xs) ≡ times p (x ∷ xs)
  unfolding insert_by times
  times-insert_by p x [] = refl
  times-insert_by p x (y ∷ ys) = ground (arith, times-insert_by p x ys)

  -- Sorting keeps how often a test succeeds.
  pub times-sort_by : (p : A → Bool) (xs : List A) → times p (sort_by xs) ≡ times p xs
  unfolding sort_by times
  times-sort_by p [] = refl
  times-sort_by p (x ∷ xs) = ground (arith, times-insert_by p x (sort_by xs), times-sort_by p xs)

  insert_by_ne : (x : A) (xs : List A) → insert_by x xs ≡ [] → ⊥
  unfolding insert_by
  insert_by_ne x [] h = cc
  insert_by_ne x (y ∷ ys) h = ground arith

  pub sort_by-nil : (xs : List A) → (sort_by xs ≡ []) ↔ (xs ≡ [])
  unfolding sort_by
  sort_by-nil [] = (λ _. refl, λ _. refl)
  sort_by-nil (x ∷ xs) = (λ h. absurd (insert_by_ne x (sort_by xs) h), λ h. cc)

-- `sorted(xs)`
abbrev pub sorted : List Str → List Str
sorted = sort_by (λ s. s)

module _ {ℓ κ} {A : Type ℓ} (key : A → Str) (P : A → Type κ) where
  All-insert_by : (x : A) (xs : List A) → All P (insert_by key x xs) ↔ (P x × All P xs)
  unfolding insert_by
  All-insert_by x [] = (λ h. h, λ h. h)
  All-insert_by x (y ∷ ys) =
      let (f, g) = All-insert_by x ys in
      elim (str_leb (key x) (key y))
        as (λ b.
          All P (if b then x ∷ y ∷ ys else y ∷ insert_by key x ys) ↔ (P x × (P y × All P ys))) [
            | true ↦ (λ h. h, λ h. h)
            | false ↦ (λ (q, h). let (a, b) = f h in (a, (q, b)), λ (a, (q, b)). (q, g (a, b)))
          ]

  -- What holds of every element holds of every element of the sorted list, and back.
  pub All-sort_by : (xs : List A) → All P (sort_by key xs) ↔ All P xs
  unfolding sort_by
  All-sort_by [] = (λ h. h, λ h. h)
  All-sort_by (x ∷ xs) =
      let (f, g) = All-insert_by x (sort_by key xs) in
      let (f1, g1) = All-sort_by xs in (λ h. let (a, b) = f h in (a, f1 b), λ (a, b). g (a, g1 b))
