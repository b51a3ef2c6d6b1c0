-- ===== src/Base/Lists.antt =====
-- Lists: Python's `all`, `any`, filtering comprehensions, `x[:-1]` and `x[-1]`, and a predicate
-- for "every element".
use Prim.Native.Nat.{ℕ, zero, suc, ◌+◌}
use mathlib.Core.Path.{◌≡◌, refl}
use mathlib.Core.Logic.{◌↔◌, ◌⊎◌, inl, inr}
use mathlib.Core.Option.{Option, none, some}
use mathlib.Core.Bool.{Bool, true, false, not, ◌&&◌, ◌||◌}
use mathlib.Core.List.{List, [], ◌∷◌, ◌++◌}
use native.Mathlib.Omega.{arith}
use ci_workflows.Base.Tests.{if◌then◌else◌, Bool-cases}

module _ {ℓ} {A : Type ℓ} where
  abbrev pub length : List A → ℕ
  length [] = 0
  length (x ∷ xs) = suc (length xs)

  abbrev pub take : ℕ → List A → List A
  take zero xs = []
  take (suc n) [] = []
  take (suc n) (x ∷ xs) = x ∷ take n xs

  abbrev pub is_nil : List A → Bool
  is_nil [] = true
  is_nil (x ∷ xs) = false

  -- `xs[:-1]`
  abbrev pub init : List A → List A
  init [] = []
  init (x ∷ []) = []
  init (x ∷ y ∷ xs) = x ∷ init (y ∷ xs)

  -- `xs[-1]`, and the default where Python raises.
  abbrev pub last_or : A → List A → A
  last_or d [] = d
  last_or d (x ∷ xs) = last_or x xs

  unfoldable pub all : (A → Bool) → List A → Bool
  all p [] = true
  all p (x ∷ xs) = p x && all p xs

  unfoldable pub any : (A → Bool) → List A → Bool
  any p [] = false
  any p (x ∷ xs) = p x || any p xs

  -- `[x for x in xs if p(x)]`
  unfoldable pub filter : (A → Bool) → List A → List A
  filter p [] = []
  filter p (x ∷ xs) = let rest = filter p xs in if p x then x ∷ rest else rest

  abbrev pub All {κ} : (A → Type κ) → List A → Type κ
  All P [] = Unit
  All P (x ∷ xs) = P x × All P xs

  pub all→All : (p : A → Bool) (xs : List A) → all p xs ≡ true → All (λ x. p x ≡ true) xs
  unfolding all
  all→All p [] h = tt
  all→All p (x ∷ xs) h = (ground arith, all→All p xs (ground arith))

  pub All→all : (p : A → Bool) (xs : List A) → All (λ x. p x ≡ true) xs → all p xs ≡ true
  unfolding all
  All→all p [] h = refl
  All→all p (x ∷ xs) (h, hs) = ground (arith, All→all p xs hs)

  pub All-map_of {κ μ} :
      {P : A → Type κ} {Q : A → Type μ} (xs : List A) → ((x : A) → P x → Q x) → All P xs → All Q xs
  All-map_of [] f h = tt
  All-map_of (x ∷ xs) f (h, hs) = (f x h, All-map_of xs f hs)

  pub All-pair {κ μ} :
      (P : A → Type κ) (Q : A → Type μ) (xs : List A)
      → All P xs
      → All Q xs
      → All (λ x. P x × Q x) xs
  All-pair P Q [] h k = tt
  All-pair P Q (x ∷ xs) (h, hs) (k, ks) = ((h, k), All-pair P Q xs hs ks)

  -- A filter keeps elements that pass its test, and what holds of every element.
  pub filter-All : (p : A → Bool) (xs : List A) → All (λ x. p x ≡ true) (filter p xs)
  unfolding filter
  filter-All p [] = tt
  filter-All p (x ∷ xs) = elim (Bool-cases (p x)) [
    | inl e ↦ rw e (e, filter-All p xs)
    | inr e ↦ rw e (filter-All p xs)
  ]

  pub All-filter {κ} :
      (P : A → Type κ) (p : A → Bool) (xs : List A) → All P xs → All P (filter p xs)
  unfolding filter
  All-filter P p [] h = tt
  All-filter P p (x ∷ xs) (h, hs) = elim (Bool-cases (p x)) [
    | inl e ↦ rw e (h, All-filter P p xs hs)
    | inr e ↦ rw e (All-filter P p xs hs)
  ]

  -- A filter that keeps nothing rejects every element, and the other way round.
  pub filter-not-nil :
      (p : A → Bool) (xs : List A) → (filter (λ x. not (p x)) xs ≡ []) ↔ (all p xs ≡ true)
  unfolding filter all
  filter-not-nil p [] = (λ _. refl, λ _. refl)
  filter-not-nil p (x ∷ xs) = ground (arith, filter-not-nil p xs)

  -- A filter keeps nothing exactly if its test fails everywhere.
  pub filter-nil :
      (p : A → Bool) (xs : List A) → (filter p xs ≡ []) ↔ (all (λ x. not (p x)) xs ≡ true)
  unfolding filter all
  filter-nil p [] = (λ _. refl, λ _. refl)
  filter-nil p (x ∷ xs) = ground (arith, filter-nil p xs)

  pub any-or : (p q : A → Bool) (xs : List A) → any (λ x. p x || q x) xs ≡ (any p xs || any q xs)
  unfolding any
  any-or p q [] = refl
  any-or p q (x ∷ xs) = ground (arith, any-or p q xs)

  -- A test of every element is one of those before the last, and one of the last.
  pub any-init :
      (p : A → Bool) (d x : A) (xs : List A)
      → any p (x ∷ xs) ≡ (any p (init (x ∷ xs)) || p (last_or d (x ∷ xs)))
  unfolding any
  any-init p d x [] = ground arith
  any-init p d x (y ∷ xs) = ground (arith, any-init p d y xs)

  pub any_of_any :
      (p q : A → Bool) (xs : List A)
      → ((x : A) → p x ≡ true → q x ≡ true)
      → any p xs ≡ true
      → any q xs ≡ true
  unfolding any
  any_of_any p q [] f h = cc
  any_of_any p q (x ∷ xs) f h = ground (arith, f x, any_of_any p q xs f)

pub append-eq-nil {ℓ} : {A : Type ℓ} (xs ys : List A) → xs ++ ys ≡ [] → (xs ≡ []) × (ys ≡ [])
append-eq-nil [] ys h = (refl, h)
append-eq-nil (x ∷ xs) ys h = cc

pub Option-cases {ℓ} : {A : Type ℓ} (o : Option A) → (o ≡ none) ⊎ ((a : A) × (o ≡ some a))
Option-cases none = inl refl
Option-cases (some a) = inr (a, refl)

-- Options in a row: `none` stands for an exception that ends the run.
infixl 5 ◌>>=◌
abbrev pub ◌>>=◌ {ℓ κ} : {A : Type ℓ} {B : Type κ} → Option A → (A → Option B) → Option B
none >>= f = none
some a >>= f = f a

module _ {ℓ} {A : Type ℓ} where
  -- How often a test succeeds.
  unfoldable pub times : (A → Bool) → List A → ℕ
  times p [] = 0
  times p (x ∷ xs) = let rest = times p xs in if p x then suc rest else rest

  pub times-append : (p : A → Bool) (xs ys : List A) → times p (xs ++ ys) ≡ times p xs + times p ys
  unfolding times
  times-append p [] ys = omega arith
  times-append p (x ∷ xs) ys = ground (arith, times-append p xs ys)
