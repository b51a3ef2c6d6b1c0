-- ===== src/Hub/Owners.antt =====
-- The owner folders of scripts/hub_layout.py: children of the root that are no category.
use ci_workflows.Base.{
  true, false, none, some, List, [], ◌∷◌, ◌++◌, ◌≡◌, refl, arith, map, filter, last_or, All,
  All-pair, All-filter, filter-All, Bool-cases, inl, inr,
}
use ci_workflows.Base.Text.{Str, str_eq, str_eq_iff, elem}
use ci_workflows.Base.Sorting.{sort_by, sorted, All-sort_by}
use ci_workflows.Hub.{
  FilePath, FileSystem, Hub, ◌/◌, name_of, categories, is_owner_folder, owner_key, owner_folders,
  owners, is_wanted,
}

-- A child of the root that passes for an owner folder.
abbrev pub IsOwner : FileSystem → FilePath → FilePath → Type 0
IsOwner F root p = ((name : Str) × (p ≡ root / name)) × (is_owner_folder F p ≡ true)

pub name_of-child : (root : FilePath) (name : Str) → name_of (root / name) ≡ name
name_of-child root name = last root []
  where
    last : (root : FilePath) (d : Str) → last_or d (root ++ name ∷ []) ≡ name
    last [] d = refl
    last (r ∷ root) d = last root r

children :
    (root : FilePath) (names : List Str)
    → All (λ p. (name : Str) × (p ≡ root / name)) (map (λ name. root / name) names)
children root [] = tt
children root (name ∷ names) = ((name, refl), children root names)

module _ (F : FileSystem) where
  owner_folders-IsOwner : (root : FilePath) → All (IsOwner F root) (owner_folders F root)
  unfolding owner_folders
  owner_folders-IsOwner root =
      elim (F.scandir root)
        as (λ o. All (IsOwner F root) (elim o [
          | none ↦ []
          | some names ↦
              sort_by owner_key
                (filter (is_owner_folder F) (map (λ name. root / name) (sorted names)))
        ])) [
          | none ↦ tt
          | some names ↦
              let all = map (λ name. root / name) (sorted names) in
              (All-sort_by owner_key (IsOwner F root) (filter (is_owner_folder F) all)).1 (
                All-pair (λ p. (name : Str) × (p ≡ root / name)) (λ p. is_owner_folder F p ≡ true)
                  (filter (is_owner_folder F) all)
                  (All-filter _ (is_owner_folder F) all (children root (sorted names)))
                  (filter-All (is_owner_folder F) all))
        ]

  pub owners-IsOwner : (H : Hub) → All (IsOwner F H.root) (owners F H)
  unfolding owners
  owners-IsOwner H =
      All-filter _ (is_wanted H.clients) (owner_folders F H.root) (owner_folders-IsOwner H.root)

  -- A category is never taken for an owner.
  category-no_owner :
      (c : Str) (p : FilePath)
      → elem c categories ≡ true
      → is_owner_folder F p ≡ true
      → str_eq c (name_of p) ≡ false
  unfolding is_owner_folder
  category-no_owner c p k h = elim (Bool-cases (str_eq c (name_of p))) [
    | inr e ↦ e
    | inl e ↦ absurd (ground (arith, h, k, str_eq_iff c (name_of p)))
  ]

  pub categories-no_owners :
      (root : FilePath) (c : Str) (ps : List FilePath)
      → elem c categories ≡ true
      → All (IsOwner F root) ps
      → elem c (map name_of ps) ≡ false
  unfolding elem
  categories-no_owners root c [] k h = refl
  categories-no_owners root c (p ∷ ps) k ((child, h), hs) =
      ground (arith, category-no_owner c p k h, categories-no_owners root c ps k hs)
