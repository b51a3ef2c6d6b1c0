-- ===== src/Hub/Logical.antt =====
-- `Hub.logical` of scripts/hub_layout.py: it undoes `Hub.spellings`.
use ci_workflows.Base.{
  Bool, true, some, List, [], ◌∷◌, ◌++◌, ◌≡◌, refl, sym, ap, arith, map, All, All-pair, inl, inr,
  Option-cases, Bool-cases,
}
use mathlib.Core.List.{append_assoc}
use ci_workflows.Base.Text.{Str, str_eq_self, elem}
use ci_workflows.Hub.{
  FilePath, FileSystem, Hub, name_of, categories, relative_to, owners, spellings, resolve, first_of,
  logical_parts, logical,
}
use ci_workflows.Hub.Owners.{IsOwner, name_of-child, owners-IsOwner, categories-no_owners}

relative_to-append : (root p : FilePath) → relative_to root (root ++ p) ≡ some p
unfolding relative_to
relative_to-append [] p = refl
relative_to-append (r ∷ root) p = ground (arith, str_eq_self r, relative_to-append root p)

-- Every owner is among the owners by its name.
names :
    (ps qs : List FilePath)
    → All (λ p. elem (name_of p) (map name_of ps) ≡ true) qs
    → (q : FilePath) → All (λ p. elem (name_of p) (map name_of (q ∷ ps)) ≡ true) qs
unfolding elem
names ps [] h q = tt
names ps (p ∷ qs) (h, hs) q = (ground arith, names ps qs hs q)

own_names : (ps : List FilePath) → All (λ p. elem (name_of p) (map name_of ps) ≡ true) ps
unfolding elem
own_names [] = tt
own_names (p ∷ ps) = (ground (arith, str_eq_self (name_of p)), names ps ps (own_names ps) p)

pub first_of-All :
    (P : FilePath → Type 0) (p : FilePath → Bool) (xs : List FilePath) (x : FilePath)
    → All P xs
    → first_of p xs ≡ some x
    → P x
unfolding first_of
first_of-All P p [] x h e = cc
first_of-All P p (y ∷ ys) x (h, hs) e = elim (Bool-cases (p y)) [
  | inl t ↦ let same : y ≡ x = ground (arith, t) in rw (sym same) h
  | inr f ↦ first_of-All P p ys x hs (ground (arith, f))
]

module _ (F : FileSystem) (H : Hub) (category : Str) (rest : FilePath) where
  logical_parts-legacy :
      elem category categories ≡ true → logical_parts F H (category ∷ rest) ≡ category ∷ rest
  unfolding logical_parts
  logical_parts-legacy k = go rest
    where
      go : (r : FilePath) → logical_parts F H (category ∷ r) ≡ category ∷ r
      go [] = refl
      go (q ∷ r) =
          ground (arith, categories-no_owners F H.root category (owners F H) k (owners-IsOwner F H))

  logical-legacy :
      elem category categories ≡ true
      → logical F H (H.root ++ category ∷ rest) ≡ some (category ∷ rest)
  unfolding logical
  logical-legacy k =
      rw (relative_to-append H.root (category ∷ rest)) (ap some (logical_parts-legacy k))

  logical-owner :
      (owner : FilePath)
      → IsOwner F H.root owner × (elem (name_of owner) (map name_of (owners F H)) ≡ true)
      → logical F H (owner ++ category ∷ rest) ≡ some (category ∷ rest)
  unfolding logical logical_parts
  logical-owner owner (((name, child), o), known) =
      let path : owner ++ category ∷ rest ≡ H.root ++ name ∷ category ∷ rest =
        rw child (append_assoc H.root (name ∷ []) (category ∷ rest)) in
      let named : name_of owner ≡ name = rw child (name_of-child H.root name) in
      rw (path, relative_to-append H.root (name ∷ category ∷ rest)) (ground (arith, named, known))

  All-spellings :
      (ps : List FilePath)
      → All (λ p. IsOwner F H.root p × (elem (name_of p) (map name_of (owners F H)) ≡ true)) ps
      → All
          (λ path. logical F H path ≡ some (category ∷ rest))
          (map (λ owner. owner ++ category ∷ rest) ps)
  All-spellings [] h = tt
  All-spellings (p ∷ ps) (h, hs) = (logical-owner p h, All-spellings ps hs)

  spellings-logical :
      elem category categories ≡ true
      → All (λ path. logical F H path ≡ some (category ∷ rest)) (spellings F H (category ∷ rest))
  unfolding spellings
  spellings-logical k = (
    logical-legacy k,
    All-spellings (owners F H)
        (All-pair _ _ (owners F H) (owners-IsOwner F H) (own_names (owners F H))),
  )

  -- Names are stable across the layouts: a legacy path under a category is the logical path of each
  -- of its spellings, and of the one where `resolve` finds it.
  pub spellings-logical-resolve :
      elem category categories ≡ true
      → All (λ path. logical F H path ≡ some (category ∷ rest)) (spellings F H (category ∷ rest))
        × (logical F H (resolve F H (category ∷ rest)) ≡ some (category ∷ rest))
  unfolding resolve
  spellings-logical-resolve k = (
    spellings-logical k,
    elim (Option-cases (first_of F.exists (spellings F H (category ∷ rest)))) [
      | inl e ↦ rw (e, resolve) (logical-legacy k)
      | inr (path, e) ↦
          rw (e, resolve)
            (first_of-All (λ path. logical F H path ≡ some (category ∷ rest)) F.exists
              (spellings F H (category ∷ rest)) path (spellings-logical k) e)
    ],
  )
