-- ===== src/Hub/Clients.antt =====
-- `Hub.for_client_of` of scripts/hub_layout.py: clients never mix.
use ci_workflows.Base.{
  Bool, true, false, ◌||◌, Option, none, some, List, [], ◌∷◌, ◌≡◌, refl, sym, arith, filter,
  filter-All, All, All-map_of, inl, inr, Option-cases, Bool-cases, subst,
}
use ci_workflows.Base.Text.{Str, str_eq, str_eq_iff, str_eq_self, elem}
use ci_workflows.Hub.{
  FilePath, FileSystem, Hub, name_of, core, first_of, is_wanted, lies_in, owner_folders, owners,
  owner_of, for_client_of,
}
use ci_workflows.Hub.Logical.{first_of-All}

-- A first hit stays the first where other elements are left out.
first_of-filter :
    (q v w : FilePath → Bool) (xs : List FilePath) (o : FilePath)
    → ((x : FilePath) → w x ≡ true → v x ≡ true)
    → w o ≡ true
    → first_of q (filter v xs) ≡ some o
    → first_of q (filter w xs) ≡ some o
unfolding first_of filter
first_of-filter q v w [] o f k h = h
first_of-filter q v w (x ∷ xs) o f k h = elim (Bool-cases (v x)) [
  | inr e ↦
      let off : w x ≡ false = ground (arith, f x, e) in
      let more = first_of-filter q v w xs o f k (ground (arith, e)) in ground arith
  | inl e ↦ elim (Bool-cases (q x)) [
    | inl t ↦
        let same : x ≡ o = ground (arith, e, t) in
        let kept : w x ≡ true = subst (λ y. w y ≡ true) (sym same) k in ground arith
    | inr n ↦ let more = first_of-filter q v w xs o f k (ground (arith, e, n)) in ground arith
  ]
]

module _ (F : FileSystem) (H : Hub) (path : FilePath) (client : Str) where
  abbrev narrow : Hub
  narrow = record { root = H.root; clients = some (client ∷ []) }

  for_client_of-narrow :
      owner_of F H path ≡ some client → str_eq client core ≡ false → for_client_of F H path ≡ narrow
  unfolding for_client_of
  for_client_of-narrow h n = rw (h, for_client_of) (ground (arith, n))

  wanted-wanted :
      (o x : FilePath)
      → name_of o ≡ client
      → is_wanted H.clients o ≡ true
      → is_wanted (some (client ∷ [])) x ≡ true
      → is_wanted H.clients x ≡ true
  unfolding elem
  wanted-wanted o x e v w = go H.clients v
    where
      go : (cs : Option (List Str)) → is_wanted cs o ≡ true → is_wanted cs x ≡ true
      go none v = refl
      go (some cs) v = elim (Bool-cases (str_eq (name_of x) core)) [
        | inl c ↦ ground arith
        | inr c ↦
            let same : name_of x ≡ client = ground (arith, str_eq_iff (name_of x) client, w, c) in
            ground (arith, e, same)
      ]

  owner-narrow :
      (o : FilePath)
      → first_of (lies_in F path) (owners F H) ≡ some o
      → name_of o ≡ client
      → first_of (lies_in F path) (owners F narrow) ≡ some o
  unfolding owners elem
  owner-narrow o h e =
      first_of-filter (lies_in F path) (is_wanted H.clients) (is_wanted (some (client ∷ [])))
        (owner_folders F H.root) o
        (λ x. wanted-wanted o x e (
          first_of-All (λ p. is_wanted H.clients p ≡ true) (lies_in F path) (owners F H) o
            (filter-All (is_wanted H.clients) (owner_folders F H.root)) h))
        (ground (arith, e, str_eq_self client)) h

  -- Clients never mix: for a path in a client folder, the narrowed tree reads core and that client's
  -- folder and no other, and the path keeps its owner there.
  for_client_of-IsNarrow :
      owner_of F H path ≡ some client
      → str_eq client core ≡ false
      → All
          (λ o. (str_eq (name_of o) core || str_eq (name_of o) client) ≡ true)
          (owners F (for_client_of F H path))
        × (owner_of F (for_client_of F H path) path ≡ some client)
  unfolding owner_of owners elem
  for_client_of-IsNarrow h n = rw (for_client_of-narrow h n) (
    All-map_of (filter (is_wanted (some (client ∷ []))) (owner_folders F H.root))
        (λ o w. ground arith)
        (filter-All (is_wanted (some (client ∷ []))) (owner_folders F H.root)),
    elim (Option-cases (first_of (lies_in F path) (owners F H))) [
      | inl e ↦ ground arith
      | inr (o, e) ↦
          let named : name_of o ≡ client = ground (arith, h, e) in
          let found = owner-narrow o e named in ground arith
    ],
  )
