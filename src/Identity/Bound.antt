-- ===== src/Identity/Bound.antt =====
-- `load_bindings` and `resolve` of scripts/resolve_service_identity.py: an identity is a binding of
-- the catalog by the repository's id.
use ci_workflows.Base.{
  ℕ, Bool, true, false, ◌&&◌, ◌||◌, Option, none, some, List, [], ◌∷◌, ◌≡◌, ◌≢◌, ◌⊎◌, inl, inr,
  refl, arith, ◌==◌, if◌then◌else◌, is_nil, Bool-cases, Option-cases,
}
use ci_workflows.Base.Text.{Str, str_eq}
use ci_workflows.Identity.{
  Block, Entry, Kind, deployable, core, schema, shared_library, set_default, get, Bindings,
  no_bindings, bind, bind_service, bind_services, bind_artifacts, Catalog, load_bindings, or_text,
  row_capabilities, resolve_capabilities,
}
use ci_workflows.Identity.Release.{Graph}
use ci_workflows.Identity.Resolve.{
  Facts, resolved, repo_of, is_renamed, facts_of, check_name, resolve_entry, resolve,
}

abbrev pub In : Entry → List Entry → Type 0
In e [] = ⊥
In e (x ∷ xs) = (e ≡ x) ⊎ In e xs

-- The block of an entry that a kind stands for.
abbrev pub block_of : Kind → Entry → Block
block_of deployable e = e.deployable_repository
block_of schema e = e.schema_repository
block_of _ e = e.repository

abbrev pub is_service_kind : Kind → Bool
is_service_kind deployable = true
is_service_kind core = true
is_service_kind schema = true
is_service_kind _ = false

-- The id is that of a block of the entry: of one of the three of a service, or of an artifact's.
pub record IsBinding (services artifacts : List Entry) (id : ℕ) (e : Entry) (name : Option Str)
    (kind : Kind) : Type 0 where
  pub has_id : (block_of kind e).github_id ≡ id
  pub given : id ≢ 0
  pub has_name : name ≡ (block_of kind e).name
  pub source :
      (In e services × (is_service_kind kind ≡ true)) ⊎ (In e artifacts × (kind ≡ shared_library))

get-set_default :
    {A : Type 0} (k j : ℕ) (v : A) (d : List (ℕ × A))
    → get k (set_default j v d)
      ≡ elim (get k d) [ some w ↦ some w | none ↦ if j == k then some v else none ]
unfolding get set_default
get-set_default k j v [] = ground arith
get-set_default k j v ((i, w) ∷ d) = ground (arith, get-set_default k j v d)

module _ (services artifacts : List Entry) where
  -- The two maps agree on an id: neither has it, or both have it, from one block.
  abbrev pub Agrees : Bindings → ℕ → Type 0
  Agrees m id =
      ((get id m.by_id ≡ none) × (get id m.expected ≡ none))
      ⊎ ((e : Entry) × (name : Option Str) × (kind : Kind) × (get id m.by_id ≡ some e)
          × (get id m.expected ≡ some (name, kind))
          × IsBinding services artifacts id e name kind)

  bind-Agrees :
      (e : Entry) (kind : Kind) (m : Bindings) (id : ℕ)
      → (In e services × (is_service_kind kind ≡ true)) ⊎ (In e artifacts × (kind ≡ shared_library))
      → Agrees m id
      → Agrees (bind e (block_of kind e) kind m) id
  unfolding bind
  bind-Agrees e kind m id from a = elim (Bool-cases ((block_of kind e).github_id == 0)) [
    | inl zero_id ↦ rw zero_id a
    | inr given ↦
        let b = block_of kind e in
        let by_id = get-set_default id b.github_id e m.by_id in
        let expected = get-set_default id b.github_id (b.name, kind) m.expected in
        rw given (elim a [
          | inr (e', name, kind', x, y, z) ↦
              inr (e', name, kind', ground (arith, by_id, x), ground (arith, expected, y), z)
          | inl (x, y) ↦ (elim (Bool-cases (b.github_id == id)) [
            | inr other ↦ inl (ground (arith, by_id, x, other), ground (arith, expected, y, other))
            | inl same ↦ inr (
              e,
              b.name,
              kind,
              ground (arith, by_id, x, same),
              ground (arith, expected, y, same),
              record {
                has_id = ground (arith, same);
                given = λ h. ground (arith, given, same, h);
                has_name = refl;
                source = from;
              },
            )
          ])
        ])
  ]

  bind_services-Agrees :
      (es : List Entry) (m : Bindings) (id : ℕ)
      → ((e : Entry) → In e es → In e services)
      → Agrees m id
      → Agrees (bind_services es m) id
  unfolding bind_services bind_service
  bind_services-Agrees [] m id f a = a
  bind_services-Agrees (e ∷ es) m id f a =
      let from = f e (inl refl) in
      bind_services-Agrees es _ id (λ x i. f x (inr i))
        (bind-Agrees e schema _ id (inl (from, refl)) (
          bind-Agrees e core _ id (inl (from, refl))
            (bind-Agrees e deployable m id (inl (from, refl)) a)))

  bind_artifacts-Agrees :
      (es : List Entry) (m : Bindings) (id : ℕ)
      → ((e : Entry) → In e es → In e artifacts)
      → Agrees m id
      → Agrees (bind_artifacts es m) id
  unfolding bind_artifacts
  bind_artifacts-Agrees [] m id f a = a
  bind_artifacts-Agrees (e ∷ es) m id f a =
      bind_artifacts-Agrees es _ id (λ x i. f x (inr i))
        (bind-Agrees e shared_library m id (inr (f e (inl refl), refl)) a)

-- The bindings of a catalog agree on every id.
pub load_bindings-Agrees :
    (c : Catalog) (services : List Entry) (m : Bindings) (id : ℕ)
    → c.services ≡ some services
    → load_bindings c ≡ some m
    → Agrees services c.artifacts m id
unfolding load_bindings get
load_bindings-Agrees c services m id s h =
    let loaded : m ≡ bind_artifacts c.artifacts (bind_services services no_bindings) =
      ground (arith, s, h) in
    rw loaded (
      bind_artifacts-Agrees services c.artifacts c.artifacts _ id (λ e i. i)
        (bind_services-Agrees services c.artifacts services no_bindings id (λ e i. i)
          (inl (refl, refl))))

-- The name that the catalog expects is missing, or it is the repository's.
abbrev pub is_expected : Option Str → Str → Bool
is_expected none repo = true
is_expected (some name) repo = is_nil name || str_eq name repo

not_renamed :
    (want : Option Str) (repo : Str) → is_renamed want repo ≡ false → is_expected want repo ≡ true
unfolding is_renamed
not_renamed none repo h = refl
not_renamed (some want) repo h = ground arith

-- What facts about a repository rest on.
pub record IsIdentified (c : Catalog) (id : ℕ) (repo : Str) (f : Facts) : Type 0 where
  pub services : List Entry
  pub is_catalog : c.services ≡ some services
  pub entry : Entry
  pub name : Option Str
  pub bound : IsBinding services c.artifacts id entry name f.repo_kind
  pub same_name : is_expected name repo ≡ true
  pub same_service : f.service ≡ or_text entry.name repo
  pub has_capabilities :
      (f.deployable && is_nil (row_capabilities (or_text name repo) c.matrix)) ≡ false

check_name-facts :
    (c : Catalog) (g : Graph) (repo : Str) (id : ℕ) (o : Str) (e : Entry) (want : Option Str)
    (kind : Kind) (f : Facts)
    → check_name c g repo id o e (want, kind) ≡ resolved f
    → (f.repo_kind ≡ kind)
      × (is_expected want repo ≡ true)
      × (f.service ≡ or_text e.name repo)
      × ((f.deployable && is_nil (row_capabilities (or_text want repo) c.matrix)) ≡ false)
unfolding check_name facts_of resolve_capabilities
check_name-facts c g repo id o e want kind f h = ground (arith, not_renamed want repo)

check_name-IsIdentified :
    (c : Catalog) (g : Graph) (services : List Entry) (repo : Str) (id : ℕ) (o : Str) (e : Entry)
    (want : Option Str) (kind : Kind) (f : Facts)
    → c.services ≡ some services
    → IsBinding services c.artifacts id e want kind
    → check_name c g repo id o e (want, kind) ≡ resolved f
    → IsIdentified c id repo f
check_name-IsIdentified c g services repo id o e want kind f s b h =
    let (kind_of, expected, service, caps) = check_name-facts c g repo id o e want kind f h in
    record {
      services = services;
      is_catalog = s;
      entry = e;
      name = want;
      bound = rw kind_of b;
      same_name = expected;
      same_service = service;
      has_capabilities = caps;
    }

resolve_entry-IsIdentified :
    (c : Catalog) (g : Graph) (services : List Entry) (m : Bindings) (repo_full : Str) (id : ℕ)
    (o : Str) (f : Facts)
    → c.services ≡ some services
    → Agrees services c.artifacts m id
    → resolve_entry c g repo_full id o m (get id m.by_id) ≡ resolved f
    → IsIdentified c id (repo_of repo_full) f
unfolding resolve_entry
resolve_entry-IsIdentified c g services m repo_full id o f s (inl (x, y)) h =
    absurd (ground (arith, x, h))
resolve_entry-IsIdentified c g services m repo_full id o f s (inr (e, name, kind, x, y, b)) h =
    check_name-IsIdentified c g services (repo_of repo_full) id o e name kind f s b
      (ground (arith, x, y, h))

-- Facts are given only about a repository whose id, not whose name, a block of the catalog binds: the
-- service and the kind are those of that block's entry, the name that the block expects is the
-- repository's or is missing, and a deployable has capabilities.
pub resolve-IsIdentified :
    (c : Catalog) (g : Graph) (repo_full : Str) (id : ℕ) (coverage_override : Str) (f : Facts)
    → resolve c g repo_full id coverage_override ≡ resolved f
    → IsIdentified c id (repo_of repo_full) f
unfolding resolve
resolve-IsIdentified c g repo_full id o f h = elim (Option-cases (load_bindings c)) [
  | inl e ↦ absurd (ground (arith, e, h))
  | inr (m, e) ↦ (elim (Option-cases c.services) [
    | inl absent ↦ absurd (unfold load_bindings in ground (arith, e, absent))
    | inr (services, s) ↦
        resolve_entry-IsIdentified c g services m repo_full id o f s
          (load_bindings-Agrees c services m id s e) (ground (arith, e, h))
  ])
]
