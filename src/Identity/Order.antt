-- ===== src/Identity/Order.antt =====
-- `resolve_release_targets` of scripts/resolve_service_identity.py: the order of the consumers, and
-- that none is lost.
use ci_workflows.Base.{
  ℕ, ◌≤◌, Bool, true, false, not, ◌&&◌, ◌||◌, Option, none, some, List, [], ◌∷◌, ◌≡◌, refl, arith,
  is_nil, any, All, Bool-cases, inl, inr,
}
use ci_workflows.Base.Text.{Str, str_eq, str_eq_iff, elem}
use ci_workflows.Base.Sorting.{any-sort_by}
use ci_workflows.ModulePins.{lookup}
use ci_workflows.Identity.Release.{
  Node, Graph, Consumer, consumer_of, is_unorderable, split_consumers, consumer_leb,
  insert_consumer, sort_consumers, names_or_nil, module_of, resolve_release_targets,
}

-- No consumer stands before one of a lower level.
abbrev pub InOrder : List Consumer → Type 0
InOrder [] = Unit
InOrder (c ∷ cs) = All (λ d. c.level ≤ d.level) cs × InOrder cs

insert_consumer-All :
    (P : Consumer → Type 0) (c : Consumer) (cs : List Consumer)
    → P c
    → All P cs
    → All P (insert_consumer c cs)
unfolding insert_consumer
insert_consumer-All P c [] p ps = (p, tt)
insert_consumer-All P c (d ∷ cs) p (q, ps) = elim (Bool-cases (consumer_leb c d)) [
  | inl t ↦ rw t (p, (q, ps))
  | inr f ↦ rw f (q, insert_consumer-All P c cs p ps)
]

All-level :
    (a b : ℕ) (cs : List Consumer) → a ≤ b → All (λ d. b ≤ d.level) cs → All (λ d. a ≤ d.level) cs
All-level a b [] h t = tt
All-level a b (c ∷ cs) h (l, t) = (omega arith, All-level a b cs h t)

insert_consumer-InOrder :
    (c : Consumer) (cs : List Consumer) → InOrder cs → InOrder (insert_consumer c cs)
unfolding insert_consumer consumer_leb
insert_consumer-InOrder c [] h = (tt, tt)
insert_consumer-InOrder c (d ∷ cs) (low, h) = elim (Bool-cases (consumer_leb c d)) [
  | inl t ↦
      let first : c.level ≤ d.level = ground (arith, t) in
      rw t ((first, All-level c.level d.level cs first low), (low, h))
  | inr f ↦
      let second : d.level ≤ c.level = ground (arith, f) in
      rw f (
        insert_consumer-All (λ x. d.level ≤ x.level) c cs second low,
        insert_consumer-InOrder c cs h,
      )
]

sort_consumers-InOrder : (cs : List Consumer) → InOrder (sort_consumers cs)
unfolding sort_consumers
sort_consumers-InOrder [] = tt
sort_consumers-InOrder (c ∷ cs) =
    insert_consumer-InOrder c (sort_consumers cs) (sort_consumers-InOrder cs)

-- The repositories that a release bumps come in release order: no consumer stands before one of a
-- lower level.
resolve_release_targets-InOrder :
    (repo_name : Str) (g : Graph) → InOrder (resolve_release_targets repo_name g).consumers
unfolding resolve_release_targets
resolve_release_targets-InOrder repo_name g =
    let names = names_or_nil (lookup repo_name g.consumers) in
    elim (Bool-cases (is_nil (module_of (lookup repo_name g.nodes)))) [
      | inl t ↦ rw t tt
      | inr f ↦ rw f (sort_consumers-InOrder (split_consumers g repo_name names).consumers)
    ]

abbrev pub is_named : Str → Consumer → Bool
is_named name c = str_eq name c.name

any-insert_consumer :
    (p : Consumer → Bool) (c : Consumer) (cs : List Consumer)
    → any p (insert_consumer c cs) ≡ (p c || any p cs)
unfolding insert_consumer any
any-insert_consumer p c [] = refl
any-insert_consumer p c (d ∷ cs) = ground (arith, any-insert_consumer p c cs)

any-sort_consumers :
    (p : Consumer → Bool) (cs : List Consumer) → any p (sort_consumers cs) ≡ any p cs
unfolding sort_consumers any
any-sort_consumers p [] = refl
any-sort_consumers p (c ∷ cs) =
    ground (arith, any-insert_consumer p c (sort_consumers cs), any-sort_consumers p cs)

abbrev pub is_modelled : Option Node → Bool
is_modelled none = false
is_modelled (some n) = true

-- A consumer that the graph lists and models.
abbrev pub is_listed : Str → Graph → Str → Bool
is_listed repo_name g name =
    elem name (names_or_nil (lookup repo_name g.consumers)) && is_modelled (lookup name g.nodes)

module _ (repo_name : Str) (g : Graph) (name : Str) where
  split_consumers-in :
      (names : List Str)
      → let s = split_consumers g repo_name names in
        let known = elem name names && is_modelled (lookup name g.nodes) in
        (any (is_named name) s.consumers ≡ (known && not (is_unorderable g repo_name name)))
        × (elem name s.withheld ≡ (known && is_unorderable g repo_name name))
  unfolding split_consumers any elem consumer_of
  split_consumers-in [] = (refl, refl)
  split_consumers-in (x ∷ xs) = ground (arith, str_eq_iff name x, split_consumers-in xs)

  -- No consumer is lost and none is guessed at: of a published module, the repositories to bump are
  -- those that the graph lists and models and can order, and those withheld are the listed and
  -- modelled ones that it cannot.
  pub resolve_release_targets-split :
      is_nil (module_of (lookup repo_name g.nodes)) ≡ false
      → let t = resolve_release_targets repo_name g in
        (any (is_named name) t.consumers
          ≡ (is_listed repo_name g name && not (is_unorderable g repo_name name)))
        × (elem name t.unorderable_consumers
            ≡ (is_listed repo_name g name && is_unorderable g repo_name name))
  unfolding resolve_release_targets elem
  resolve_release_targets-split published =
      let names = names_or_nil (lookup repo_name g.consumers) in
      let s = split_consumers g repo_name names in
      rw published (
        ground (arith, any-sort_consumers (is_named name) s.consumers, split_consumers-in names),
        ground (arith, any-sort_by (λ w. w) (str_eq name) s.withheld, split_consumers-in names),
      )
