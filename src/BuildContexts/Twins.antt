-- ===== src/BuildContexts/Twins.antt =====
-- The twin of a reference, by `docker_hub_twin` of scripts/base-image-build-contexts.py.
use ci_workflows.Base.{
  ℕ, true, Option, none, some, [], ◌∷◌, ◌++◌, ◌==◌, ◌≡◌, refl, sym, ap, ◌∙◌, arith, Bool-cases,
  Option-cases, inl, inr, ◌⊎◌, both_true, subst, ◌&&◌,
}
use mathlib.Core.List.{append-nil, append_assoc}
use ci_workflows.Base.Text.{Str, codes}
use ci_workflows.Base.Scan.{drop_prefix, cut}
use ci_workflows.BuildContexts.Reference.{
  ecr_library, Parts, split_reference, is_reference, tag_part, digest_part, twin_of,
  docker_hub_twin, need, is_name_from, is_tag, is_digest, holds,
}

-- `[:tag][@digest]` behind the name.
abbrev pub text_of : Parts → Str
text_of p = p.name ++ (tag_part p.tag ++ digest_part p.digest)

-- What can stand behind a name: a tag, a digest, or both.
abbrev pub IsTail : Str → Type 0
IsTail rest =
    ((tag : Str) × ((rest ≡ b':' ∷ tag) × (is_tag tag ≡ true)))
    ⊎ (((digest : Str) × ((rest ≡ b'@' ∷ digest) × (is_digest digest ≡ true)))
        ⊎ ((tag : Str) × ((digest : Str) × ((rest ≡ b':' ∷ (tag ++ b'@' ∷ digest))
                × ((is_tag tag ≡ true) × (is_digest digest ≡ true))))))

-- Docker Hub's image of a name, with what stands behind it, and `latest` where nothing does.
abbrev pub IsTwin : Str → Str → Str → Type 0
IsTwin name rest twin =
    ((rest ≡ []) × (twin ≡ codes "docker-image://docker.io/library/" ++ (name ++ codes ":latest")))
    ⊎ (IsTail rest × (twin ≡ codes "docker-image://docker.io/library/" ++ (name ++ rest)))

-- A reference to an official image under ECR Public, and its twin.
abbrev pub IsRedirect : Str × Str → Type 0
IsRedirect (reference, twin) =
    (name : Str) × ((rest : Str) × ((reference
          ≡ codes "public.ecr.aws/docker/library/" ++ (name ++ rest))
        × ((is_name_from need name ≡ true) × IsTwin name rest twin)))

-- The text of the twin of a reference that is well formed.
twin_of-IsTwin :
    (name : Str) (tag digest : Option Str)
    → holds is_tag tag ≡ true
    → holds is_digest digest ≡ true
    → IsTwin name
        (tag_part tag ++ digest_part digest)
        (twin_of (record { name = name; tag = tag; digest = digest }))
twin_of-IsTwin name none none h k = inl (refl, refl)
twin_of-IsTwin name none (some digest) h k = inr (inr (inl (digest, (refl, k))), refl)
twin_of-IsTwin name (some tag) none h k =
    inr (inl (tag, (ap (λ z. b':' ∷ z) (append-nil tag), h)), refl)
twin_of-IsTwin name (some tag) (some digest) h k =
    inr (inr (inr (tag, (digest, (refl, (h, k))))), refl)

parts-IsRedirect :
    (reference twin : Str) (p : Parts)
    → reference ≡ ecr_library ++ text_of p
    → is_reference p ≡ true
    → twin ≡ twin_of p
    → IsRedirect (reference, twin)
unfolding is_reference
parts-IsRedirect reference twin p e r t =
    let (n, rest) =
      both_true (is_name_from need p.name) (holds is_tag p.tag && holds is_digest p.digest) r in
    let (h, k) = both_true (holds is_tag p.tag) (holds is_digest p.digest) rest in
    (
      p.name,
      (
        tag_part p.tag ++ digest_part p.digest,
        (
          e,
          (
            n,
            subst (IsTwin p.name (tag_part p.tag ++ digest_part p.digest)) (sym t)
                (twin_of-IsTwin p.name p.tag p.digest h k),
          ),
        ),
      ),
    )

drop_prefix-append : (p s rest : Str) → drop_prefix p s ≡ some rest → s ≡ p ++ rest
unfolding drop_prefix
drop_prefix-append [] s rest h = ground arith
drop_prefix-append (c ∷ p) [] rest h = cc
drop_prefix-append (c ∷ p) (d ∷ s) rest h = elim (Bool-cases (c == d)) [
  | inr e ↦ ground (arith, e)
  | inl e ↦
      let same : c ≡ d = ground (arith, e) in
      let tail = drop_prefix-append p s rest (ground (arith, e)) in ground arith
]

-- The two sides of a cut make up the text, with the character between them.
cut-append :
    (x : ℕ) (part : Option Str → Str)
    → part none ≡ []
    → ((t : Str) → part (some t) ≡ x ∷ t)
    → (s : Str) → s ≡ (cut x s).0 ++ part (cut x s).1
unfolding cut
cut-append x part e f [] = sym e
cut-append x part e f (c ∷ s) = elim (Bool-cases (c == x)) [
  | inl t ↦ let same : c ≡ x = ground (arith, t) in rw t (ap (λ z. z ∷ s) same ∙ sym (f s))
  | inr t ↦ rw t (ap (λ z. c ∷ z) (cut-append x part e f s))
]

-- The parts that a reference is split into make it up.
split_reference-text_of : (s : Str) → s ≡ text_of (split_reference s)
unfolding split_reference
split_reference-text_of s =
    let left = (cut b'@' s).0 in
    let digest = (cut b'@' s).1 in
    let whole = cut-append b'@' digest_part refl (λ t. refl) s in
    let named = cut-append b':' tag_part refl (λ t. refl) left in
    whole
    ∙ (ap (λ z. z ++ digest_part digest) named
        ∙ append_assoc (cut b':' left).0 (tag_part (cut b':' left).1) (digest_part digest))

pub docker_hub_twin-IsRedirect :
    (reference twin : Str) → docker_hub_twin reference ≡ some twin → IsRedirect (reference, twin)
unfolding docker_hub_twin
docker_hub_twin-IsRedirect reference twin h =
    elim (Option-cases (drop_prefix ecr_library reference)) [
      | inl e ↦ ground (arith, e)
      | inr (rest, e) ↦ elim (Bool-cases (is_reference (split_reference rest))) [
        | inr f ↦ ground (arith, e, f)
        | inl f ↦
            parts-IsRedirect reference twin (split_reference rest)
              (drop_prefix-append ecr_library reference rest e
                ∙ ap (λ z. ecr_library ++ z) (split_reference-text_of rest))
              f (ground (arith, e, f))
      ]
    ]
