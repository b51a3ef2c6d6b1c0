-- ===== src/Base/Scan.antt =====
-- Searching a text for a pattern that is written as a function: `re.search` on a fixed expression.
use Prim.Native.Nat.{ℕ}
use mathlib.Core.Path.{◌≡◌, refl, sym, ap, ◌∙◌, subst}
use mathlib.Core.Logic.{◌↔◌, ◌⊎◌, inl, inr}
use mathlib.Core.Bool.{Bool, true, false, ◌||◌, ◌&&◌}
use mathlib.Core.Option.{Option, none, some}
use mathlib.Core.List.{[], ◌∷◌, ◌++◌}
use native.Mathlib.Omega.{arith}
use ci_workflows.Base.Tests.{◌==◌, if◌then◌else◌, Bool-cases, ==_self, ==→eq}
use ci_workflows.Base.Lists.{All, all}
use ci_workflows.Base.Text.{Str, is_space, lstrip_by, starts_with, starts_with-append, has_sub}

-- What stands behind a literal.
unfoldable pub drop_prefix : Str → Str → Option Str
drop_prefix [] s = some s
drop_prefix (p ∷ ps) [] = none
drop_prefix (p ∷ ps) (c ∷ s) = let rest = drop_prefix ps s in if p == c then rest else none

-- A literal, and a test of what stands behind it.
unfoldable pub behind : Str → (Str → Bool) → Str → Bool
unfolding drop_prefix
behind literal test s = elim (drop_prefix literal s) [ none ↦ false | some rest ↦ test rest ]

-- `\s*`, where no white space can follow
unfoldable pub skip_spaces : Str → Str
unfolding lstrip_by is_space
skip_spaces = lstrip_by is_space

-- A test at some place of the text, its end included.
unfoldable pub somewhere : (Str → Bool) → Str → Bool
somewhere test [] = test []
somewhere test (c ∷ s) = test (c ∷ s) || somewhere test s

-- A test at the start of some line, as `^` with `re.MULTILINE` asks for.
unfoldable pub behind_feeds : (Str → Bool) → Str → Bool
behind_feeds test [] = false
behind_feeds test (c ∷ s) =
    let rest = behind_feeds test s in if c == 10 then test s || rest else rest

abbrev pub at_some_line : (Str → Bool) → Str → Bool
at_some_line test s = test s || behind_feeds test s

-- A search finds a place exactly where the text has a part before it and one behind that passes.
pub somewhere_iff :
    (test : Str → Bool) (s : Str)
    → (somewhere test s ≡ true)
      ↔ ((before : Str) × ((after : Str) × ((s ≡ before ++ after) × (test after ≡ true))))
unfolding somewhere
somewhere_iff test s = (find s, λ (b, (a, (e, h))). rw e (place b a h))
  where
    find :
        (s : Str)
        → somewhere test s ≡ true
        → (before : Str) × ((after : Str) × ((s ≡ before ++ after) × (test after ≡ true)))
    find [] h = ([], ([], (refl, h)))
    find (c ∷ s) h = elim (Bool-cases (test (c ∷ s))) [
      | inl t ↦ ([], (c ∷ s, (refl, t)))
      | inr f ↦
          let (b, (a, (e, k))) = find s (ground (arith, f)) in (c ∷ b, (a, (ap (λ z. c ∷ z) e, k)))
    ]

    here : (s : Str) → test s ≡ true → somewhere test s ≡ true
    here [] h = h
    here (c ∷ s) h = ground arith

    place : (b a : Str) → test a ≡ true → somewhere test (b ++ a) ≡ true
    place [] a h = here a h
    place (c ∷ b) a h = ground (arith, place b a h)

-- `str.partition`: what stands before a character, and behind its first occurrence.
unfoldable pub cut : ℕ → Str → Str × Option Str
cut x [] = ([], none)
cut x (c ∷ s) = let (a, b) = cut x s in if c == x then ([], some s) else (c ∷ a, b)

-- A text without a character.
abbrev pub IsFree : ℕ → Str → Type 0
IsFree x s = All (λ c. (c == x) ≡ false) s

-- A cut that finds the character splits the text there, at the first place.
pub cut-IsFree :
    (x : ℕ) (s b : Str) → (cut x s).1 ≡ some b → (s ≡ (cut x s).0 ++ x ∷ b) × IsFree x (cut x s).0
unfolding cut
cut-IsFree x [] b h = cc
cut-IsFree x (c ∷ s) b h = elim (Bool-cases (c == x)) [
  | inl t ↦
      let same : c ≡ x = ground (arith, t) in let rest : s ≡ b = ground (arith, t) in rw t (cc, tt)
  | inr t ↦ let (e, k) = cut-IsFree x s b (ground (arith, t)) in rw t (ap (λ z. c ∷ z) e, (t, k))
]

pub cut_at : (x : ℕ) (a b : Str) → IsFree x a → cut x (a ++ x ∷ b) ≡ (a, some b)
unfolding cut
cut_at x [] b h = rw (==_self x) refl
cut_at x (c ∷ a) b (h, hs) = rw (h, cut_at x a b hs) refl

-- `[^\n]*` and a test behind it
unfoldable pub within_line : (Str → Bool) → Str → Bool
within_line test [] = test []
within_line test (c ∷ s) =
    let later = within_line test s in test (c ∷ s) || (if c == 10 then false else later)

abbrev pub begins_with_space : Str → Bool
begins_with_space [] = false
begins_with_space (c ∷ s) = is_space c

-- What stands behind the white space at the start of a text.
abbrev pub IsPastSpaces : Str → Str → Type 0
IsPastSpaces s rest =
    (gap : Str) × ((s ≡ gap ++ rest)
      × ((all is_space gap ≡ true) × (begins_with_space rest ≡ false)))

pub lstrip-gap :
    (line : Str)
    → (gap : Str) × ((line ≡ gap ++ lstrip_by is_space line) × (all is_space gap ≡ true))
unfolding lstrip_by all
lstrip-gap [] = ([], (refl, refl))
lstrip-gap (c ∷ s) = elim (Bool-cases (is_space c)) [
  | inr e ↦ ([], (rw e refl, refl))
  | inl e ↦
      let (gap, (a, b)) = lstrip-gap s in rw e (c ∷ gap, (ap (λ z. c ∷ z) a, ground (arith, e, b)))
]

pub lstrip_gap :
    (gap s : Str)
    → all is_space gap ≡ true
    → begins_with_space s ≡ false
    → lstrip_by is_space (gap ++ s) ≡ s
unfolding lstrip_by all
lstrip_gap [] [] h k = refl
lstrip_gap [] (c ∷ s) h k = rw k refl
lstrip_gap (c ∷ gap) s h k = ground (arith, lstrip_gap gap s)

lstrip-begins : (s : Str) → begins_with_space (lstrip_by is_space s) ≡ false
unfolding lstrip_by
lstrip-begins [] = refl
lstrip-begins (c ∷ s) = elim (Bool-cases (is_space c)) [
  | inl e ↦ rw e (lstrip-begins s)
  | inr e ↦ rw e e
]

pub skip_spaces-IsPastSpaces :
    (test : Str → Bool) (s : Str)
    → (test (skip_spaces s) ≡ true) ↔ ((rest : Str) × (IsPastSpaces s rest × (test rest ≡ true)))
unfolding skip_spaces
skip_spaces-IsPastSpaces test s = (
  λ h.
      let (gap, (e, g)) = lstrip-gap s in
      (lstrip_by is_space s, ((gap, (e, (g, lstrip-begins s))), h)),
  λ (rest, ((gap, (e, (g, b))), t)).
      ap (λ z. test (lstrip_by is_space z)) e ∙ (ap test (lstrip_gap gap rest g b) ∙ t),
)

pub starts_with_iff : (p s : Str) → (starts_with p s ≡ true) ↔ ((rest : Str) × (s ≡ p ++ rest))
unfolding starts_with
starts_with_iff p s = (starts_with-append p s, λ (rest, e). ap (starts_with p) e ∙ placed p rest)
  where
    placed : (p rest : Str) → starts_with p (p ++ rest) ≡ true
    placed [] rest = refl
    placed (c ∷ p) rest = ground (arith, placed p rest)

pub behind_iff :
    (literal : Str) (test : Str → Bool) (s : Str)
    → (behind literal test s ≡ true) ↔ ((rest : Str) × ((s ≡ literal ++ rest) × (test rest ≡ true)))
unfolding behind drop_prefix
behind_iff literal test s =
    (found literal s, λ (rest, (e, t)). ap (behind literal test) e ∙ placed literal rest t)
  where
    found :
        (literal s : Str)
        → behind literal test s ≡ true
        → (rest : Str) × ((s ≡ literal ++ rest) × (test rest ≡ true))
    found [] s h = (s, (refl, h))
    found (c ∷ p) [] h = cc
    found (c ∷ p) (d ∷ s) h = elim (Bool-cases (c == d)) [
      | inr e ↦ ground (arith, e)
      | inl e ↦
          let same = ==→eq c d e in
          let (rest, (a, t)) = found p s (ground (arith, e)) in (rest, (cc, t))
    ]

    placed : (literal rest : Str) → test rest ≡ true → behind literal test (literal ++ rest) ≡ true
    placed [] rest t = t
    placed (c ∷ p) rest t = ground (arith, placed p rest t)

pub within_line_iff :
    (test : Str → Bool) (s : Str)
    → (within_line test s ≡ true)
      ↔ ((mid : Str) × ((rest : Str) × ((s ≡ mid ++ rest) × (IsFree 10 mid × (test rest ≡ true)))))
unfolding within_line
within_line_iff test s =
    (found s, λ (mid, (rest, (e, (f, t)))). ap (within_line test) e ∙ placed mid rest f t)
  where
    found :
        (s : Str)
        → within_line test s ≡ true
        → (mid : Str) × ((rest : Str) × ((s ≡ mid ++ rest) × (IsFree 10 mid × (test rest ≡ true))))
    found [] h = ([], ([], (refl, (tt, h))))
    found (c ∷ s) h = elim (Bool-cases (test (c ∷ s))) [
      | inl t ↦ ([], (c ∷ s, (refl, (tt, t))))
      | inr n ↦ elim (Bool-cases (c == 10)) [
        | inl e ↦ ground (arith, n, e)
        | inr e ↦
            let (mid, (rest, (a, (f, t)))) = found s (ground (arith, n, e)) in
            (c ∷ mid, (rest, (ap (λ z. c ∷ z) a, ((e, f), t))))
      ]
    ]

    here : (s : Str) → test s ≡ true → within_line test s ≡ true
    here [] t = t
    here (c ∷ s) t = ground (arith, t)

    placed :
        (mid rest : Str) → IsFree 10 mid → test rest ≡ true → within_line test (mid ++ rest) ≡ true
    placed [] rest f t = here rest t
    placed (c ∷ mid) rest (e, f) t = ground (arith, e, placed mid rest f t)

-- A line of the text, with all that follows it, for which a property holds.
abbrev pub OnSomeLine : (Str → Type 0) → Str → Type 0
OnSomeLine P s = P s ⊎ ((before : Str) × ((after : Str) × ((s ≡ before ++ 10 ∷ after) × P after)))

pub at_some_line-OnSomeLine :
    (test : Str → Bool) (P : Str → Type 0)
    → ((s : Str) → (test s ≡ true) ↔ P s)
    → (s : Str) → (at_some_line test s ≡ true) ↔ OnSomeLine P s
unfolding behind_feeds
at_some_line-OnSomeLine test P i s = (
  λ h. elim (Bool-cases (test s)) [
    | inl t ↦ inl ((i s).0 t)
    | inr n ↦ inr (found s (ground (arith, n)))
  ],
  λ h. elim h [
    | inl p ↦ let t = (i s).1 p in ground (arith, t)
    | inr (before, (after, (e, p))) ↦
        let t = ap (behind_feeds test) e ∙ placed before after ((i after).1 p) in ground (arith, t)
  ],
)
  where
    found :
        (s : Str)
        → behind_feeds test s ≡ true
        → (before : Str) × ((after : Str) × ((s ≡ before ++ 10 ∷ after) × P after))
    found [] h = cc
    found (c ∷ s) h = elim (Bool-cases ((c == 10) && test s)) [
      | inl b ↦
          let same : c ≡ 10 = ground (arith, b) in
          ([], (s, (ap (λ z. z ∷ s) same, (i s).0 (ground (arith, b)))))
      | inr n ↦
          let (before, (after, (e, p))) = found s (ground (arith, n)) in
          (c ∷ before, (after, (ap (λ z. c ∷ z) e, p)))
    ]

    placed :
        (before after : Str) → test after ≡ true → behind_feeds test (before ++ 10 ∷ after) ≡ true
    placed [] after t = ground (arith, t)
    placed (c ∷ before) after t = ground (arith, placed before after t)

pub past_literal :
    (literal s : Str)
    → (starts_with literal (skip_spaces s) ≡ true)
      ↔ ((rest : Str) × IsPastSpaces s (literal ++ rest))
past_literal literal s =
    let (f, g) = skip_spaces-IsPastSpaces (starts_with literal) s in
    (
      λ h.
          let (u, (p, t)) = f h in
          let (rest, e) = (starts_with_iff literal u).0 t in (rest, subst (IsPastSpaces s) e p),
      λ (rest, p).
          g (literal ++ rest, (p, (starts_with_iff literal (literal ++ rest)).1 (rest, refl))),
    )

-- A text with another one in it.
abbrev pub HasPart : Str → Str → Type 0
HasPart needle text = (before : Str) × ((after : Str) × (text ≡ before ++ (needle ++ after)))

has_sub-somewhere : (c : ℕ) (p s : Str) → has_sub (c ∷ p) s ≡ somewhere (starts_with (c ∷ p)) s
unfolding has_sub somewhere starts_with
has_sub-somewhere c p [] = refl
has_sub-somewhere c p (d ∷ s) = ap (λ z. starts_with (c ∷ p) (d ∷ s) || z) (has_sub-somewhere c p s)

pub has_sub-HasPart : (c : ℕ) (p text : Str) → (has_sub (c ∷ p) text ≡ true) ↔ HasPart (c ∷ p) text
has_sub-HasPart c p text =
    let needle = c ∷ p in
    let same = has_sub-somewhere c p text in
    let (f, g) = somewhere_iff (starts_with needle) text in
    (
      λ h.
          let (before, (u, (e, t))) = f (sym same ∙ h) in
          let (after, e2) = (starts_with_iff needle u).0 t in
          (before, (after, e ∙ ap (λ z. before ++ z) e2)),
      λ (before, (after, e)).
          let starts = (starts_with_iff needle (needle ++ after)).1 (after, refl) in
          same ∙ g (before, (needle ++ after, (e, starts))),
    )
