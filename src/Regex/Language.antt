-- ===== src/Regex/Language.antt =====
-- A search finds a match exactly if some part of the text is in the pattern's language.
use ci_workflows.Base.{
  ℕ, zero, suc, ◌+◌, ◌-◌, ◌≤◌, Bool, true, false, not, ◌&&◌, Option, none, some, [], ◌∷◌, ◌++◌,
  ◌==◌, take, length, ◌≡◌, ◌≢◌, ◌⊎◌, inl, inr, refl, sym, ap, ◌∙◌, arith, All, Bool-cases,
  Option-cases,
}
use ci_workflows.Base.Text.{Str}
use ci_workflows.Regex.{
  Regex, empty, lit, seq, alt, opt, dots, same_letter, or_else, has_room, less_room, match_dots,
  match_lit, match, matched, search,
}
use mathlib.Core.List.{append_assoc}
use mathlib.Core.Option.{some-injective}

abbrev Fits : Option ℕ → ℕ → Type 0
Fits none n = Unit
Fits (some bound) n = n ≤ bound

-- The texts of a pattern, letters of either case.
abbrev pub In : Regex → Str → Type 0
In empty u = u ≡ []
In (lit c) u = (d : ℕ) × (u ≡ d ∷ []) × (same_letter c d ≡ true)
In (seq r q) u = (v : Str) × (w : Str) × (u ≡ v ++ w) × In r v × In q w
In (alt r q) u = In r u ⊎ In q u
In (opt r) u = In r u ⊎ (u ≡ [])
In (dots bound) u = All (λ c. c ≢ 10) u × Fits bound (length u)

or_else-cases : (a b : Option Str) (x : Str) → or_else a b ≡ some x → (a ≡ some x) ⊎ (b ≡ some x)
or_else-cases none b x h = inr h
or_else-cases (some s) b x h = inl h

Fits-zero : (bound : Option ℕ) → Fits bound 0
Fits-zero none = tt
Fits-zero (some n) = omega arith

Fits-more :
    (bound : Option ℕ) (n : ℕ)
    → has_room bound ≡ true
    → Fits (less_room bound) n
    → Fits bound (suc n)
Fits-more none n h f = tt
Fits-more (some zero) n h f = cc
Fits-more (some (suc b)) n h f = omega arith

Fits-room : (bound : Option ℕ) (n : ℕ) → Fits bound (suc n) → has_room bound ≡ true
Fits-room none n f = refl
Fits-room (some zero) n f = absurd (omega arith)
Fits-room (some (suc b)) n f = refl

Fits-less : (bound : Option ℕ) (n : ℕ) → Fits bound (suc n) → Fits (less_room bound) n
Fits-less none n f = tt
Fits-less (some zero) n f = absurd (omega arith)
Fits-less (some (suc b)) n f = omega arith

match_dots_sound :
    (bound : Option ℕ) (k : Str → Option Str) (s x : Str)
    → match_dots bound k s ≡ some x
    → (u : Str) × (t : Str) × (s ≡ u ++ t) × In (dots bound) u × (k t ≡ some x)
unfolding match_dots
match_dots_sound bound k [] x h = ([], [], refl, (tt, Fits-zero bound), h)
match_dots_sound bound k (c ∷ s) x h = elim (Bool-cases (has_room bound && not (c == 10))) [
  | inr stop ↦ ([], c ∷ s, refl, (tt, Fits-zero bound), ground (arith, stop))
  | inl more ↦
      (elim (or_else-cases (match_dots (less_room bound) k s) (k (c ∷ s)) x
        (ground (arith, more))) [
          | inr e ↦ ([], c ∷ s, refl, (tt, Fits-zero bound), e)
          | inl e ↦
              let (u, t, cut, (chars, fits), rest) = match_dots_sound (less_room bound) k s x e in
              (
                c ∷ u,
                t,
                ap (λ v. c ∷ v) cut,
                (
                  (ground (arith, more), chars),
                  Fits-more bound (length u) (ground (arith, more)) fits,
                ),
                rest,
              )
        ])
]

match_sound :
    (r : Regex) (k : Str → Option Str) (s x : Str)
    → match r k s ≡ some x
    → (u : Str) × (t : Str) × (s ≡ u ++ t) × In r u × (k t ≡ some x)
unfolding match match_lit
match_sound empty k s x h = ([], s, refl, refl, h)
match_sound (lit c) k [] x h = cc
match_sound (lit c) k (d ∷ s) x h = elim (Bool-cases (same_letter c d)) [
  | inl same ↦ (d ∷ [], s, refl, (d, refl, same), ground (arith, same))
  | inr other ↦ absurd (ground (arith, other))
]
match_sound (seq r q) k s x h =
    let (u, t, cut, ru, rest) = match_sound r (match q k) s x h in
    let (v, w, cut', qv, rest') = match_sound q k t x rest in
    (
      u ++ v,
      w,
      cut ∙ (ap (λ z. u ++ z) cut' ∙ sym (append_assoc u v w)),
      (u, v, refl, ru, qv),
      rest',
    )
match_sound (alt r q) k s x h = elim (or_else-cases (match r k s) (match q k s) x h) [
  | inl e ↦ let (u, t, cut, ru, rest) = match_sound r k s x e in (u, t, cut, inl ru, rest)
  | inr e ↦ let (u, t, cut, qu, rest) = match_sound q k s x e in (u, t, cut, inr qu, rest)
]
match_sound (opt r) k s x h = elim (or_else-cases (match r k s) (k s) x h) [
  | inl e ↦ let (u, t, cut, ru, rest) = match_sound r k s x e in (u, t, cut, inl ru, rest)
  | inr e ↦ ([], s, refl, inr refl, e)
]
match_sound (dots bound) k s x h = match_dots_sound bound k s x h

abbrev pub is_some : Option Str → Bool
is_some none = false
is_some (some s) = true

match_dots_stop :
    (bound : Option ℕ) (k : Str → Option Str) (t : Str)
    → is_some (k t) ≡ true
    → is_some (match_dots bound k t) ≡ true
unfolding match_dots
match_dots_stop bound k [] h = h
match_dots_stop bound k (c ∷ t) h = ground arith

match_dots_complete :
    (bound : Option ℕ) (k : Str → Option Str) (u t : Str)
    → In (dots bound) u
    → is_some (k t) ≡ true
    → is_some (match_dots bound k (u ++ t)) ≡ true
unfolding match_dots
match_dots_complete bound k [] t i h = match_dots_stop bound k t h
match_dots_complete bound k (c ∷ u) t ((no_feed, chars), fits) h =
    let more =
      match_dots_complete (less_room bound) k u t (chars, Fits-less bound (length u) fits) h in
    ground (arith, more, Fits-room bound (length u) fits)

match_complete :
    (r : Regex) (k : Str → Option Str) (u t : Str)
    → In r u
    → is_some (k t) ≡ true
    → is_some (match r k (u ++ t)) ≡ true
unfolding match match_lit
match_complete empty k u t e h = rw e h
match_complete (lit c) k u t (d, e, same) h = rw e (ground (arith, same))
match_complete (seq r q) k u t (v, w, e, rv, qw) h =
    rw (e, append_assoc) (match_complete r (match q k) v (w ++ t) rv (match_complete q k w t qw h))
match_complete (alt r q) k u t (inl i) h = ground (arith, match_complete r k u t i h)
match_complete (alt r q) k u t (inr i) h = ground (arith, match_complete q k u t i h)
match_complete (opt r) k u t (inl i) h = ground (arith, match_complete r k u t i h)
match_complete (opt r) k u t (inr e) h = rw e (ground arith)
match_complete (dots bound) k u t i h = match_dots_complete bound k u t i h

length-append : (u t : Str) → length (u ++ t) ≡ length u + length t
length-append [] t = omega arith
length-append (c ∷ u) t = omega (arith, length-append u t)

take-append : (n : ℕ) (u t : Str) → n ≡ length u → take n (u ++ t) ≡ u
take-append zero [] t e = refl
take-append zero (c ∷ u) t e = absurd (omega arith)
take-append (suc n) [] t e = absurd (omega arith)
take-append (suc n) (c ∷ u) t e = ap (λ v. c ∷ v) (take-append n u t (omega arith))

-- Some part of the text is in the language.
abbrev pub Occurs : Regex → Str → Str → Type 0
Occurs r m s = (before : Str) × (after : Str) × (s ≡ before ++ (m ++ after)) × In r m

matched-some : (s u t : Str) → s ≡ u ++ t → matched s (some t) ≡ some u
matched-some s u t cut =
    ap some
      (rw cut (take-append (length (u ++ t) - length t) u t (omega (arith, length-append u t))))

matched_sound : (r : Regex) (s m : Str) → matched s (match r some s) ≡ some m → Occurs r m s
matched_sound r s m h = elim (Option-cases (match r some s)) [
  | inl e ↦ absurd (ground (arith, e))
  | inr (rest, e) ↦
      let (u, t, cut, i, k) = match_sound r some s rest e in
      let same : m ≡ u =
        some-injective m u (sym h ∙ (ap (matched s) (e ∙ sym k) ∙ matched-some s u t cut)) in
      ([], t, rw same cut, rw same i)
]

-- What a search returns is a part of the text, and in the language of the pattern.
pub search_sound : (r : Regex) (s m : Str) → search r s ≡ some m → Occurs r m s
unfolding search
search_sound r [] m h = matched_sound r [] m h
search_sound r (c ∷ s) m h =
    elim (or_else-cases (matched (c ∷ s) (match r some (c ∷ s))) (search r s) m h) [
      | inl e ↦ matched_sound r (c ∷ s) m e
      | inr e ↦
          let (before, after, cut, i) = search_sound r s m e in
          (c ∷ before, after, ap (λ v. c ∷ v) cut, i)
    ]

is_some-matched : (s : Str) (o : Option Str) → is_some (matched s o) ≡ is_some o
is_some-matched s none = refl
is_some-matched s (some rest) = refl

search_here : (r : Regex) (s : Str) → is_some (match r some s) ≡ true → is_some (search r s) ≡ true
unfolding search
search_here r [] h = rw is_some-matched h
search_here r (c ∷ s) h = ground (arith, is_some-matched (c ∷ s) (match r some (c ∷ s)))

search_within :
    (r : Regex) (b s : Str) → is_some (match r some s) ≡ true → is_some (search r (b ++ s)) ≡ true
unfolding search
search_within r [] s h = search_here r s h
search_within r (c ∷ b) s h = ground (arith, search_within r b s h)

-- Where a part of the text is in the language, a search finds a match.
search_complete : (r : Regex) (s m : Str) → Occurs r m s → is_some (search r s) ≡ true
search_complete r s m (before, after, cut, i) =
    rw cut (search_within r before (m ++ after) (match_complete r some m after i refl))
