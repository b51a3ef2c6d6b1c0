-- ===== src/Glob/Laws.antt =====
-- What a glob matches, by the shape of its items.
use ci_workflows.Base.{
  ℕ, Bool, true, List, [], ◌∷◌, ◌++◌, ◌≡◌, ◌↔◌, inl, inr, refl, arith, any, ap, Bool-cases,
}
use ci_workflows.Base.Text.{Str}
use ci_workflows.Glob.{
  Item, char, any_char, star, set, item_matches, suffixes, match_item, match_items, items, fnmatch,
}

-- A star stands for any text, every other item for one character that it admits.
abbrev pub Matches : List Item → Str → Type 0
Matches [] s = s ≡ []
Matches (star ∷ g) s = (t : Str) × (u : Str) × (s ≡ t ++ u) × Matches g u
Matches (char d ∷ g) s = (c : ℕ) × (u : Str) × (s ≡ c ∷ u) × (c ≡ d) × Matches g u
Matches (any_char ∷ g) s = (c : ℕ) × (u : Str) × (s ≡ c ∷ u) × Matches g u
Matches (set neg rs ∷ g) s =
    (c : ℕ) × (u : Str) × (s ≡ c ∷ u) × (item_matches (set neg rs) c ≡ true) × Matches g u

any-suffixes_sound :
    (p : Str → Bool) (s : Str)
    → any p (suffixes s) ≡ true
    → (t : Str) × (u : Str) × (s ≡ t ++ u) × (p u ≡ true)
unfolding any suffixes
any-suffixes_sound p [] h = ([], [], refl, ground arith)
any-suffixes_sound p (c ∷ s) h = elim (Bool-cases (p (c ∷ s))) [
  | inl here ↦ ([], c ∷ s, refl, here)
  | inr later ↦
      let (t, u, e, q) = any-suffixes_sound p s (ground arith) in (c ∷ t, u, ap (λ r. c ∷ r) e, q)
]

any-suffixes_complete : (p : Str → Bool) (t u : Str) → p u ≡ true → any p (suffixes (t ++ u)) ≡ true
unfolding any suffixes
any-suffixes_complete p [] [] h = ground arith
any-suffixes_complete p [] (c ∷ u) h = ground arith
any-suffixes_complete p (c ∷ t) u h =
    ground (arith, any-suffixes_complete p t u h, Bool-cases (p (c ∷ (t ++ u))))

pub match_items-Matches : (g : List Item) (s : Str) → match_items g s ≡ true → Matches g s
unfolding match_items match_item item_matches
match_items-Matches [] [] h = refl
match_items-Matches [] (c ∷ s) h = cc
match_items-Matches (star ∷ g) s h =
    let (t, u, e, q) = any-suffixes_sound (match_items g) s h in
    (t, u, e, match_items-Matches g u q)
match_items-Matches (char d ∷ g) [] h = cc
match_items-Matches (any_char ∷ g) [] h = cc
match_items-Matches (set neg rs ∷ g) [] h = cc
match_items-Matches (char d ∷ g) (c ∷ s) h =
    (c, s, refl, ground arith, match_items-Matches g s (ground arith))
match_items-Matches (any_char ∷ g) (c ∷ s) h = (c, s, refl, match_items-Matches g s (ground arith))
match_items-Matches (set neg rs ∷ g) (c ∷ s) h =
    (c, s, refl, ground arith, match_items-Matches g s (ground arith))

pub Matches-match_items : (g : List Item) (s : Str) → Matches g s → match_items g s ≡ true
unfolding match_items match_item item_matches
Matches-match_items [] s h = rw h refl
Matches-match_items (star ∷ g) s (t, u, e, m) =
    rw e (any-suffixes_complete (match_items g) t u (Matches-match_items g u m))
Matches-match_items (char d ∷ g) s (c, u, e, same, m) =
    rw e (ground (arith, Matches-match_items g u m))
Matches-match_items (any_char ∷ g) s (c, u, e, m) = rw e (ground (arith, Matches-match_items g u m))
Matches-match_items (set neg rs ∷ g) s (c, u, e, q, m) =
    rw e (ground (arith, Matches-match_items g u m))

-- The matcher decides the match of a whole path with a pattern's items: a star stands for any text,
-- also one with a `/` in it, and each other item for one character.
fnmatch_iff : (s pattern : Str) → (fnmatch s pattern ≡ true) ↔ Matches (items pattern) s
unfolding fnmatch
fnmatch_iff s pattern =
    (match_items-Matches (items pattern) s, Matches-match_items (items pattern) s)
