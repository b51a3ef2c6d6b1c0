-- ===== src/Base/Words.antt =====
-- The first word of a text that begins with a word, behind `strip` and `split`.
use mathlib.Core.Path.{◌≡◌, refl}
use mathlib.Core.Logic.{inl, inr}
use mathlib.Core.Bool.{Bool, true, false, not}
use mathlib.Core.List.{List, [], ◌∷◌, ◌++◌, append-nil}
use native.Mathlib.Omega.{arith}
use ci_workflows.Base.Tests.{Bool-cases}
use ci_workflows.Base.Lists.{all, is_nil}
use ci_workflows.Base.Text.{Str, is_space, lstrip_by, rstrip_by, strip, pieces, drop_empty, words}

abbrev pub no_space : Str → Bool
no_space = all (λ c. not (is_space c))

-- A word: not empty, and without white space.
abbrev pub IsWord : Str → Type 0
IsWord w = (is_nil w ≡ false) × (no_space w ≡ true)

-- Nothing, or white space first.
abbrev pub Behind : Str → Type 0
Behind [] = Unit
Behind (c ∷ s) = is_space c ≡ true

lstrip-word : (w s : Str) → IsWord w → lstrip_by is_space (w ++ s) ≡ w ++ s
unfolding lstrip_by all
lstrip-word [] s h = cc
lstrip-word (c ∷ w) s h = ground arith

rstrip-append :
    (w s : Str)
    → is_nil (rstrip_by is_space s) ≡ true
    → no_space w ≡ true
    → rstrip_by is_space (w ++ s) ≡ w
unfolding rstrip_by all
rstrip-append [] s e h = ground arith
rstrip-append (c ∷ w) s e h = ground (arith, rstrip-append w s)

is_nil-append : (w s : Str) → is_nil s ≡ false → is_nil (w ++ s) ≡ false
is_nil-append [] s e = e
is_nil-append (c ∷ w) s e = refl

rstrip-append_text :
    (w s : Str)
    → is_nil (rstrip_by is_space s) ≡ false
    → rstrip_by is_space (w ++ s) ≡ w ++ rstrip_by is_space s
unfolding rstrip_by
rstrip-append_text [] s e = refl
rstrip-append_text (c ∷ w) s e =
    ground (arith, rstrip-append_text w s e, is_nil-append w (rstrip_by is_space s) e)

pieces-word :
    (w s : Str)
    → no_space w ≡ true
    → Behind s
    → (rest : List Str) × (pieces is_space (w ++ s) ≡ w ∷ rest)
unfolding pieces all
pieces-word [] [] h b = ([], refl)
pieces-word [] (c ∷ s) h b = (pieces is_space s, rw b refl)
pieces-word (c ∷ w) s h b =
    let (rest, e) = pieces-word w s (ground arith) b in (rest, ground (arith, e))

pub first_word : (w s : Str) → IsWord w → Behind s → (rest : List Str) × (words (w ++ s) ≡ w ∷ rest)
unfolding words
first_word w s h b = let (rest, e) = pieces-word w s h.1 b in (drop_empty rest, ground (arith, e))

rstrip-Behind : (s : Str) → Behind s → Behind (rstrip_by is_space s)
unfolding rstrip_by
rstrip-Behind [] h = tt
rstrip-Behind (c ∷ s) h = elim (Bool-cases (is_nil (rstrip_by is_space s))) [
  | inl e ↦ rw (h, e) tt
  | inr e ↦ rw (h, e) h
]

-- `strip` leaves a text that begins with a word: the word, and what is behind it.
pub strip-word :
    (w s : Str) → IsWord w → Behind s → (t : Str) × Behind t × (strip (w ++ s) ≡ w ++ t)
unfolding strip
strip-word w s h b = elim (Bool-cases (is_nil (rstrip_by is_space s))) [
  | inl e ↦ ([], tt, ground (arith, lstrip-word w s h, rstrip-append w s e h.1, append-nil w))
  | inr e ↦ (
    rstrip_by is_space s,
    rstrip-Behind s b,
    ground (arith, lstrip-word w s h, rstrip-append_text w s e),
  )
]
