-- ===== src/PinOnly/PinLines.antt =====
-- `is_pin_line` of scripts/pin-only-diff.py: what it refuses, and what it lets through.
use ci_workflows.Base.{
  ℕ, Bool, true, false, ◌||◌, [], ◌∷◌, ◌++◌, ◌≡◌, ◌≢◌, inl, inr, refl, arith, any, all, All, is_nil,
  Bool-cases, if◌then◌else◌, ◌∙◌,
}
use ci_workflows.Base.Text.{
  Str, codes, All-elem, str_eq, elem, starts_with, has_sub, is_space, rstrip_char,
}
use ci_workflows.Base.Words.{IsWord, Behind, strip-word, first_word}
use ci_workflows.PinOnly.{non_pin_directives, is_pin_line}

-- What `is_pin_line` sees of a line: its stripped text and the first word of that.
judge : Str → Str → Bool
judge text first =
    if is_nil text || starts_with (codes "//") text
    then false
    else if elem text (codes "require (" ∷ codes ")" ∷ codes "require (" ∷ [])
    then true
    else if elem first non_pin_directives
    then false
    else if str_eq first (codes "require")
    then true
    else has_sub (codes ".") first || has_sub (codes "/") first

is_pin_line-judge :
    (w s : Str)
    → IsWord w
    → Behind s
    → (t : Str) × Behind t × (is_pin_line (w ++ s) ≡ judge (w ++ t) (rstrip_char b'(' w))
unfolding is_pin_line judge
is_pin_line-judge w s h b =
    let (t, bt, e) = strip-word w s h b in
    let (rest, e') = first_word w t h bt in (t, bt, ground (arith, e, e'))

abbrev Refused : Str → Type 0
Refused d = IsWord d × ((t : Str) → judge (d ++ t) (rstrip_char b'(' d) ≡ false)

directives-Refused : All Refused non_pin_directives
unfolding all is_space judge rstrip_char elem any str_eq starts_with
directives-Refused = (
  ((refl, refl), λ t. refl),
  (
    ((refl, refl), λ t. refl),
    (
      ((refl, refl), λ t. refl),
      (((refl, refl), λ t. refl), (((refl, refl), λ t. refl), (((refl, refl), λ t. refl), tt))),
    ),
  ),
)

-- A line that begins with a directive other than `require`, with white space or nothing behind it,
-- is no pin, whatever follows.
is_pin_line-directive :
    (d s : Str) → elem d non_pin_directives ≡ true → Behind s → is_pin_line (d ++ s) ≡ false
is_pin_line-directive d s h b =
    let (word, refused) = All-elem Refused d non_pin_directives directives-Refused h in
    let (t, bt, e) = is_pin_line-judge d s word b in e ∙ refused t

directives-no_dot : All (λ d. has_sub (codes ".") d ≡ false) non_pin_directives
unfolding has_sub
directives-no_dot = (refl, (refl, (refl, (refl, (refl, (refl, tt))))))

judge-dotted :
    (c : ℕ) (w t : Str)
    → c ≢ b'/'
    → has_sub (codes ".") (c ∷ w) ≡ true
    → judge (c ∷ (w ++ t)) (c ∷ w) ≡ true
unfolding judge starts_with
judge-dotted c w t slash dot = elim (Bool-cases (elem (c ∷ w) non_pin_directives)) [
  | inl d ↦ cc (All-elem (λ d. has_sub (codes ".") d ≡ false) (c ∷ w) _ directives-no_dot d)
  | inr e ↦ ground arith
]

-- A line that begins with a word that has a dot, does not begin with a slash and does not end with
-- an opening parenthesis, as a module path does, is taken for a pin, whatever follows: also `old => new`, as it stands in a `replace` block, and a line of
-- an `exclude` block. The directive stands on a line of its own there, which need not change.
pub is_pin_line-block :
    (c : ℕ) (w s : Str)
    → IsWord (c ∷ w)
    → Behind s
    → c ≢ b'/'
    → rstrip_char b'(' (c ∷ w) ≡ c ∷ w
    → has_sub (codes ".") (c ∷ w) ≡ true
    → is_pin_line (c ∷ (w ++ s)) ≡ true
is_pin_line-block c w s h b slash bare dot =
    let (t, bt, e) = is_pin_line-judge (c ∷ w) s h b in e ∙ rw bare (judge-dotted c w t slash dot)
