-- ===== src/BuildContexts/Fuel.antt =====
-- `expand` of scripts/base-image-build-contexts.py ends: the length of the word is enough fuel.
use ci_workflows.Base.{
  ℕ, zero, suc, ◌+◌, ◌-◌, ◌≤◌, ◌<◌, Bool, true, false, ◌&&◌, Option, none, some, [], ◌∷◌, ◌++◌,
  ◌==◌, leb, ◌≡◌, refl, arith, is_nil, length, Bool-cases, Option-cases, inl, inr, subst,
}
use ci_workflows.Base.Text.{Str}
use ci_workflows.ModulePins.{Dict}
use ci_workflows.BuildContexts.{
  Arg, Expanded, out_of_fuel, unresolved, ok, ◌>>=◌, span, take_name, put_before, closing_brace,
  value_of, Operator, no_operator, default_to, alternative, operator, counts, apply, append,
  or_nothing, substitute, expand, expand_word, continues_name,
}

abbrev pub is_done : {A : Type 0} → Expanded A → Bool
is_done out_of_fuel = false
is_done unresolved = true
is_done (ok a) = true

length-append : (a b : Str) → length (a ++ b) ≡ length a + length b
length-append [] b = omega arith
length-append (c ∷ a) b = omega (arith, length-append a b)

span-length : (p : ℕ → Bool) (s : Str) → length (span p s).1 ≤ length s
unfolding span
span-length p [] = omega arith
span-length p (c ∷ s) = ground (arith, span-length p s)

take_name-length : (s : Str) → length (take_name s).1 ≤ length s
unfolding take_name
take_name-length [] = omega arith
take_name-length (c ∷ s) = ground (arith, span-length continues_name (c ∷ s))

abbrev Shorter : ℕ → Option (Str × Str) → Type 0
Shorter n none = Unit
Shorter n (some (a, b)) = length a + length b < n

Shorter-put_before :
    (m n : ℕ) (p : Str) (o : Option (Str × Str))
    → length p + m ≤ n
    → Shorter m o
    → Shorter n (put_before p o)
Shorter-put_before m n p none l h = tt
Shorter-put_before m n p (some (a, b)) l h = omega (arith, length-append p a)

-- Both parts around the closing brace are shorter than the text.
closing_brace-Shorter : (depth : ℕ) (s : Str) → Shorter (length s) (closing_brace depth s)
unfolding closing_brace
closing_brace-Shorter depth [] = tt
closing_brace-Shorter depth (c ∷ []) = elim (Bool-cases ((c == 125) && leb depth 1)) [
  | inl e ↦ rw e (omega arith)
  | inr e ↦ rw e tt
]
closing_brace-Shorter depth (c ∷ d ∷ s) = elim (Bool-cases (c == 92)) [
  | inl e ↦ rw e (
      Shorter-put_before (length s) (suc (suc (length s))) (c ∷ d ∷ []) (closing_brace depth s)
        (omega arith) (closing_brace-Shorter depth s))
  | inr e ↦ elim (Bool-cases ((c == 36) && (d == 123))) [
    | inl f ↦
        rw (e, f)
          (Shorter-put_before (length s) (suc (suc (length s))) (c ∷ d ∷ [])
            (closing_brace (suc depth) s) (omega arith) (closing_brace-Shorter (suc depth) s))
    | inr f ↦ elim (Bool-cases (c == 125)) [
      | inr g ↦
          rw (e, f, g)
            (Shorter-put_before (suc (length s)) (suc (suc (length s))) (c ∷ [])
              (closing_brace depth (d ∷ s)) (omega arith) (closing_brace-Shorter depth (d ∷ s)))
      | inl g ↦ elim (Bool-cases (leb depth 1)) [
        | inl k ↦ rw (e, f, g, k) (omega arith)
        | inr k ↦
            rw (e, f, g, k)
              (Shorter-put_before (suc (length s)) (suc (suc (length s))) (c ∷ [])
                (closing_brace (depth - 1) (d ∷ s)) (omega arith)
                (closing_brace-Shorter (depth - 1) (d ∷ s)))
      ]
    ]
  ]
]

operand_size : Operator → ℕ
operand_size no_operator = 0
operand_size (default_to e operand) = length operand
operand_size (alternative e operand) = length operand

operator-size : (s : Str) (op : Operator) → operator s ≡ some op → operand_size op ≤ length s
unfolding operator operand_size
operator-size [] op h = ground arith
operator-size (c ∷ []) op h = ground arith
operator-size (c ∷ d ∷ s) op h = ground arith

value_of-is_done : (name : Str) (args : Dict Arg) → is_done (value_of name args) ≡ true
unfolding value_of
value_of-is_done name args = ground arith

append-is_done : (a : Str) (e : Expanded Str) → is_done e ≡ true → is_done (append a e) ≡ true
append-is_done a out_of_fuel h = h
append-is_done a unresolved h = refl
append-is_done a (ok b) h = refl

bind-is_done :
    {A B : Type 0} (e : Expanded A) (f : A → Expanded B)
    → is_done e ≡ true
    → ((a : A) → is_done (f a) ≡ true)
    → is_done (e >>= f) ≡ true
bind-is_done out_of_fuel f h k = h
bind-is_done unresolved f h k = refl
bind-is_done (ok a) f h k = k a

apply-is_done :
    (f : Str → Expanded Str) (value : Option Str) (op : Operator) (n : ℕ)
    → operand_size op ≤ n
    → ((operand : Str) → length operand ≤ n → is_done (f operand) ≡ true)
    → is_done (apply f value op) ≡ true
unfolding operand_size
apply-is_done f value no_operator n l h = refl
apply-is_done f value (default_to e operand) n l h = elim (Bool-cases (counts e value)) [
  | inl t ↦ rw t refl
  | inr t ↦ rw t (h operand l)
]
apply-is_done f value (alternative e operand) n l h = elim (Bool-cases (counts e value)) [
  | inl t ↦ rw t (h operand l)
  | inr t ↦ rw t refl
]

substitute-is_done :
    (f : Str → Expanded Str) (args : Dict Arg) (inner : Str)
    → ((operand : Str) → length operand ≤ length inner → is_done (f operand) ≡ true)
    → is_done (substitute f args inner) ≡ true
unfolding substitute
substitute-is_done f args inner h =
    let name = (take_name inner).0 in
    let rest = (take_name inner).1 in
    elim (Bool-cases (is_nil name)) [
      | inl e ↦ rw (e, substitute) refl
      | inr e ↦ elim (Option-cases (operator rest)) [
        | inl o ↦ rw (e, o, substitute) refl
        | inr (op, o) ↦
            rw (e, o, substitute)
              (bind-is_done (value_of name args) (λ value. apply f value op)
                (value_of-is_done name args)
                (λ value.
                  apply-is_done f value op (length inner)
                    (omega (arith, operator-size rest op o, take_name-length inner)) h))
      ]
    ]

-- Expansion ends: with at least as much fuel as the word has characters, it never runs out.
expand-is_done :
    (fuel : ℕ) (args : Dict Arg) (word : Str)
    → length word ≤ fuel
    → is_done (expand fuel args word) ≡ true
unfolding expand
expand-is_done fuel args [] l = refl
expand-is_done zero args (c ∷ s) l = absurd (omega arith)
expand-is_done (suc fuel) args (c ∷ []) l = refl
expand-is_done (suc fuel) args (c ∷ d ∷ s) l =
    let next = expand-is_done fuel args (d ∷ s) (omega arith) in
    let behind = expand-is_done fuel args s (omega arith) in
    elim (Bool-cases ((c == 92) && (d == 36))) [
      | inl e ↦ rw e (append-is_done (36 ∷ []) (expand fuel args s) behind)
      | inr e ↦ elim (Bool-cases (c == 36)) [
        | inr f ↦ rw (e, f) (append-is_done (c ∷ []) (expand fuel args (d ∷ s)) next)
        | inl f ↦ elim (Bool-cases (d == 123)) [
          | inl g ↦ elim (Option-cases (closing_brace 1 s)) [
            | inl o ↦ rw (e, f, g, o) refl
            | inr ((inner, rest), o) ↦
                let short : length inner + length rest < length s =
                  subst (Shorter (length s)) o (closing_brace-Shorter 1 s) in
                rw (e, f, g, o)
                  (bind-is_done (substitute (λ operand. expand fuel args operand) args inner)
                    (λ v. append v (expand fuel args rest))
                    (substitute-is_done (λ operand. expand fuel args operand) args inner
                      (λ operand k. expand-is_done fuel args operand (omega arith)))
                    (λ v.
                      append-is_done v (expand fuel args rest)
                        (expand-is_done fuel args rest (omega arith))))
          ]
          | inr g ↦
              let name = (take_name (d ∷ s)).0 in
              let rest = (take_name (d ∷ s)).1 in
              elim (Bool-cases (is_nil name)) [
                | inl m ↦ rw (e, f, g, m) (append-is_done (c ∷ []) (expand fuel args (d ∷ s)) next)
                | inr m ↦
                    rw (e, f, g, m)
                      (bind-is_done (value_of name args)
                        (λ value. append (or_nothing value) (expand fuel args rest))
                        (value_of-is_done name args)
                        (λ value. append-is_done (or_nothing value) (expand fuel args rest) (
                          expand-is_done fuel args rest (omega (arith, take_name-length (d ∷ s))))))
              ]
        ]
      ]
    ]

-- The expansion of a word ends, whatever stands in its braces: it gives a text, or it says that the
-- word cannot be resolved, and the fuel, the length of the word, is enough.
pub expand_word-is_done : (args : Dict Arg) (word : Str) → is_done (expand_word args word) ≡ true
expand_word-is_done args word = expand-is_done (length word) args word (omega arith)
