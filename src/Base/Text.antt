-- ===== src/Base/Text.antt =====
-- Python's `str` as a list of code points, with the methods that the scripts call.
use Prim.Native.Nat.{ℕ, ◌+◌, ◌-◌}
use Prim.Native.Char.{code}
use Prim.Native.String.{String}
use mathlib.Core.Path.{◌≡◌, refl, sym, subst}
use mathlib.Core.Logic.{◌↔◌, inl, inr}
use mathlib.Core.Bool.{Bool, true, false, ◌&&◌, ◌||◌, false≢true}
use mathlib.Core.List.{List, [], ◌∷◌, ◌++◌, reverse}
use native.Mathlib.Omega.{arith}
use ci_workflows.Base.Tests.{leb, ◌==◌, if◌then◌else◌, Bool-cases}
use ci_workflows.Base.Lists.{any, is_nil, All}

abbrev pub Str : Type 0
Str = List ℕ

-- The code points of a literal.
abbrev pub codes : String → Str
codes String.[] = []
codes (String.◌∷◌ c s) = code c ∷ codes s

-- `s == t`
unfoldable pub str_eq : Str → Str → Bool
str_eq [] [] = true
str_eq [] (d ∷ t) = false
str_eq (c ∷ s) [] = false
str_eq (c ∷ s) (d ∷ t) = (c == d) && str_eq s t

pub str_eq→eq : (s t : Str) → str_eq s t ≡ true → s ≡ t
unfolding str_eq
str_eq→eq [] [] h = refl
str_eq→eq [] (d ∷ t) h = cc
str_eq→eq (c ∷ s) [] h = cc
str_eq→eq (c ∷ s) (d ∷ t) h = ground (arith, str_eq→eq s t)

pub str_eq_self : (s : Str) → str_eq s s ≡ true
unfolding str_eq
str_eq_self [] = refl
str_eq_self (c ∷ s) = ground (arith, str_eq_self s)

pub str_eq_iff : (s t : Str) → (str_eq s t ≡ true) ↔ (s ≡ t)
str_eq_iff s t = (str_eq→eq s t, λ e. ground (arith, str_eq_self s, e))

-- `s in xs`, for a list, a tuple or a set of strings
unfoldable pub elem : Str → List Str → Bool
unfolding any
elem s = any (str_eq s)

-- `str.isspace`
unfoldable pub is_space : ℕ → Bool
is_space c =
    (leb 9 c && leb c 13)
    || ((leb 28 c && leb c 32)
        || (c == 0x85
            || (c == 0xa0
                || (c == 0x1680
                    || ((leb 0x2000 c && leb c 0x200a)
                        || (c == 0x2028
                            || (c == 0x2029 || (c == 0x202f || (c == 0x205f || c == 0x3000)))))))))

unfoldable pub lstrip_by : (ℕ → Bool) → Str → Str
lstrip_by p [] = []
lstrip_by p (c ∷ s) = let rest = lstrip_by p s in if p c then rest else c ∷ s

unfoldable pub rstrip_by : (ℕ → Bool) → Str → Str
rstrip_by p [] = []
rstrip_by p (c ∷ s) = let rest = rstrip_by p s in if p c && is_nil rest then [] else c ∷ rest

-- `s.strip()`
unfoldable pub strip : Str → Str
unfolding lstrip_by rstrip_by is_space
strip s = rstrip_by is_space (lstrip_by is_space s)

-- `s.rstrip("x")` for one character
unfoldable pub rstrip_char : ℕ → Str → Str
unfolding rstrip_by
rstrip_char x = rstrip_by (λ c. c == x)

-- `s.startswith(prefix)`, the prefix first
unfoldable pub starts_with : Str → Str → Bool
starts_with [] s = true
starts_with (p ∷ ps) [] = false
starts_with (p ∷ ps) (c ∷ s) = (p == c) && starts_with ps s

-- `s.endswith(suffix)`, the suffix first
unfoldable pub ends_with : Str → Str → Bool
unfolding starts_with
ends_with suffix s = starts_with (reverse suffix) (reverse s)

-- `needle in s`
unfoldable pub has_sub : Str → Str → Bool
unfolding starts_with
has_sub needle [] = is_nil needle
has_sub needle (c ∷ s) = starts_with needle (c ∷ s) || has_sub needle s

abbrev pub grow_head : ℕ → List Str → List Str
grow_head c [] = (c ∷ []) ∷ []
grow_head c (p ∷ ps) = (c ∷ p) ∷ ps

-- `s.split("x")` for a separator of one character: never empty
unfoldable pub split_on : ℕ → Str → List Str
split_on sep [] = [] ∷ []
split_on sep (c ∷ s) = let rest = split_on sep s in if c == sep then [] ∷ rest else grow_head c rest

-- The pieces of a split at the characters that satisfy `p`, empty ones dropped.
unfoldable pub pieces : (ℕ → Bool) → Str → List Str
pieces p [] = [] ∷ []
pieces p (c ∷ s) = let rest = pieces p s in if p c then [] ∷ rest else grow_head c rest

unfoldable pub drop_empty : List Str → List Str
drop_empty [] = []
drop_empty (w ∷ ws) = let rest = drop_empty ws in if is_nil w then rest else w ∷ rest

-- `s.split()`
unfoldable pub words : Str → List Str
unfolding pieces drop_empty is_space
words s = drop_empty (pieces is_space s)

-- The line boundaries of `str.splitlines`.
is_line_end : ℕ → Bool
is_line_end c =
    (leb 10 c && leb c 13)
    || ((leb 28 c && leb c 30) || (c == 0x85 || (c == 0x2028 || c == 0x2029)))

-- `\r\n` is one boundary, so the `\n` behind an `\r` is dropped.
unify_ends : Bool → Str → Str
unify_ends after_cr [] = []
unify_ends after_cr (c ∷ s) =
    let rest = unify_ends (c == 13) s in if after_cr && (c == 10) then rest else c ∷ rest

drop_last_empty : List Str → List Str
drop_last_empty [] = []
drop_last_empty (l ∷ []) = if is_nil l then [] else l ∷ []
drop_last_empty (l ∷ m ∷ ls) = l ∷ drop_last_empty (m ∷ ls)

-- `s.splitlines()`
unfoldable pub splitlines : Str → List Str
unfolding pieces is_line_end unify_ends drop_last_empty
splitlines s = drop_last_empty (pieces is_line_end (unify_ends false s))

-- `str.lower`, as far as the result is compared with ASCII text: the only other character whose
-- lower case is one ASCII letter is the Kelvin sign.
unfoldable pub lower_char : ℕ → ℕ
lower_char c = if leb 65 c && leb c 90 then c + 32 else if c == 0x212a then 107 else c

unfoldable pub lower : Str → Str
unfolding lower_char
lower [] = []
lower (c ∷ s) = lower_char c ∷ lower s

-- `str.upper`, as far as the result is compared with words of ASCII letters without a double letter.
abbrev pub upper_char : ℕ → ℕ
upper_char c =
    if leb 97 c && leb c 122
    then c - 32
    else if c == 0x131
    then 73
    else if c == 0x17f
    then 83
    else c

abbrev pub upper : Str → Str
upper [] = []
upper (c ∷ s) = upper_char c ∷ upper s

pub str_eq_sym : (s t : Str) → str_eq s t ≡ str_eq t s
str_eq_sym s t = ground (arith, str_eq_iff s t, str_eq_iff t s)

pub split_on-ne : (sep : ℕ) (s : Str) → split_on sep s ≡ [] → ⊥
unfolding split_on
split_on-ne sep [] h = cc
split_on-ne sep (c ∷ s) h = ground (arith, split_on-ne sep s)

-- What holds of every member holds of a string that is in the list.
pub All-elem {κ} : (P : Str → Type κ) (s : Str) (xs : List Str) → All P xs → elem s xs ≡ true → P s
unfolding elem
All-elem P s [] h m = elim (false≢true m) [ ]
All-elem P s (x ∷ xs) (h, hs) m = elim (Bool-cases (str_eq s x)) [
  | inl same ↦ subst P (sym (str_eq→eq s x same)) h
  | inr other ↦ All-elem P s xs hs (ground (arith, other))
]

-- A text that starts with a prefix is the prefix and a rest.
pub starts_with-append : (p s : Str) → starts_with p s ≡ true → (t : Str) × (s ≡ p ++ t)
unfolding starts_with
starts_with-append [] s h = (s, refl)
starts_with-append (c ∷ p) [] h = cc
starts_with-append (c ∷ p) (d ∷ s) h =
    let (t, e) = starts_with-append p s (ground arith) in (t, ground (arith, e))

pub elem-append : (s : Str) (xs ys : List Str) → elem s (xs ++ ys) ≡ (elem s xs || elem s ys)
unfolding elem any
elem-append s [] ys = refl
elem-append s (x ∷ xs) ys = ground (arith, elem-append s xs ys)
