-- ===== src/Glob.antt =====
-- Python's `fnmatch.fnmatch`, which scripts/docs-only-diff.py calls on paths: a pattern is read
-- into items, and an item list is matched against a whole text.
pub mod Laws
use ci_workflows.Base.{
  ℕ, Bool, true, false, not, ◌&&◌, ◌||◌, List, [], ◌∷◌, ◌++◌, ◌==◌, leb, if◌then◌else◌, any, is_nil,
}
use ci_workflows.Base.Text.{Str}

-- A set `[...]` is kept as its ranges, with the mark of `[!...]`.
pub data Item : Type 0 where
  char : ℕ → Item
  any_char : Item
  star : Item
  set : Bool → List (ℕ × ℕ) → Item

-- Where the reader is: outside a set, behind its `[`, behind its `[!`, or within it.
pub data Mode : Type 0 where
  outside opening negated : Mode
  inside : Bool → Str → Mode

skip_end : Str → Str
skip_end [] = []
skip_end (c ∷ s) = if c == b']' then s else c ∷ s

skip_bang : Str → Str
skip_bang [] = []
skip_bang (c ∷ s) = if c == b'!' then s else c ∷ s

-- Whether a set that begins here is closed. A `]` that stands first belongs to the set.
closes : Str → Bool
unfolding skip_end skip_bang
closes s = any (λ c. c == b']') (skip_end (skip_bang s))

-- `x-y` is a range, empty if x is behind y; every other character stands for itself.
unfoldable pub ranges : Str → List (ℕ × ℕ)
ranges [] = []
ranges (x ∷ []) = (x, x) ∷ []
ranges (x ∷ d ∷ []) = (x, x) ∷ ranges (d ∷ [])
ranges (x ∷ d ∷ y ∷ r) =
    let range = ranges r in
    let rest = ranges (d ∷ y ∷ r) in if d == b'-' then (x, y) ∷ range else (x, x) ∷ rest

read_items : Mode → Str → List Item
read_items m [] = []
read_items outside (c ∷ s) =
    let in_set = (c == b'[') && closes s in
    let rest = read_items (if in_set then opening else outside) s in
    if in_set
    then rest
    else if c == b'*'
    then star ∷ rest
    else if c == b'?'
    then any_char ∷ rest
    else char c ∷ rest
read_items opening (c ∷ s) = read_items (if c == b'!' then negated else inside false (c ∷ [])) s
read_items negated (c ∷ s) = read_items (inside true (c ∷ [])) s
read_items (inside neg body) (c ∷ s) =
    let rest = read_items (if c == b']' then outside else inside neg (body ++ c ∷ [])) s in
    if c == b']' then set neg (ranges body) ∷ rest else rest

unfoldable pub items : Str → List Item
unfolding read_items closes ranges any
items = read_items outside

unfoldable pub in_ranges : ℕ → List (ℕ × ℕ) → Bool
in_ranges c [] = false
in_ranges c ((lo, hi) ∷ rs) = (leb lo c && leb c hi) || in_ranges c rs

unfoldable pub item_matches : Item → ℕ → Bool
unfolding in_ranges
item_matches (char d) c = d == c
item_matches any_char c = true
item_matches star c = false
item_matches (set neg rs) c = if neg then not (in_ranges c rs) else in_ranges c rs

unfoldable pub suffixes : Str → List Str
suffixes [] = [] ∷ []
suffixes (c ∷ s) = (c ∷ s) ∷ suffixes s

-- One item, and the match of the items behind it.
unfoldable pub match_item : Item → (Str → Bool) → Str → Bool
match_item star rest s = any rest (suffixes s)
match_item item rest [] = false
match_item item rest (c ∷ s) = item_matches item c && rest s

unfoldable pub match_items : List Item → Str → Bool
unfolding suffixes match_item
match_items [] s = is_nil s
match_items (item ∷ g) s = match_item item (match_items g) s

unfoldable pub fnmatch : Str → Str → Bool
unfolding match_items items
fnmatch s pattern = match_items (items pattern) s
