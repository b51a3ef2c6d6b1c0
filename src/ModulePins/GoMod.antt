-- ===== src/ModulePins/GoMod.antt =====
-- `parse_go_mod` of scripts/check_module_pins.py: where its results come from.
use ci_workflows.Base.{
  Bool, true, false, not, ◌&&◌, ◌||◌, some, List, [], ◌∷◌, ◌++◌, if◌then◌else◌, is_nil, any, ◌≡◌,
  ◌⊎◌, inl, refl, arith, length, leb,
}
use ci_workflows.Base.Text.{
  Str, codes, str_eq, str_eq_iff, elem, strip, starts_with, starts_with-append, has_sub, words,
  splitlines,
}
use ci_workflows.ModulePins.{
  Dict, lookup, insert, Block, outside, in_require, in_replace, Parsed, before_comment,
  replace_module, on_directive, drop_first, on_entry, on_line, parse_lines, parse_go_mod,
}

pub lookup-insert :
    {A : Type 0} (k j : Str) (v : A) (d : Dict A)
    → lookup k (insert j v d) ≡ (if str_eq j k then some v else lookup k d)
unfolding lookup insert
lookup-insert k j v [] = refl
lookup-insert k j v ((i, w) ∷ d) =
    ground (arith, lookup-insert k j v d, str_eq_iff i j, str_eq_iff i k, str_eq_iff j k)

-- The words begin with the module and the version.
abbrev pub begins_with_pin : Str → Str → List Str → Bool
begins_with_pin m v (a ∷ b ∷ ws) = str_eq a m && str_eq b v
begins_with_pin m v _ = false

abbrev pub content : Str → Str
content raw = strip (before_comment raw)

-- A line that is not marked `// indirect`, with the module and the version as its first two words,
-- or behind its first word.
abbrev pub pins_directly : Str → Str → Str → Bool
pins_directly m v raw =
    not (has_sub (codes "// indirect") raw)
    && (begins_with_pin m v (words (content raw))
        || begins_with_pin m v (drop_first (words (content raw))))

module _ (m v : Str) where
  on_directive-requires :
      (indirect : Bool) (block : Block) (ws : List Str) (p : Parsed)
      → lookup m (on_directive indirect block ws p).requires ≡ some v
      → (lookup m p.requires ≡ some v) ⊎ ((not indirect && begins_with_pin m v ws) ≡ true)
  on_directive-requires indirect in_require (a ∷ b ∷ ws) p h =
      ground (arith, lookup-insert m a b p.requires, str_eq_iff b v)
  on_directive-requires indirect in_require (a ∷ []) p h = inl h
  on_directive-requires indirect in_require [] p h = inl h
  on_directive-requires indirect in_replace (a ∷ ws) p h = inl h
  on_directive-requires indirect in_replace [] p h = inl h
  on_directive-requires indirect outside ws p h = inl h

  on_entry-requires :
      (indirect : Bool) (block : Block) (line : Str) (p : Parsed)
      → lookup m (on_entry indirect block line p).requires ≡ some v
      → (lookup m p.requires ≡ some v)
        ⊎ ((not indirect
              && (begins_with_pin m v (words line)
                  || begins_with_pin m v (drop_first (words line))))
            ≡ true)
  unfolding on_entry
  on_entry-requires indirect block line p h = ground (
    arith,
    on_directive-requires indirect in_require (drop_first (words line)) p,
    on_directive-requires indirect in_replace (drop_first (words line)) p,
    on_directive-requires indirect block (words line) p,
  )

  on_line-requires :
      (raw : Str) (block : Block) (p : Parsed)
      → lookup m (on_line raw (block, p)).1.requires ≡ some v
      → (lookup m p.requires ≡ some v) ⊎ (pins_directly m v raw ≡ true)
  unfolding on_line
  on_line-requires raw block p h =
      ground (arith, on_entry-requires (has_sub (codes "// indirect") raw) block (content raw) p)

  parse_lines-requires :
      (lines : List Str) (block : Block) (p : Parsed)
      → lookup m (parse_lines lines (block, p)).requires ≡ some v
      → (lookup m p.requires ≡ some v) ⊎ (any (pins_directly m v) lines ≡ true)
  unfolding parse_lines any
  parse_lines-requires [] block p h = inl h
  parse_lines-requires (raw ∷ lines) block p h =
      let (b, q) = on_line raw (block, p) in
      ground (arith, parse_lines-requires lines b q h, on_line-requires raw block p)

-- Every requirement that is read stands on a line of go.mod that is not marked as indirect, as the
-- line's first two words or as the two words behind its first.
parse_go_mod-requires :
    (text m v : Str)
    → lookup m (parse_go_mod text).requires ≡ some v
    → any (pins_directly m v) (splitlines text) ≡ true
unfolding parse_go_mod lookup
parse_go_mod-requires text m v h = ground (
  arith,
  parse_lines-requires m v (splitlines text) outside (record { requires = []; replaced = [] }) h,
)

abbrev pub is_second : Str → List Str → Bool
is_second n (w ∷ x ∷ ws) = str_eq n x
is_second n _ = false

-- A line `replace MODULE ...` that opens no block.
abbrev pub replaces : Str → Str → Bool
replaces m raw =
    starts_with (codes "replace ") (content raw)
    && (not (starts_with (codes "replace (") (content raw)) && is_second m (words (content raw)))

elem-snoc : (m x : Str) (xs : List Str) → elem m (xs ++ x ∷ []) ≡ (elem m xs || str_eq m x)
unfolding elem any
elem-snoc m x [] = ground arith
elem-snoc m x (y ∷ xs) = ground (arith, elem-snoc m x xs)

-- What begins with `replace ` is not empty, no `require`, and closes or opens no other block.
replace_start :
    (line : Str)
    → starts_with (codes "replace ") line ≡ true
    → (is_nil line ≡ false)
      × (starts_with (codes "require ") line ≡ false)
      × (starts_with (codes "require (") line ≡ false)
      × (str_eq line (codes "require(") ≡ false)
      × (str_eq line (codes "replace(") ≡ false)
      × (str_eq line (codes ")") ≡ false)
unfolding starts_with str_eq
replace_start line h =
    let (t, e) = starts_with-append (codes "replace ") line h in
    rw e (refl, refl, refl, refl, refl, refl)

module _ (m : Str) where
  replace_module-elem :
      (x : Str) (p : Parsed)
      → elem m (replace_module x p).replaced ≡ (elem m p.replaced || str_eq m x)
  replace_module-elem x p = ground (arith, elem-snoc m x p.replaced, str_eq_iff m x)

  on_directive-keeps :
      (indirect : Bool) (block : Block) (ws : List Str) (p : Parsed)
      → elem m p.replaced ≡ true
      → elem m (on_directive indirect block ws p).replaced ≡ true
  on_directive-keeps indirect in_require (a ∷ b ∷ ws) p h = ground arith
  on_directive-keeps indirect in_require (a ∷ []) p h = h
  on_directive-keeps indirect in_require [] p h = h
  on_directive-keeps indirect in_replace (a ∷ ws) p h = ground (arith, replace_module-elem a p)
  on_directive-keeps indirect in_replace [] p h = h
  on_directive-keeps indirect outside ws p h = h

  on_line-keeps :
      (raw : Str) (block : Block) (p : Parsed)
      → elem m p.replaced ≡ true
      → elem m (on_line raw (block, p)).1.replaced ≡ true
  unfolding on_line on_entry
  on_line-keeps raw block p h =
      let i = has_sub (codes "// indirect") raw in
      let ws = words (content raw) in
      ground (
        arith,
        on_directive-keeps i in_require (drop_first ws) p h,
        on_directive-keeps i in_replace (drop_first ws) p h,
        on_directive-keeps i block ws p h,
      )

  parse_lines-keeps :
      (lines : List Str) (block : Block) (p : Parsed)
      → elem m p.replaced ≡ true
      → elem m (parse_lines lines (block, p)).replaced ≡ true
  unfolding parse_lines
  parse_lines-keeps [] block p h = h
  parse_lines-keeps (raw ∷ lines) block p h =
      let (b, q) = on_line raw (block, p) in
      parse_lines-keeps lines b q (on_line-keeps raw block p h)

  on_directive-second :
      (indirect : Bool) (ws : List Str) (p : Parsed)
      → is_second m ws ≡ true
      → (elem m (on_directive indirect in_replace (drop_first ws) p).replaced ≡ true)
        × (leb 2 (length ws) ≡ true)
  on_directive-second indirect (w ∷ x ∷ ws) p h =
      (ground (arith, replace_module-elem x p), ground arith)
  on_directive-second indirect (w ∷ []) p h = cc
  on_directive-second indirect [] p h = cc

  on_line-replaces :
      (raw : Str) (block : Block) (p : Parsed)
      → replaces m raw ≡ true
      → elem m (on_line raw (block, p)).1.replaced ≡ true
  unfolding on_line on_entry
  on_line-replaces raw block p h =
      let i = has_sub (codes "// indirect") raw in
      let ws = words (content raw) in
      ground (arith, replace_start (content raw), on_directive-second i ws p)

  parse_lines-replaces :
      (lines : List Str) (block : Block) (p : Parsed)
      → any (replaces m) lines ≡ true
      → elem m (parse_lines lines (block, p)).replaced ≡ true
  unfolding parse_lines any
  parse_lines-replaces [] block p h = cc
  parse_lines-replaces (raw ∷ lines) block p h =
      let (b, q) = on_line raw (block, p) in
      ground (
        arith,
        parse_lines-replaces lines b q,
        parse_lines-keeps lines b q,
        on_line-replaces raw block p,
      )

-- No replacement on a line of its own is missed, wherever it stands and whatever follows.
parse_go_mod-replaces :
    (text m : Str)
    → any (replaces m) (splitlines text) ≡ true
    → elem m (parse_go_mod text).replaced ≡ true
unfolding parse_go_mod
parse_go_mod-replaces text m h = parse_lines-replaces m (splitlines text) outside _ h
