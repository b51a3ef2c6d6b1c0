-- ===== src/DocsOnly/Documentation.antt =====
-- `is_documentation` of scripts/docs-only-diff.py against a description of documentation paths.
use ci_workflows.Base.{
  Bool, true, false, ◌&&◌, ◌||◌, List, [], ◌∷◌, ◌≡◌, ◌↔◌, refl, arith, is_nil, any, init, last_or,
  any-or, any-init, any_of_any,
}
use ci_workflows.Base.Text.{
  Str, codes, str_eq, str_eq_iff, str_eq_sym, elem, strip, starts_with, split_on, split_on-ne,
  lower,
}
use ci_workflows.DocsOnly.{
  doc_suffixes, doc_image_suffixes, doc_image_roots, doc_exact_names, deny_dir_names, suffix,
  is_embedded, denied_dir, is_documentation,
}

abbrev pub parts : Str → List Str
parts p = split_on b'/' p

abbrev pub base_name : Str → Str
base_name p = last_or [] (parts p)

-- `.github`, `.`, `..`, and every other name that begins with a dot
abbrev pub hidden : Str → Bool
hidden = starts_with (codes ".")

-- Documentation by its kind: markdown, an image below docs/, or a legal file.
abbrev pub is_doc_name : Str → Bool → Bool
is_doc_name name below_docs =
    elem (lower (suffix name)) doc_suffixes
    || ((elem (lower (suffix name)) doc_image_suffixes && below_docs)
        || (is_nil (lower (suffix name)) && elem name doc_exact_names))

abbrev pub is_doc_kind : Str → Bool
is_doc_kind p = is_doc_name (base_name p) (starts_with (codes "docs/") p)

-- A relative path with no hidden part and no `testdata` directory, of a documentation kind, that no
-- pattern embeds into a binary.
pub record IsDocument (patterns : List Str) (p : Str) : Type 0 where
  pub not_empty : is_nil p ≡ false
  pub relative : starts_with (codes "/") p ≡ false
  pub visible : any hidden (parts p) ≡ false
  pub no_fixture : elem (codes "testdata") (init (parts p)) ≡ false
  pub kind : is_doc_kind p ≡ true
  pub not_embedded : is_embedded p patterns ≡ false

any-testdata : (xs : List Str) → any (λ x. elem x deny_dir_names) xs ≡ elem (codes "testdata") xs
unfolding any elem
any-testdata [] = refl
any-testdata (x ∷ xs) = ground (arith, any-testdata xs, str_eq_sym x (codes "testdata"))

any-denied_dir : (xs : List Str) → any denied_dir xs ≡ (any hidden xs || elem (codes "testdata") xs)
unfolding denied_dir
any-denied_dir xs = ground (arith, any-or hidden (λ x. elem x deny_dir_names) xs, any-testdata xs)

dot_dot-hidden : (x : Str) → str_eq (codes "..") x ≡ true → hidden x ≡ true
unfolding starts_with
dot_dot-hidden x h = ground (arith, str_eq_iff (codes "..") x)

-- Where no part is hidden, no part is `..`.
no_dot_dot : (xs : List Str) → any hidden xs ≡ false → elem (codes "..") xs ≡ false
unfolding elem
no_dot_dot xs h = ground (arith, any_of_any (str_eq (codes "..")) hidden xs dot_dot-hidden)

any-parts : (p : Str) → any hidden (parts p) ≡ (any hidden (init (parts p)) || hidden (base_name p))
any-parts p = go (parts p) refl
  where
    go :
        (xs : List Str)
        → parts p ≡ xs
        → any hidden xs ≡ (any hidden (init xs) || hidden (last_or [] xs))
    go [] e = absurd (split_on-ne b'/' p e)
    go (x ∷ xs) e = any-init hidden [] x xs

under_docs :
    (p : Str) → any (λ root. starts_with root p) doc_image_roots ≡ starts_with (codes "docs/") p
unfolding any
under_docs p = ground arith

-- A path is taken for documentation exactly when, without the white space around it, it is of the
-- description above.
pub is_documentation_iff :
    (path : Str) (patterns : List Str)
    → (is_documentation path patterns ≡ true) ↔ IsDocument patterns (strip path)
unfolding is_documentation
is_documentation_iff path patterns =
    let p = strip path in
    (
      λ h. ground (arith, any-denied_dir (init (parts p)), any-parts p, under_docs p),
      λ d.
          ground (
            arith,
            any-denied_dir (init (parts p)),
            any-parts p,
            under_docs p,
            no_dot_dot (parts p),
          ),
    )
