-- ===== src/EmbedPatterns.antt =====
-- `embed_patterns` of scripts/docs-only-diff.py, and `excluded_roots` of scripts/diffrange.py: the
-- globs that `//go:embed` directives name. The walk of the file system is a parameter: the `*.go`
-- files below the root, in the order in which `rglob` yields them.
use ci_workflows.Base.{
  Bool, true, false, ◌&&◌, ◌||◌, not, Option, none, some, List, [], ◌∷◌, ◌++◌, ◌==◌, if◌then◌else◌,
  is_nil, any, init, last_or,
}
use ci_workflows.Base.Text.{
  Str, codes, str_eq, elem, starts_with, has_sub, is_space, lstrip_by, rstrip_by, words, splitlines,
}
use ci_workflows.Shlex
use ci_workflows.PosixPath

-- The parts of the path below the root, and the text, if it can be read.
pub record GoFile : Type 0 where
  pub parts : List Str
  pub text : Option Str

-- `path in other.parents`, for absolute paths given by their parts
unfoldable pub is_parent : List Str → List Str → Bool
is_parent path [] = false
is_parent [] (q ∷ other) = true
is_parent (p ∷ path) (q ∷ other) = str_eq p q && is_parent path other

unfoldable pub same_path : List Str → List Str → Bool
same_path [] [] = true
same_path [] (q ∷ other) = false
same_path (p ∷ path) [] = false
same_path (p ∷ path) (q ∷ other) = str_eq p q && same_path path other

-- The scripts' own checkout, where it lies below the root.
unfoldable pub excluded_roots : List Str → List Str → List (List Str)
excluded_roots repo_root root =
    if same_path root repo_root || is_parent repo_root root
    then []
    else if is_parent root repo_root
    then repo_root ∷ []
    else []

-- The group of `^\s*//go:embed\s+(.+?)\s*$` on a line. Where only white space follows, the regular
-- expression needs two characters of it, and the group is the last one.
directive_tail : Str → Option Str
directive_tail [] = none
directive_tail (c ∷ s) =
    let body = rstrip_by is_space (lstrip_by is_space s) in
    if not (is_space c)
    then none
    else if is_nil body
    then (if is_nil s then none else some (last_or c s ∷ []))
    else some body

-- The text behind a prefix.
unfoldable pub strip_prefix : Str → Str → Option Str
strip_prefix [] s = some s
strip_prefix (p ∷ ps) [] = none
strip_prefix (p ∷ ps) (c ∷ s) = let rest = strip_prefix ps s in if p == c then rest else none

unfoldable pub embed_directive : Str → Option Str
unfolding directive_tail strip_prefix
embed_directive line = elim (strip_prefix (codes "//go:embed") (lstrip_by is_space line)) [
  | none ↦ none
  | some rest ↦ directive_tail rest
]

-- `shlex.split`, and a plain split where it raises
unfoldable pub directive_tokens : Str → List Str
directive_tokens body = elim (Shlex.split body) [ none ↦ words body | some ts ↦ ts ]

after_colon : Str → Option Str
after_colon [] = none
after_colon (c ∷ s) = let rest = after_colon s in if c == b':' then some s else rest

-- `token.split(":", 1)[-1].lstrip("-")`
unfoldable pub unqualified : Str → Str
unfolding after_colon
unqualified token =
    lstrip_by (λ c. c == b'-') (elim (after_colon token) [ none ↦ token | some rest ↦ rest ])

-- `str(go_file.parent.relative_to(root))`
unfoldable pub package_dir : List Str → Str
package_dir parts =
    let dirs = init parts in if is_nil dirs then codes "." else PosixPath.join_slash dirs

-- `os.path.normpath(os.path.join(pkg_dir, token)).lstrip("./")`
unfoldable pub token_pattern : Str → Str → Str
token_pattern pkg_dir token =
    lstrip_by (λ c. (c == b'.') || (c == b'/')) (PosixPath.normpath (PosixPath.join pkg_dir token))

unfoldable pub token_patterns : Str → List Str → List Str
unfolding unqualified token_pattern
token_patterns pkg_dir [] = []
token_patterns pkg_dir (token ∷ tokens) =
    let rest = token_patterns pkg_dir tokens in
    let name = unqualified token in if is_nil name then rest else token_pattern pkg_dir name ∷ rest

unfoldable pub line_patterns : Str → List Str → List Str
unfolding embed_directive directive_tokens token_patterns
line_patterns pkg_dir [] = []
line_patterns pkg_dir (line ∷ lines) =
    elim (embed_directive line) [
      | none ↦ []
      | some body ↦ token_patterns pkg_dir (directive_tokens body)
    ]
    ++ line_patterns pkg_dir lines

-- Directories that the walk passes over.
skipped_dir : Str → Bool
skipped_dir part =
    starts_with (codes ".") part || elem part (codes "vendor" ∷ codes "node_modules" ∷ [])

unfoldable pub is_skipped : List Str → List (List Str) → GoFile → Bool
unfolding skipped_dir
is_skipped root excluded file =
    let path = root ++ file.parts in
    any skipped_dir (init file.parts) || any (λ ex. same_path path ex || is_parent ex path) excluded

-- A file that cannot be read names no pattern.
unfoldable pub text_patterns : GoFile → List Str
unfolding package_dir line_patterns
text_patterns file = elim file.text [
  | none ↦ []
  | some text ↦
      if has_sub (codes "go:embed") text
      then line_patterns (package_dir file.parts) (splitlines text)
      else []
]

unfoldable pub file_patterns : List Str → List (List Str) → List GoFile → List Str
unfolding is_skipped text_patterns
file_patterns root excluded [] = []
file_patterns root excluded (file ∷ files) =
    (if is_skipped root excluded file then [] else text_patterns file)
    ++ file_patterns root excluded files

unfoldable pub embed_patterns : List Str → List Str → List GoFile → List Str
unfolding file_patterns
embed_patterns repo_root root = file_patterns root (excluded_roots repo_root root)
