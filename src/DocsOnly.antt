-- ===== src/DocsOnly.antt =====
-- scripts/docs-only-diff.py: whether a change is documentation and nothing else.
pub mod Documentation
pub mod Verdict
use ci_workflows.Base.{
  ℕ, Bool, true, false, not, ◌&&◌, ◌||◌, Option, none, some, List, [], ◌∷◌, ◌++◌, ◌==◌, reverse,
  if◌then◌else◌, is_nil, any, filter, init, last_or, take, length, leb, ltb,
}
use ci_workflows.Base.Text.{
  Str, codes, str_eq, elem, strip, starts_with, rstrip_char, split_on, lower,
}
use ci_workflows.Base.Sorting.{sorted}
use ci_workflows.Git.{Git, Action}
use ci_workflows.Event.{Payload, load_event}
use ci_workflows.DiffRange.{Reason, resolve_range, changed_paths}
use ci_workflows.Glob.{fnmatch}
use ci_workflows.EmbedPatterns.{GoFile, embed_patterns}
use ci_workflows.Gate.{Args, Outcome, cannot_run, emitted, emit}

abbrev pub doc_suffixes : List Str
doc_suffixes = codes ".md" ∷ codes ".markdown" ∷ []

abbrev pub doc_image_suffixes : List Str
doc_image_suffixes =
    codes ".png" ∷ codes ".jpg" ∷ codes ".jpeg" ∷ codes ".gif" ∷ codes ".svg" ∷ codes ".webp" ∷ []

abbrev pub doc_image_roots : List Str
doc_image_roots = codes "docs/" ∷ []

abbrev pub doc_exact_names : List Str
doc_exact_names =
    codes "LICENSE"
    ∷ codes "LICENCE"
    ∷ codes "NOTICE"
    ∷ codes "AUTHORS"
    ∷ codes "CONTRIBUTORS"
    ∷ codes "CHANGELOG"
    ∷ codes "CONTRIBUTING"
    ∷ codes "CODE_OF_CONDUCT"
    ∷ []

abbrev pub deny_dir_names : List Str
deny_dir_names = codes "testdata" ∷ []

-- `Path(name).suffix` for a name without a slash: from the last dot on, unless the name begins or
-- ends with that dot.
before_dot : Str → Str × Str
before_dot [] = ([], [])
before_dot (c ∷ s) =
    let (ext, stem) = before_dot s in if c == b'.' then ([], c ∷ s) else (c ∷ ext, stem)

dotted : Str → Str → Str
dotted ext [] = []
dotted ext (dot ∷ stem) = if is_nil ext || is_nil stem then [] else b'.' ∷ reverse ext

unfoldable pub suffix : Str → Str
unfolding before_dot dotted
suffix name = let (ext, stem) = before_dot (reverse name) in dotted ext stem

-- One pass of the loop of `is_embedded`.
unfoldable pub embeds : Str → Str → Bool
embeds path pat =
    elem pat (codes "." ∷ [] ∷ [])
    || ((str_eq path pat || starts_with (rstrip_char b'/' pat ++ codes "/") path)
        || (fnmatch path pat || fnmatch path (rstrip_char b'/' pat ++ codes "/*")))

unfoldable pub is_embedded : Str → List Str → Bool
is_embedded path = any (embeds path)

-- A directory that makes a path code, whatever its name.
unfoldable pub denied_dir : Str → Bool
denied_dir part = starts_with (codes ".") part || elem part deny_dir_names

unfoldable pub is_documentation : Str → List Str → Bool
is_documentation path patterns =
    let p = strip path in
    let parts = split_on b'/' p in
    let name = last_or [] parts in
    let ext = lower (suffix name) in
    if is_nil p || (starts_with (codes "/") p || elem (codes "..") parts)
    then false
    else if any denied_dir (init parts)
    then false
    else if starts_with (codes ".") name
    then false
    else if elem ext doc_suffixes
    then not (is_embedded p patterns)
    else if elem ext doc_image_suffixes && any (λ root. starts_with root p) doc_image_roots
    then not (is_embedded p patterns)
    else if is_nil ext && elem name doc_exact_names
    then not (is_embedded p patterns)
    else false

unfoldable pub classify : List Str → List Str → Bool × List Str
classify paths patterns =
    let code = sorted (filter (λ p. not (is_documentation p patterns)) paths) in
    if is_nil paths then (false, []) else (is_nil code, code)

-- The reason that is printed.
pub data Detail : Type 0 where
  not_a_repository no_event_name : Detail
  no_range unreadable_diff : Reason → Detail
  -- the sorted paths
  all_documentation : Reason → List Str → Detail
  -- how many of how many, the first twenty, and whether there are more
  some_code : Reason → ℕ → ℕ → List Str → Bool → Detail

-- The payload's file, and the scripts' own checkout, the root and the `*.go` files below it.
module _ (G : Git) (read : Str → Payload) (own_root root : List Str)
    (go_files : G.Clone → List GoFile) where
  -- `main` from the classification on
  unfoldable pub decide_paths : Option Str → Reason → List Str → G.Clone → Outcome Detail
  decide_paths github_output reason paths s =
      let (docs_only, code) = classify paths (embed_patterns own_root root (go_files s)) in
      emitted (
        emit (codes "docs_only") github_output docs_only (
          if docs_only
          then all_documentation reason (sorted paths)
          else some_code reason (length code) (length paths) (take 20 code)
              (ltb (length (take 20 code)) (length code))))

  unfoldable pub decide_range : Option Str → Reason → Str → Str → Action G (Outcome Detail)
  decide_range github_output reason base head s =
      let (paths, s') = changed_paths G base head s in
      elim paths [
        | none ↦
            (emitted (emit (codes "docs_only") github_output false (unreadable_diff reason)), s')
        | some ps ↦ (decide_paths github_output reason ps s', s')
      ]

  unfoldable pub main : Args → Action G (Outcome Detail)
  main args s =
      let say = λ (why : Detail). emitted (emit (codes "docs_only") args.github_output false why) in
      if not args.repo_is_dir
      then (cannot_run, s)
      else let (git_dir, s₁) = G.run (codes "rev-parse" ∷ codes "--git-dir" ∷ []) s in
        if not (git_dir.code == 0)
        then (say not_a_repository, s₁)
        else if is_nil args.event_name
        then (say no_event_name, s₁)
        else let event = load_event read args.event_path in
          let (r, s₂) = resolve_range G args.event_name event args.head_sha s₁ in
          elim r.base [
            | none ↦ (say (no_range r.reason), s₂)
            | some base ↦ (elim r.head [
              | none ↦ (say (no_range r.reason), s₂)
              | some head ↦ decide_range args.github_output r.reason base head s₂
            ])
          ]
