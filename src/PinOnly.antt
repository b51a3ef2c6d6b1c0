-- ===== src/PinOnly.antt =====
-- scripts/pin-only-diff.py: whether a change is dependency pins and nothing else.
pub mod PinFiles
pub mod PinLines
pub mod Verdict
use ci_workflows.Base.{
  ℕ, Bool, true, false, not, ◌&&◌, ◌||◌, Option, none, some, List, [], ◌∷◌, ◌++◌, ◌==◌,
  if◌then◌else◌, is_nil, any, filter, init, last_or, take, length, ltb,
}
use ci_workflows.Base.Text.{
  Str, codes, str_eq, elem, strip, starts_with, has_sub, rstrip_char, split_on, words, splitlines,
}
use ci_workflows.Base.Sorting.{sorted}
use ci_workflows.Git.{Git, Action}
use ci_workflows.Event.{Payload, load_event}
use ci_workflows.DiffRange.{Reason, resolve_range, changed_paths}
use ci_workflows.PosixPath.{path_name}
use ci_workflows.Gate.{Args, Outcome, cannot_run, emitted, emit}

abbrev pub pin_files : List Str
pin_files = codes "go.mod" ∷ codes "go.sum" ∷ []

abbrev pub non_pin_directives : List Str
non_pin_directives =
    codes "go"
    ∷ codes "toolchain"
    ∷ codes "replace"
    ∷ codes "exclude"
    ∷ codes "retract"
    ∷ codes "module"
    ∷ []

-- A directory whose go.mod is no pin of this module.
unfoldable pub fixture_dir : Str → Bool
fixture_dir part =
    starts_with (codes ".") part
    || elem part (codes "testdata" ∷ codes "vendor" ∷ codes "node_modules" ∷ [])

unfoldable pub is_pin_file : Str → Bool
is_pin_file path =
    let p = strip path in
    let parts = split_on b'/' p in
    if is_nil p || (starts_with (codes "/") p || elem (codes "..") parts)
    then false
    else if any fixture_dir (init parts)
    then false
    else elem (last_or [] parts) pin_files

abbrev pub diff_lines_args : Str → Str → Str → List Str
diff_lines_args base head path =
    codes "diff" ∷ codes "--no-renames" ∷ codes "-U0" ∷ base ∷ head ∷ codes "--" ∷ path ∷ []

-- The lines of a diff that are no content.
abbrev pub diff_markers : List Str
diff_markers =
    codes "+++"
    ∷ codes "---"
    ∷ codes "@@"
    ∷ codes "diff "
    ∷ codes "index "
    ∷ codes "new file"
    ∷ codes "deleted file"
    ∷ codes "similarity "
    ∷ codes "rename "
    ∷ []

-- `line[1:].strip()`
unfoldable pub line_body : Str → Str
line_body [] = []
line_body (c ∷ s) = strip s

unfoldable pub is_content : Str → Bool
is_content line =
    not (any (λ m. starts_with m line) diff_markers)
    && (any (λ m. starts_with m line) (codes "+" ∷ codes "-" ∷ []) && not (is_nil (line_body line)))

unfoldable pub content_lines : List Str → List Str
content_lines [] = []
content_lines (line ∷ lines) =
    let rest = content_lines lines in if is_content line then line_body line ∷ rest else rest

-- `text.split()[0]`, for a text with a word
abbrev pub first_of_words : List Str → Str
first_of_words [] = []
first_of_words (w ∷ ws) = w

unfoldable pub is_pin_line : Str → Bool
is_pin_line line =
    let text = strip line in
    let first = rstrip_char b'(' (first_of_words (words text)) in
    if is_nil text || starts_with (codes "//") text
    then false
    else if elem text (codes "require (" ∷ codes ")" ∷ codes "require (" ∷ [])
    then true
    else if elem first non_pin_directives
    then false
    else if str_eq first (codes "require")
    then true
    else has_sub (codes ".") first || has_sub (codes "/") first

unfoldable pub is_go_mod : Str → Bool
is_go_mod p = str_eq (path_name p) (codes "go.mod")

-- Why a verdict was reached.
pub data Why : Type 0 where
  no_files : Why
  cannot_diff no_changed_lines : Str → Why
  -- the path, and its first four lines that are no pins
  more_than_pins : Str → List Str → Why
  -- how many of how many, the first twenty, and whether there are more
  other_paths : ℕ → ℕ → List Str → Bool → Why
  -- the sorted paths
  all_pins : List Str → Why

-- `go_mod_is_pins_only` on the lines of the diff; nothing where the file passes
unfoldable pub judge_lines : Str → Option (List Str) → Option Why
judge_lines path none = some (cannot_diff path)
judge_lines path (some lines) =
    let offenders = filter (λ l. not (is_pin_line l)) lines in
    if is_nil lines
    then some (no_changed_lines path)
    else if is_nil offenders
    then none
    else some (more_than_pins path (take 4 offenders))

module _ (G : Git) where
  unfoldable pub significant_lines : Str → Str → Str → Action G (Option (List Str))
  significant_lines base head path s =
      let (r, s') = G.run (diff_lines_args base head path) s in
      if not (r.code == 0) then (none, s') else (some (content_lines (splitlines r.out)), s')

  unfoldable pub go_mod_is_pins_only : Str → Str → Str → Action G (Option Why)
  go_mod_is_pins_only base head path s =
      let (lines, s') = significant_lines base head path s in (judge_lines path lines, s')

  -- The loop over the go.mod files, up to the first that does not pass.
  unfoldable pub check_go_mods : Str → Str → List Str → Action G (Option Why)
  check_go_mods base head [] s = (none, s)
  check_go_mods base head (path ∷ paths) s =
      let (why, s') = go_mod_is_pins_only base head path s in
      let rest = check_go_mods base head paths s' in
      elim why [ none ↦ rest | some w ↦ (some w, s') ]

  unfoldable pub classify : Str → Str → List Str → Action G (Bool × Why)
  classify base head paths s =
      let others = sorted (filter (λ p. not (is_pin_file p)) paths) in
      if is_nil paths
      then ((false, no_files), s)
      else if not (is_nil others)
      then (
        (
          false,
          other_paths (length others) (length paths) (take 20 others)
              (ltb (length (take 20 others)) (length others)),
        ),
        s,
      )
      else let (why, s') = check_go_mods base head (sorted (filter is_go_mod paths)) s in
        elim why [ some w ↦ ((false, w), s') | none ↦ ((true, all_pins (sorted paths)), s') ]

-- The reason that is printed.
pub data Detail : Type 0 where
  not_a_repository no_event_name : Detail
  no_range unreadable_diff : Reason → Detail
  judged : Reason → Why → Detail

module _ (G : Git) (read : Str → Payload) where
  -- `main` from the changed paths on
  unfoldable pub decide_range : Option Str → Reason → Str → Str → Action G (Outcome Detail)
  decide_range github_output reason base head s =
      let say =
        λ (v : Bool) (why : Detail). emitted (emit (codes "pin_only") github_output v why) in
      let (paths, s₁) = changed_paths G base head s in
      elim paths [
        | none ↦ (say false (unreadable_diff reason), s₁)
        | some ps ↦
            let (verdict, s₂) = classify G base head ps s₁ in
            (say verdict.0 (judged reason verdict.1), s₂)
      ]

  unfoldable pub main : Args → Action G (Outcome Detail)
  main args s =
      let say = λ (why : Detail). emitted (emit (codes "pin_only") args.github_output false why) in
      if not args.repo_is_dir
      then (cannot_run, s)
      else let (git_dir, s₁) = G.run (codes "rev-parse" ∷ codes "--git-dir" ∷ []) s in
        if not (git_dir.code == 0)
        then (say not_a_repository, s₁)
        else if is_nil args.event_name
        then (say no_event_name, s₁)
        else let event = load_event read args.event_path in
          let (r, s₂) = resolve_range G args.event_name event args.head_sha s₁ in
          elim r.base [
            | none ↦ (say (no_range r.reason), s₂)
            | some base ↦ (elim r.head [
              | none ↦ (say (no_range r.reason), s₂)
              | some head ↦ decide_range args.github_output r.reason base head s₂
            ])
          ]
