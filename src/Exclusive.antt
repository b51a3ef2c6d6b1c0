-- ===== src/Exclusive.antt =====
-- The two fast paths of scripts/docs-only-diff.py and scripts/pin-only-diff.py side by side.
use ci_workflows.Base.{true, false, ◌≡◌, arith, List, [], ◌∷◌, Bool-cases, inl, inr}
use ci_workflows.Base.Text.{Str, codes}
use ci_workflows.Git.{Git, IsLawful}
use ci_workflows.Event.{Payload, load_event}
use ci_workflows.DiffRange.{resolve_range}
use ci_workflows.EmbedPatterns.{GoFile, embed_patterns}
use ci_workflows.Gate.{Args, says_true}
use ci_workflows.DocsOnly
use ci_workflows.DocsOnly.Verdict.{main-documentation}
use ci_workflows.PinOnly
use ci_workflows.PinOnly.PinFiles.{is_pin_file-is_documentation}
use ci_workflows.PinOnly.Verdict.{main-pins}

module _ (G : Git) (L : IsLawful G) (read : Str → Payload) (own_root root : List Str)
    (go_files : G.Clone → List GoFile) where
  -- Over a git that meets its laws, on the same clone with the same arguments and payload: where the
  -- documentation gate prints `true`, the pin gate does not, so no change is skipped as documentation
  -- and as pins at once.
  pub docs-pins_exclusive :
      (args : Args) (s : G.Clone)
      → says_true (DocsOnly.main G read own_root root go_files args s).0 ≡ true
      → says_true (PinOnly.main G read args s).0 ≡ false
  docs-pins_exclusive args s d = elim (Bool-cases (says_true (PinOnly.main G read args s).0)) [
    | inr no_pin ↦ no_pin
    | inl pin ↦
        let (base, head, eb, eh, docs) =
          main-documentation G L read own_root root go_files args s d in
        let (base', head', eb', eh', range) = main-pins G L read args s pin in
        let p = range.0.0 in
        let s₁ = (G.run (codes "rev-parse" ∷ codes "--git-dir" ∷ []) s).1 in
        let event = load_event read args.event_path in
        let t = (resolve_range G args.event_name event args.head_sha s₁).1 in
        ground (
          arith,
          eb,
          eh,
          eb',
          eh',
          range.0.1,
          docs p,
          (range.1 p range.0.1).0,
          is_pin_file-is_documentation p (embed_patterns own_root root (go_files t)),
        )
  ]
