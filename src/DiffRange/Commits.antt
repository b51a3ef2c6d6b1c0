-- ===== src/DiffRange/Commits.antt =====
-- `commit_exists` and `ensure_commit` of scripts/diffrange.py, over a git that meets its laws.
use ci_workflows.Base.{true, List, [], ◌∷◌, ◌≡◌, refl, arith}
use ci_workflows.Base.Text.{Str, str_eq}
use ci_workflows.Git.{Git, IsLawful, is_query, cat_file_args, fetch_args}
use ci_workflows.DiffRange.{succeeds, succeeds, fetches, commit_exists, deepen, ensure_commit}

module _ (G : Git) where
  -- The clone holds the commit.
  abbrev pub Has : Str → G.Clone → Type 0
  Has sha s = (G.run (cat_file_args sha) s).0.code ≡ 0

  pub commit_exists-Has : (sha : Str) (s : G.Clone) → (commit_exists G sha s).0 ≡ true → Has sha s
  unfolding commit_exists succeeds
  commit_exists-Has sha s h = ground arith

  pub commit_exists-true : (sha : Str) (s : G.Clone) → Has sha s → (commit_exists G sha s).0 ≡ true
  unfolding commit_exists succeeds
  commit_exists-true sha s h = ground arith

module _ (G : Git) (L : IsLawful G) where
  pub commit_exists-keeps : (sha : Str) (s : G.Clone) → (commit_exists G sha s).1 ≡ s
  unfolding commit_exists succeeds is_query str_eq
  commit_exists-keeps sha s = L.query_keeps (cat_file_args sha) s refl

  deepen-Has :
      (sha : Str) (extras : List (List Str)) (s : G.Clone)
      → (deepen G sha extras s).0 ≡ true
      → Has G sha (deepen G sha extras s).1
  unfolding deepen
  deepen-Has sha [] s h = cc
  deepen-Has sha (extra ∷ rest) s h =
      let t = (G.run (fetch_args extra) s).1 in
      ground (
        arith,
        commit_exists-Has G sha t,
        commit_exists-keeps sha t,
        deepen-Has sha rest (commit_exists G sha t).1,
      )

  deepen-keeps_Has :
      (sha other : Str) (extras : List (List Str)) (s : G.Clone)
      → Has G other s
      → Has G other (deepen G sha extras s).1
  unfolding deepen
  deepen-keeps_Has sha other [] s h = h
  deepen-keeps_Has sha other (extra ∷ rest) s h =
      let t = (G.run (fetch_args extra) s).1 in
      ground (
        arith,
        L.fetch_keeps extra other s h,
        commit_exists-keeps sha t,
        deepen-keeps_Has sha other rest (commit_exists G sha t).1,
      )

  pub ensure_commit-Has :
      (sha : Str) (s : G.Clone)
      → (ensure_commit G sha s).0 ≡ true
      → Has G sha (ensure_commit G sha s).1
  unfolding ensure_commit
  ensure_commit-Has sha s h =
      ground (
        arith,
        commit_exists-Has G sha s,
        commit_exists-keeps sha s,
        deepen-Has sha (fetches sha) s,
      )

  pub ensure_commit-keeps_Has :
      (sha other : Str) (s : G.Clone) → Has G other s → Has G other (ensure_commit G sha s).1
  unfolding ensure_commit
  ensure_commit-keeps_Has sha other s h =
      ground (arith, commit_exists-keeps sha s, deepen-keeps_Has sha other (fetches sha) s h)

  pub ensure_commit_present :
      (sha : Str) (s : G.Clone) → Has G sha s → ensure_commit G sha s ≡ (true, s)
  unfolding ensure_commit
  ensure_commit_present sha s h =
      ground (arith, commit_exists-true G sha s h, commit_exists-keeps sha s)
