-- ===== src/Hub/Matches.antt =====
-- `Hub.glob` of scripts/hub_layout.py: a compat link and its target are one repository.
use ci_workflows.Base.{
  ℕ, Bool, true, false, ◌||◌, some, List, [], ◌∷◌, ◌≡◌, refl, sym, ◌∙◌, ap, arith, any, all, times,
  times-append, if◌then◌else◌, inl, inr, Bool-cases,
}
use ci_workflows.Base.Text.{Str, str_eq_iff}
use ci_workflows.Base.Sorting.{sort_by, any-sort_by, times-sort_by}
use ci_workflows.Hub.{FilePath, FileSystem, Hub, path_eq, elem_path, parts_key, owners}
use ci_workflows.Hub.Find.{
  Seen, add_hit, add_hits, glob_base, glob_bases, logical_key, is_inside, glob,
}

path_eq→eq : (p q : FilePath) → path_eq p q ≡ true → p ≡ q
unfolding path_eq
path_eq→eq [] [] h = refl
path_eq→eq [] (d ∷ q) h = cc
path_eq→eq (c ∷ p) [] h = cc
path_eq→eq (c ∷ p) (d ∷ q) h = ground (arith, str_eq_iff c d, path_eq→eq p q)

abbrev one_if : Bool → ℕ
one_if b = if b then 1 else 0

module _ (F : FileSystem) (r : FilePath) where
  -- A path whose real path is `r`.
  abbrev pub is_at : FilePath → Bool
  is_at path = path_eq r (F.real path)

  abbrev IsOnce : Seen → Type 0
  IsOnce s = times is_at s.hits ≡ one_if (elem_path r s.seen)

  add_hit-seen :
      (path : FilePath) (s : Seen)
      → elem_path r (add_hit F path s).seen ≡ (elem_path r s.seen || is_at path)
  unfolding add_hit elem_path any
  add_hit-seen path s = elim (Bool-cases (elem_path (F.real path) s.seen)) [
    | inr e ↦ ground (arith, e)
    | inl e ↦ elim (Bool-cases (is_at path)) [
      | inr n ↦ ground (arith, e, n)
      | inl t ↦
          let same : r ≡ F.real path = path_eq→eq r (F.real path) t in
          let known : elem_path r s.seen ≡ true = rw same e in ground arith
    ]
  ]

  add_hit-IsOnce : (path : FilePath) (s : Seen) → IsOnce s → IsOnce (add_hit F path s)
  unfolding add_hit elem_path any times
  add_hit-IsOnce path s h = elim (Bool-cases (elem_path (F.real path) s.seen)) [
    | inl e ↦ ground (arith, e)
    | inr e ↦ elim (Bool-cases (is_at path)) [
      | inr n ↦ ground (arith, e, n, times-append is_at s.hits (path ∷ []))
      | inl t ↦
          let same : r ≡ F.real path = path_eq→eq r (F.real path) t in
          let known : elem_path r s.seen ≡ false = rw same e in
          ground (arith, times-append is_at s.hits (path ∷ []))
    ]
  ]

  abbrev Sums : Seen → Seen → Bool → Type 0
  Sums before after found =
      IsOnce after × (elem_path r after.seen ≡ (elem_path r before.seen || found))

  add_hits-Sums :
      (paths : List FilePath) (s : Seen) → IsOnce s → Sums s (add_hits F paths s) (any is_at paths)
  unfolding add_hits any
  add_hits-Sums [] s h = (h, ground arith)
  add_hits-Sums (path ∷ paths) s h =
      let (once, seen) = add_hits-Sums paths (add_hit F path s) (add_hit-IsOnce path s h) in
      (once, ground (arith, seen, add_hit-seen path s))

  module _ (include_hidden : Bool) (pattern : Str) where
    -- Whether some match below a folder is that path.
    abbrev pub is_match : FilePath → Bool
    is_match base = any is_at (F.matches include_hidden base pattern)

    any-glob_base :
        (base : FilePath) → any is_at (glob_base F include_hidden pattern base) ≡ is_match base
    unfolding glob_base
    any-glob_base base = any-sort_by parts_key is_at (F.matches include_hidden base pattern)

    glob_bases-Sums :
        (bases : List FilePath) (s : Seen)
        → IsOnce s
        → Sums s (glob_bases F include_hidden pattern bases s) (any is_match bases)
    unfolding glob_bases any
    glob_bases-Sums [] s h = (h, ground arith)
    glob_bases-Sums (base ∷ bases) s h =
        let found = glob_base F include_hidden pattern base in
        let (first, seen) = add_hits-Sums found s h in
        let (once, seen') = glob_bases-Sums bases (add_hits F found s) first in
        (once, ground (arith, seen, seen', any-glob_base base))

    -- A repository is found once, in whichever layout it lives: a real path is the real path of
    -- exactly one hit where the root or an owner folder has a match there, and of none elsewhere.
    pub glob_once :
        (H : Hub) (paths : List FilePath)
        → glob F H include_hidden pattern ≡ some paths
        → times is_at paths ≡ (if any is_match (H.root ∷ owners F H) then 1 else 0)
    unfolding glob elem_path any times
    glob_once H paths h =
        let start : Seen = record { seen = []; hits = [] } in
        let s = glob_bases F include_hidden pattern (H.root ∷ owners F H) start in
        let (once, seen) = glob_bases-Sums (H.root ∷ owners F H) start refl in
        elim (Bool-cases (all (is_inside F H) s.hits)) [
          | inr e ↦ ground (arith, e)
          | inl e ↦
              let same : sort_by (logical_key F H) s.hits ≡ paths = ground (arith, e) in
              rw (sym same) (times-sort_by (logical_key F H) is_at s.hits ∙ (once ∙ ap one_if seen))
        ]
