-- ===== src/SqlcDirs/Once.antt =====
-- What `output_dirs` of scripts/sqlc_output_dirs.py prints.
use ci_workflows.Base.{
  ℕ, Bool, false, ◌||◌, List, [], ◌∷◌, ◌≡◌, refl, sym, ap, ◌∙◌, arith, if◌then◌else◌, is_nil, any,
  times, times-append, Bool-cases, inl, inr,
}
use ci_workflows.Base.Text.{Str, str_eq, str_eq_iff, elem, elem-append}
use ci_workflows.SqlcDirs.{Package, out_of, add_dir, collect, output_dirs}

-- Whether an entry writes a directory.
abbrev pub writes : Str → Package → Bool
writes dir pkg = str_eq dir (out_of pkg)

abbrev pub count : Bool → ℕ
count b = if b then 1 else 0

abbrev pub is_dir : Str → Str → Bool
is_dir dir out = str_eq dir out

module _ (dir : Str) (n : is_nil dir ≡ false) where
  add_dir-elem :
      (out : Str) (seen : List Str)
      → elem dir (add_dir out seen) ≡ (elem dir seen || str_eq dir out)
  unfolding add_dir elem
  add_dir-elem out seen = elim (Bool-cases (str_eq dir out)) [
    | inr f ↦ ground (arith, f, elem-append dir seen (out ∷ []))
    | inl t ↦
        let same : dir ≡ out = (str_eq_iff dir out).0 t in
        let full : is_nil out ≡ false = ap is_nil (sym same) ∙ n in
        let known : elem dir seen ≡ elem out seen = ap (λ d. elem d seen) same in
        ground (arith, t, full, known, elem-append dir seen (out ∷ []))
  ]

  add_dir-once :
      (out : Str) (seen : List Str)
      → times (is_dir dir) seen ≡ count (elem dir seen)
      → times (is_dir dir) (add_dir out seen) ≡ count (elem dir (add_dir out seen))
  unfolding add_dir elem times
  add_dir-once out seen h = elim (Bool-cases (str_eq dir out)) [
    | inr f ↦
        ground
          (arith, f, elem-append dir seen (out ∷ []), times-append (is_dir dir) seen (out ∷ []))
    | inl t ↦
        let same : dir ≡ out = (str_eq_iff dir out).0 t in
        let full : is_nil out ≡ false = ap is_nil (sym same) ∙ n in
        let known : elem dir seen ≡ elem out seen = ap (λ d. elem d seen) same in
        ground (
          arith,
          t,
          full,
          known,
          elem-append dir seen (out ∷ []),
          times-append (is_dir dir) seen (out ∷ []),
        )
  ]

  collect_once :
      (seen : List Str) (pkgs : List Package)
      → times (is_dir dir) seen ≡ count (elem dir seen)
      → times (is_dir dir) (collect seen pkgs) ≡ count (elem dir seen || any (writes dir) pkgs)
  unfolding collect any
  collect_once seen [] h = ground (arith, h)
  collect_once seen (pkg ∷ pkgs) h =
      let rest = collect_once (add_dir (out_of pkg) seen) pkgs (add_dir-once (out_of pkg) seen h) in
      ground (arith, rest, add_dir-elem (out_of pkg) seen)

-- A directory is printed once where some entry of the config writes it, and not at all elsewhere.
output_dirs_once :
    (dir : Str) (pkgs : List Package)
    → is_nil dir ≡ false
    → times (is_dir dir) (output_dirs pkgs) ≡ count (any (writes dir) pkgs)
unfolding output_dirs elem times
output_dirs_once dir pkgs n = collect_once dir n [] pkgs refl
