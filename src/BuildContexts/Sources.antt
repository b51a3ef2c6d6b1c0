-- ===== src/BuildContexts/Sources.antt =====
-- The references behind `--from=` in scripts/base-image-build-contexts.py: of COPY and ADD, and of the
-- mounts of RUN.
use ci_workflows.Base.{
  ℕ, zero, suc, ◌-◌, Bool, not, ◌&&◌, ◌||◌, none, some, List, [], ◌∷◌, ◌++◌, ◌==◌, leb,
  if◌then◌else◌, is_nil, all, length,
}
use ci_workflows.Base.Text.{Str, codes, is_space, lstrip_by, rstrip_by, split_on}
use ci_workflows.Base.Scan.{drop_prefix}
use ci_workflows.BuildContexts.{span}

-- `re.findall(r"FLAG(\S+)", rest)`, from a place on
unfoldable pub flag_values : Str → ℕ → Str → List Str
unfolding span drop_prefix is_space
flag_values flag skip [] = []
flag_values flag (suc skip) (c ∷ s) = flag_values flag skip s
flag_values flag zero (c ∷ s) = elim (drop_prefix flag (c ∷ s)) [
  | none ↦ flag_values flag zero s
  | some behind ↦
      let (value, rest) = span (λ d. not (is_space d)) behind in
      if is_nil value
      then flag_values flag zero s
      else value ∷ flag_values flag (length s - length rest) s
]

-- `from=VALUE` among the options of a mount
unfoldable pub mount_sources : List Str → List Str
unfolding drop_prefix
mount_sources [] = []
mount_sources (opt ∷ opts) =
    let rest = mount_sources opts in
    elim (drop_prefix (codes "from=") opt) [
      | none ↦ rest
      | some [] ↦ rest
      | some (c ∷ v) ↦ (c ∷ v) ∷ rest
    ]

unfoldable pub all_mounts : List Str → List Str
unfolding mount_sources split_on
all_mounts [] = []
all_mounts (mount ∷ mounts) = mount_sources (split_on b',' mount) ++ all_mounts mounts

-- `src.strip("\"'")`
abbrev pub is_quote : ℕ → Bool
is_quote c = (c == 34) || (c == 39)

unfoldable pub without_quotes : Str → Str
unfolding lstrip_by rstrip_by
without_quotes s = rstrip_by is_quote (lstrip_by is_quote s)

abbrev pub is_number : Str → Bool
is_number s = not (is_nil s) && all (λ c. leb 48 c && leb c 57) s
