-- ===== src/Git.antt =====
-- The `git` program that scripts/diffrange.py calls is a parameter: what a command prints, and what
-- it leaves of the clone. The commands are spelled as the scripts spell them.
use ci_workflows.Base.{ℕ, Bool, true, false, ◌||◌, List, [], ◌∷◌, ◌++◌, ◌≡◌}
use ci_workflows.Base.Text.{Str, codes, str_eq}

-- What `subprocess.run` gives. A process that a signal ended has a negative code there: it is some
-- code other than 0 here, since the scripts only ask whether the code is 0.
pub record Reply : Type 0 where
  pub code : ℕ
  pub out : Str

-- `git -C repo ARGS`, for one clone.
pub record Git : Type 1 where
  pub Clone : Type 0
  pub run : List Str → Clone → Reply × Clone

-- The commands of the scripts, word by word.
abbrev pub cat_file_args : Str → List Str
cat_file_args sha = codes "cat-file" ∷ codes "-e" ∷ (sha ++ codes "^{commit}") ∷ []

abbrev pub fetch_args : List Str → List Str
fetch_args extra = codes "fetch" ∷ codes "--no-tags" ∷ codes "--quiet" ∷ extra

abbrev pub is_ancestor_args : Str → Str → List Str
is_ancestor_args base head = codes "merge-base" ∷ codes "--is-ancestor" ∷ base ∷ head ∷ []

abbrev pub merge_base_args : Str → Str → List Str
merge_base_args base head = codes "merge-base" ∷ base ∷ head ∷ []

abbrev pub diff_names_args : Str → Str → List Str
diff_names_args base head =
    codes "diff" ∷ codes "--no-renames" ∷ codes "--name-only" ∷ codes "-z" ∷ base ∷ head ∷ []

abbrev pub log_names_args : Str → Str → List Str
log_names_args base head =
    codes "log"
    ∷ codes "--no-renames"
    ∷ codes "--format="
    ∷ codes "--name-only"
    ∷ codes "-z"
    ∷ (base ++ codes ".." ++ head)
    ∷ []

-- Actions that run git commands, in a row.
abbrev pub Action : Git → Type 0 → Type 0
Action G A = G.Clone → A × G.Clone

-- The first word of a command that writes nothing to the clone.
unfoldable pub is_query : List Str → Bool
is_query [] = false
is_query (w ∷ ws) =
    str_eq w (codes "cat-file")
    || (str_eq w (codes "merge-base") || (str_eq w (codes "diff") || str_eq w (codes "log")))

-- What the scripts rely on: those commands leave the clone as it is, and a fetch adds objects and
-- removes none.
pub record IsLawful (G : Git) : Type 0 where
  pub query_keeps : (args : List Str) (s : G.Clone) → is_query args ≡ true → (G.run args s).1 ≡ s
  pub fetch_keeps :
      (extra : List Str) (sha : Str) (s : G.Clone)
      → (G.run (cat_file_args sha) s).0.code ≡ 0
      → (G.run (cat_file_args sha) (G.run (fetch_args extra) s).1).0.code ≡ 0
