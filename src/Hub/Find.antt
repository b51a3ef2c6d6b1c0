-- ===== src/Hub/Find.antt =====
-- `Hub.glob` and `Hub.rglob` of scripts/hub_layout.py: the matches in every layout, each once.
use ci_workflows.Base.{
  Bool, true, false, not, Option, none, some, List, [], ◌∷◌, ◌++◌, if◌then◌else◌, all,
}
use ci_workflows.Base.Text.{Str}
use ci_workflows.Base.Sorting.{sort_by}
use ci_workflows.Hub.{FilePath, FileSystem, Hub, elem_path, parts_key, owners, spellings, logical}

-- What the loops collect: the real paths that were seen, and the hits.
pub record Seen : Type 0 where
  pub seen : List FilePath
  pub hits : List FilePath

module _ (F : FileSystem) where
  unfoldable pub add_hit : FilePath → Seen → Seen
  unfolding elem_path
  add_hit path s =
      if elem_path (F.real path) s.seen
      then s
      else record { seen = F.real path ∷ s.seen; hits = s.hits ++ path ∷ [] }

  unfoldable pub add_hits : List FilePath → Seen → Seen
  unfolding add_hit
  add_hits [] s = s
  add_hits (path ∷ paths) s = add_hits paths (add_hit path s)

  unfoldable pub glob_base : Bool → Str → FilePath → List FilePath
  unfolding sort_by
  glob_base include_hidden pattern base = sort_by parts_key (F.matches include_hidden base pattern)

  -- The loop over `[self.root, *self.owners]`.
  unfoldable pub glob_bases : Bool → Str → List FilePath → Seen → Seen
  unfolding add_hits glob_base
  glob_bases include_hidden pattern [] s = s
  glob_bases include_hidden pattern (base ∷ bases) s =
      glob_bases include_hidden pattern bases (add_hits (glob_base include_hidden pattern base) s)

  unfoldable pub logical_key : Hub → FilePath → Str
  unfolding logical parts_key
  logical_key H path = elim (logical F H path) [ none ↦ [] | some parts ↦ parts_key parts ]

  abbrev pub is_inside : Hub → FilePath → Bool
  is_inside H path = elim (logical F H path) [ none ↦ false | some parts ↦ true ]

  -- `logical` raises where a match does not lie under the root.
  unfoldable pub glob : Hub → Bool → Str → Option (List FilePath)
  unfolding glob_bases owners all sort_by logical_key
  glob H include_hidden pattern =
      let s =
        glob_bases include_hidden pattern (H.root ∷ owners F H) (record { seen = []; hits = [] }) in
      if all (is_inside H) s.hits then some (sort_by (logical_key H) s.hits) else none

  -- The loops of `rglob`, with the real paths of the bases.
  unfoldable pub walk_bases : Str → List FilePath → List FilePath × Seen → List FilePath × Seen
  unfolding add_hits elem_path
  walk_bases pattern [] (bases, s) = (bases, s)
  walk_bases pattern (base ∷ more) (bases, s) = walk_bases pattern more (
      if not (F.is_dir base)
      then (bases, s)
      else if elem_path (F.real base) bases
      then (bases, s)
      else (F.real base ∷ bases, add_hits (F.walk base pattern) s))

  unfoldable pub walk_categories :
      Hub → List Str → Str → List FilePath × Seen → List FilePath × Seen
  unfolding walk_bases spellings
  walk_categories H [] pattern s = s
  walk_categories H (category ∷ more) pattern s =
      walk_categories H more pattern (walk_bases pattern (spellings F H (category ∷ [])) s)

  unfoldable pub rglob : Hub → List Str → Str → List FilePath
  unfolding walk_categories
  rglob H names pattern =
      let (bases, s) = walk_categories H names pattern ([], record { seen = []; hits = [] }) in
      s.hits
