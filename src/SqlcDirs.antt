-- ===== src/SqlcDirs.antt =====
-- scripts/sqlc_output_dirs.py: the directories that sqlc writes. The config file is a parameter, as
-- read.
pub mod Once
use ci_workflows.Base.{
  Bool, true, false, ◌||◌, Option, none, some, List, [], ◌∷◌, ◌++◌, if◌then◌else◌, is_nil,
}
use ci_workflows.Base.Text.{Str, elem}

-- An entry of `sql`: `gen.go.out` of the second version, and `out` of the first.
pub data Package : Type 0 where
  not_mapping : Package
  entry : Option Str → Option Str → Package

abbrev pub or_blank : Option Str → Str
or_blank none = []
or_blank (some s) = s

-- The directory of an entry, empty where it has none: an empty text counts as none.
abbrev pub out_of : Package → Str
out_of not_mapping = []
out_of (entry none v1) = or_blank v1
out_of (entry (some []) v1) = or_blank v1
out_of (entry (some (c ∷ s)) v1) = c ∷ s

unfoldable pub add_dir : Str → List Str → List Str
unfolding elem
add_dir out seen = if is_nil out || elem out seen then seen else seen ++ out ∷ []

-- The loop of `output_dirs`.
unfoldable pub collect : List Str → List Package → List Str
unfolding add_dir
collect seen [] = seen
collect seen (pkg ∷ pkgs) = collect (add_dir (out_of pkg) seen) pkgs

unfoldable pub output_dirs : List Package → List Str
unfolding collect
output_dirs pkgs = collect [] pkgs

-- `sqlc.yaml`, or else `sqlc.yml`: what is printed, and nothing without either.
abbrev pub main : Option (List Package) → Option (List Package) → List Str
main (some yaml) yml = output_dirs yaml
main none (some yml) = output_dirs yml
main none none = []
