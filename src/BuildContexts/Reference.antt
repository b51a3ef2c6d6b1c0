-- ===== src/BuildContexts/Reference.antt =====
-- `docker_hub_twin` of scripts/base-image-build-contexts.py: the grammar of an image reference. A
-- reference has no line feed, since it is a word of a line.
use ci_workflows.Base.{
  ℕ, Bool, true, false, ◌&&◌, ◌||◌, Option, none, some, [], ◌∷◌, ◌++◌, ◌==◌, leb, if◌then◌else◌,
  all, length,
}
use ci_workflows.Base.Text.{Str, codes}
use ci_workflows.Base.Scan.{drop_prefix, cut}
use ci_workflows.BuildContexts.{is_letter, is_digit, continues_name}

abbrev pub ecr_library : Str
ecr_library = codes "public.ecr.aws/docker/library/"

abbrev pub docker_hub_library : Str
docker_hub_library = codes "docker.io/library/"

abbrev pub in_name : ℕ → Bool
in_name c = (leb 97 c && leb c 122) || is_digit c

-- Where the matcher of `NAME_RE` stands: a letter is needed, inside a part, or behind a separator that
-- may be longer.
pub data Place : Type 0 where
  need inside underscore dashes : Place

unfoldable pub is_name_from : Place → Str → Bool
is_name_from need [] = false
is_name_from need (c ∷ s) = in_name c && is_name_from inside s
is_name_from inside [] = true
is_name_from inside (c ∷ s) =
    (in_name c && is_name_from inside s)
    || (((c == b'.') && is_name_from need s)
        || (((c == b'_') && is_name_from underscore s) || ((c == b'-') && is_name_from dashes s)))
is_name_from underscore [] = false
is_name_from underscore (c ∷ s) =
    (in_name c && is_name_from inside s) || ((c == b'_') && is_name_from need s)
is_name_from dashes [] = false
is_name_from dashes (c ∷ s) =
    (in_name c && is_name_from inside s) || ((c == b'-') && is_name_from dashes s)

abbrev pub in_tag : ℕ → Bool
in_tag c = continues_name c || (c == b'.' || c == b'-')

-- `TAG_RE`
unfoldable pub is_tag : Str → Bool
unfolding all
is_tag [] = false
is_tag (c ∷ s) = continues_name c && (all in_tag s && leb (length s) 127)

-- The algorithm of a digest: `true` where a letter is needed.
unfoldable pub is_algorithm : Bool → Str → Bool
is_algorithm true [] = false
is_algorithm false [] = true
is_algorithm true (c ∷ s) = is_letter c && is_algorithm false s
is_algorithm false (c ∷ s) =
    ((is_letter c || is_digit c) && is_algorithm false s)
    || ((c == b'-' || (c == b'_' || (c == b'+' || c == b'.'))) && is_algorithm true s)

abbrev pub is_hex : ℕ → Bool
is_hex c = is_digit c || ((leb 97 c && leb c 102) || (leb 65 c && leb c 70))

-- `DIGEST_RE`
unfoldable pub is_digest : Str → Bool
unfolding cut is_algorithm all
is_digest s =
    let (algorithm, hex) = cut b':' s in
    is_algorithm true algorithm
    && (elim hex [ none ↦ false | some h ↦ all is_hex h && leb 32 (length h) ])

-- The groups of `LIBRARY_REF_RE`.
pub record Parts : Type 0 where
  pub name : Str
  pub tag : Option Str
  pub digest : Option Str

abbrev pub holds : (Str → Bool) → Option Str → Bool
holds p none = true
holds p (some s) = p s

unfoldable pub split_reference : Str → Parts
unfolding cut
split_reference s =
    let (left, digest) = cut b'@' s in
    let (name, tag) = cut b':' left in record { name = name; tag = tag; digest = digest }

unfoldable pub is_reference : Parts → Bool
unfolding is_name_from is_tag is_digest
is_reference p = is_name_from need p.name && (holds is_tag p.tag && holds is_digest p.digest)

abbrev pub tag_part : Option Str → Str
tag_part none = []
tag_part (some tag) = b':' ∷ tag

abbrev pub digest_part : Option Str → Str
digest_part none = []
digest_part (some digest) = b'@' ∷ digest

-- The tag of the twin: `latest` where the reference has neither.
abbrev pub twin_tag : Option Str → Option Str → Str
twin_tag none none = codes ":latest"
twin_tag none (some digest) = []
twin_tag (some tag) digest = b':' ∷ tag

abbrev pub twin_of : Parts → Str
twin_of p =
    codes "docker-image://"
    ++ (docker_hub_library ++ (p.name ++ (twin_tag p.tag p.digest ++ digest_part p.digest)))

unfoldable pub docker_hub_twin : Str → Option Str
unfolding drop_prefix split_reference is_reference
docker_hub_twin reference = elim (drop_prefix ecr_library reference) [
  | none ↦ none
  | some rest ↦
      if is_reference (split_reference rest) then some (twin_of (split_reference rest)) else none
]
