-- ===== src/Tests/Dockerfiles.antt =====
-- scripts/base-image-build-contexts.py on a small Dockerfile.
use ci_workflows.BuildContexts.Sources.{flag_values, mount_sources, all_mounts, without_quotes}
use ci_workflows.BuildContexts.Args.{
  double_quoted, single_quoted, arg_value, unquoted, declaration, arg_declarations,
}
use ci_workflows.Base.{Bool, true, none, some, [], ◌∷◌, ◌≡◌, refl, any, all, filter}
use ci_workflows.Base.Text.{
  Str, codes, str_eq, elem, is_space, strip, lstrip_by, rstrip_by, starts_with, ends_with, split_on,
  lower, lower_char, words, pieces, drop_empty, splitlines,
}
use ci_workflows.Base.Sorting.{sort_by, str_leb}
use ci_workflows.Base.Scan.{drop_prefix, cut}
use ci_workflows.ModulePins.{Dict, lookup, insert}
use ci_workflows.BuildContexts.{
  Arg, known, ok, span, take_name, closing_brace, value_of, operator, substitute, expand,
  expand_word,
}
use ci_workflows.BuildContexts.Lines.{
  directive, read_directives, is_noise, rstripped, collect, is_heredoc_instruction, quoted_name,
  heredoc_at, heredocs, behind_terminator, skip_bodies, logical_lines, instructions,
}
use ci_workflows.BuildContexts.Reference.{
  is_name_from, is_tag, is_algorithm, is_digest, split_reference, is_reference, docker_hub_twin,
}
use ci_workflows.BuildContexts.Run.{
  consider, follow, declare, declare_all, stage_after, on_from, on_sources, step, split_instruction,
  run_instructions, platform_args, build_contexts, parse_build_args, main,
}
use ci_workflows.BuildContexts.Fuel.{is_done, expand_word-is_done}

unfoldable docker_open : Bool
unfolding span take_name closing_brace value_of operator substitute expand directive read_directives
    is_noise rstripped collect is_heredoc_instruction quoted_name heredoc_at heredocs
    behind_terminator skip_bodies logical_lines instructions cut is_name_from is_tag is_algorithm
    is_digest split_reference is_reference docker_hub_twin consider follow double_quoted
    single_quoted arg_value unquoted declaration arg_declarations declare declare_all stage_after
    on_from flag_values mount_sources all_mounts without_quotes on_sources step split_instruction
    run_instructions platform_args build_contexts parse_build_args main lookup insert drop_prefix
    sort_by str_leb str_eq elem strip lstrip_by rstrip_by is_space starts_with ends_with split_on
    lower lower_char words pieces drop_empty splitlines any all filter
docker_open = true

abbrev dockerfile : Str
dockerfile =
    codes
      "ARG TAG=22-alpine\nFROM public.ecr.aws/docker/library/node:${TAG} AS build\nRUN --mount=type=bind,from=public.ecr.aws/docker/library/redis x \\\n  # note\n  y <<EOF\nFROM z\nEOF\nFROM build\n"

abbrev pairs : Dict Str
pairs =
    (
      codes "public.ecr.aws/docker/library/node:22-alpine",
      codes "docker-image://docker.io/library/node:22-alpine",
    )
    ∷ (
      codes "public.ecr.aws/docker/library/redis",
      codes "docker-image://docker.io/library/redis:latest",
    )
    ∷ []

-- A digest is kept.
digest_kept :
    docker_hub_twin
      (codes "public.ecr.aws/docker/library/go:1@sha256:0123456789abcdef0123456789abcdef")
    ≡ some (codes "docker-image://docker.io/library/go:1@sha256:0123456789abcdef0123456789abcdef")
unfolding docker_open
digest_kept = refl

-- A line that is an escape and nothing else gives an instruction without a word.
lone_escape : build_contexts (codes "FROM scratch\n\\\n") [] ≡ none
unfolding docker_open
lone_escape = refl

abbrev nested_args : Dict Arg
nested_args = (codes "A", known (codes "1")) ∷ []

nested : expand_word nested_args (codes "x${B:-${A}}$A") ≡ ok (codes "x11")
unfolding docker_open
nested = refl

expand_word-is_done_example : is_done (expand_word nested_args (codes "x${B:-${A}}$A")) ≡ true
expand_word-is_done_example = expand_word-is_done nested_args (codes "x${B:-${A}}$A")
