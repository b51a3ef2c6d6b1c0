-- ===== src/Parity/Artifact.antt =====
-- `baseline_artifact_parity` of scripts/check-detector-parity.py: the comment that both tools write.
use ci_workflows.Base.{Option, none, some, List, [], ◌∷◌, ◌++◌, map, if◌then◌else◌}
use ci_workflows.Base.Text.{upper_char, Str, codes, str_eq, has_sub}

-- What a tool did: it could not be run, wrote no file, wrote no JSON, or wrote a comment, if any.
pub data ToolRun : Type 0 where
  not_run no_baseline bad_json : ToolRun
  wrote : Option Str → ToolRun

pub data Tool : Type 0 where
  ci_tool cli_tool : Tool

pub data Problem : Type 0 where
  unusable : Tool → ToolRun → Problem
  -- the two comments
  comments_differ : Str → Str → Problem
  no_member : Tool → Str → Problem
  no_ratchet_rule : Tool → Problem

abbrev pub comment_of : ToolRun → Option Str
comment_of not_run = none
comment_of no_baseline = none
comment_of bad_json = none
comment_of (wrote text) = text

abbrev pub run_problems : Tool → ToolRun → List Problem
run_problems tool not_run = unusable tool not_run ∷ []
run_problems tool no_baseline = unusable tool no_baseline ∷ []
run_problems tool bad_json = unusable tool bad_json ∷ []
run_problems tool (wrote text) = []

unfoldable pub compare_comments : Option Str → Option Str → List Problem
unfolding str_eq
compare_comments none cli = []
compare_comments (some ci) none = []
compare_comments (some ci) (some cli) = if str_eq ci cli then [] else comments_differ ci cli ∷ []

unfoldable pub member_problems : Tool → Str → List Str → List Problem
unfolding has_sub
member_problems tool text [] = []
member_problems tool text (member ∷ members) =
    let rest = member_problems tool text members in
    if has_sub member text then rest else no_member tool member ∷ rest

abbrev pub members : List Str
members = codes "controls" ∷ codes "checks" ∷ codes "arch" ∷ []

unfoldable pub text_problems : Tool → Option Str → List Problem
unfolding member_problems has_sub
text_problems tool none = []
text_problems tool (some text) =
    member_problems tool text members
    ++ (if has_sub (codes "RISE") (map upper_char text) then [] else no_ratchet_rule tool ∷ [])

unfoldable pub baseline_artifact_parity : ToolRun → ToolRun → List Problem
unfolding compare_comments text_problems
baseline_artifact_parity ci cli =
    run_problems ci_tool ci
    ++ (run_problems cli_tool cli
        ++ (compare_comments (comment_of ci) (comment_of cli)
            ++ (text_problems ci_tool (comment_of ci) ++ text_problems cli_tool (comment_of cli))))
