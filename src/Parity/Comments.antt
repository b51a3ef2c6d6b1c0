-- ===== src/Parity/Comments.antt =====
-- When the comments that the two tools write agree, by scripts/check-detector-parity.py.
use ci_workflows.Base.{
  true, Option, none, some, List, [], ◌∷◌, ◌++◌, ◌≡◌, ◌↔◌, inl, inr, refl, arith, if◌then◌else◌,
  All, append-eq-nil, Bool-cases, map,
}
use ci_workflows.Base.Text.{upper_char, Str, codes, str_eq_iff, has_sub}
use ci_workflows.Parity.Artifact.{
  ToolRun, not_run, no_baseline, bad_json, wrote, Tool, ci_tool, cli_tool, Problem, members,
  no_ratchet_rule, compare_comments, member_problems, text_problems, baseline_artifact_parity,
}

abbrev pub IsDocumented : Option Str → Type 0
IsDocumented none = Unit
IsDocumented (some text) =
    All (λ member. has_sub member text ≡ true) members
    × (has_sub (codes "RISE") (map upper_char text) ≡ true)

abbrev pub SameComment : Option Str → Option Str → Type 0
SameComment none cli = Unit
SameComment (some ci) none = Unit
SameComment (some ci) (some cli) = ci ≡ cli

-- Both tools wrote a baseline; the comments in it are the same where both are there, and those that
-- are there name the members and the rule.
abbrev pub CommentsAgree : ToolRun → ToolRun → Type 0
CommentsAgree not_run cli = ⊥
CommentsAgree no_baseline cli = ⊥
CommentsAgree bad_json cli = ⊥
CommentsAgree (wrote a) not_run = ⊥
CommentsAgree (wrote a) no_baseline = ⊥
CommentsAgree (wrote a) bad_json = ⊥
CommentsAgree (wrote a) (wrote b) = SameComment a b × (IsDocumented a × IsDocumented b)

problems-nil : (xs ys : List Problem) → ((xs ++ ys) ≡ []) ↔ ((xs ≡ []) × (ys ≡ []))
problems-nil xs ys = (append-eq-nil xs ys, λ (h, k). rw (h, k) refl)

member_problems-All :
    (tool : Tool) (text : Str) (ms : List Str)
    → (member_problems tool text ms ≡ []) ↔ All (λ member. has_sub member text ≡ true) ms
unfolding member_problems
member_problems-All tool text [] = (λ h. tt, λ h. refl)
member_problems-All tool text (m ∷ ms) =
    let (f, g) = member_problems-All tool text ms in
    elim (Bool-cases (has_sub m text)) [
      | inl e ↦ (λ h. (e, f (ground (arith, e))), λ (a, b). let r = g b in ground (arith, e))
      | inr e ↦ (λ h. ground (arith, e), λ (a, b). ground (arith, e))
    ]

text_problems-IsDocumented :
    (tool : Tool) (text : Option Str) → (text_problems tool text ≡ []) ↔ IsDocumented text
unfolding text_problems
text_problems-IsDocumented tool none = (λ h. tt, λ h. refl)
text_problems-IsDocumented tool (some text) =
    let (f, g) = member_problems-All tool text members in
    let rule =
      if has_sub (codes "RISE") (map upper_char text) then [] else no_ratchet_rule tool ∷ [] in
    let (to, back) = problems-nil (member_problems tool text members) rule in
    (λ h. let (a, b) = to h in (f a, ground (arith, b)), λ (a, b). back (g a, ground (arith, b)))

compare_comments-SameComment :
    (ci cli : Option Str) → (compare_comments ci cli ≡ []) ↔ SameComment ci cli
unfolding compare_comments
compare_comments-SameComment none cli = (λ h. tt, λ h. refl)
compare_comments-SameComment (some ci) none = (λ h. tt, λ h. refl)
compare_comments-SameComment (some ci) (some cli) = ground (arith, str_eq_iff ci cli)

pub artifact-CommentsAgree :
    (ci cli : ToolRun) → (baseline_artifact_parity ci cli ≡ []) ↔ CommentsAgree ci cli
unfolding baseline_artifact_parity
artifact-CommentsAgree not_run cli = (λ h. ground arith, λ h. absurd h)
artifact-CommentsAgree no_baseline cli = (λ h. ground arith, λ h. absurd h)
artifact-CommentsAgree bad_json cli = (λ h. ground arith, λ h. absurd h)
artifact-CommentsAgree (wrote a) not_run = (λ h. ground arith, λ h. absurd h)
artifact-CommentsAgree (wrote a) no_baseline = (λ h. ground arith, λ h. absurd h)
artifact-CommentsAgree (wrote a) bad_json = (λ h. ground arith, λ h. absurd h)
artifact-CommentsAgree (wrote a) (wrote b) =
    let (f, g) = compare_comments-SameComment a b in
    let (f1, g1) = text_problems-IsDocumented ci_tool a in
    let (f2, g2) = text_problems-IsDocumented cli_tool b in
    let texts = text_problems ci_tool a ++ text_problems cli_tool b in
    let (to, back) = problems-nil (compare_comments a b) texts in
    let (to1, back1) = problems-nil (text_problems ci_tool a) (text_problems cli_tool b) in
    (
      λ h. let (x, yz) = to h in let (y, z) = to1 yz in (f x, (f1 y, f2 z)),
      λ (x, (y, z)). back (g x, back1 (g1 y, g2 z)),
    )
