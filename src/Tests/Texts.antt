-- ===== src/Tests/Texts.antt =====
-- The predicates on paths, lines and texts, at concrete inputs.
use ci_workflows.Base.{true, none, some, [], ◌∷◌, ◌++◌, ◌≡◌, ◌↔◌, refl, arith, all}
use ci_workflows.Base.Text.{codes, elem, strip, is_space}
use ci_workflows.Base.Words.{IsWord}
use ci_workflows.Tests.MemoryGit.{gates_open}
use ci_workflows.DocsOnly.{is_documentation}
use ci_workflows.DocsOnly.Documentation.{IsDocument, is_documentation_iff}
use ci_workflows.PinOnly.{is_pin_line, non_pin_directives}
use ci_workflows.PinOnly.PinLines.{is_pin_line-block}
use ci_workflows.Regex.{Regex, seq, opt, dots, text, search}

is_documentation_iff_example :
    (is_documentation (codes "docs/guide.md") (codes "docs/*.txt" ∷ []) ≡ true)
    ↔ IsDocument (codes "docs/*.txt" ∷ []) (strip (codes "docs/guide.md"))
is_documentation_iff_example =
    is_documentation_iff (codes "docs/guide.md") (codes "docs/*.txt" ∷ [])

replace-elem : elem (codes "replace") non_pin_directives ≡ true
unfolding gates_open
replace-elem = refl

x_io-IsWord : IsWord (codes "x.io/a")
unfolding is_space all
x_io-IsWord = (refl, refl)

-- A replacement of a block's line, which goes for a pin.
is_pin_line-block_example : is_pin_line (codes "x.io/a" ++ codes " => ./local") ≡ true
is_pin_line-block_example =
    is_pin_line-block b'x' (codes ".io/a") (codes " => ./local") x_io-IsWord
      (unfold is_space in refl) (λ e. omega arith) (unfold gates_open in refl)
      (unfold gates_open in refl)

abbrev label_pattern : Regex
label_pattern =
    seq (text (codes "label")) (seq (opt (text (codes "s"))) (seq (text (codes " ")) (dots none)))

label_found : search label_pattern (codes "The Labels x") ≡ some (codes "Labels x")
unfolding search
label_found = refl
