-- ===== src/RunTriage/Patterns.antt =====
-- `BILLING_PATTERNS` and `RUNNER_PATTERNS` of scripts/classify-run-failure.py.
use ci_workflows.Base.{none, some, List, [], ◌∷◌}
use ci_workflows.Base.Text.{codes}
use ci_workflows.Regex.{Regex, seq, alt, opt, dots, text}

abbrev pub billing_patterns : List Regex
billing_patterns =
    text (codes "recent account payments have failed")
    ∷ text (codes "spending limit needs to be increased")
    ∷ seq (alt (text (codes "job")) (text (codes "run"))) (
        seq (text (codes " was not started because")) (
          seq (dots (some 120)) (
            alt (text (codes "payment"))
              (alt (text (codes "spending limit")) (text (codes "billing"))))))
    ∷ []

abbrev pub runner_patterns : List Regex
runner_patterns =
    seq (text (codes "no ")) (
      seq (opt (text (codes "self-hosted "))) (
        seq (text (codes "runner ")) (alt (text (codes "matching")) (text (codes "is available")))))
    ∷ seq (text (codes "requested label")) (
        seq (opt (text (codes "s"))) (
          seq (text (codes " ")) (
            seq (dots none) (
              seq (text (codes " ")) (
                seq (alt (text (codes "is")) (text (codes "are"))) (
                  seq (text (codes " not "))
                    (alt (text (codes "available")) (text (codes "valid")))))))))
    ∷ text (codes "concurrency limit")
    ∷ seq (text (codes "exceeded the maximum "))
        (seq (opt (text (codes "number of "))) (text (codes "concurrent jobs")))
    ∷ []
