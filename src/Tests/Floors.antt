-- ===== src/Tests/Floors.antt =====
-- scripts/check_coverage_ratchet.py on percentages in tenths, and with one that is no number.
use ci_workflows.Ratchet.Machine.{
  Measured, Follows, IsAtLeast, run_all-IsAtLeast, floor_of, run_all, run_all-Follows,
}
use ci_workflows.Base.{
  ℕ, ◌+◌, ◌-◌, Bool, true, false, Option, none, some, ◌≡◌, ◌↔◌, refl, arith, leb, ltb, ◌==◌, List,
  [], ◌∷◌,
}
use ci_workflows.Base.Text.{codes, strip}
use ci_workflows.Ratchet.{
  Float, File, object, Contents, number, floor_is, text, check_floor, load_floor, react, evaluate,
  evaluate_floor, write_floor,
}
use ci_workflows.Ratchet.Outcomes.{Passes, evaluate-Passes}
use ci_workflows.Ratchet.Write.{IsRounding, evaluate-write_passes}

-- Numbers of tenths, with `SLACK` and `RAISE` of 0.5 and 2.0.
abbrev tenths : Float
tenths = record {
  F = ℕ;
  lt = ltb;
  le = leb;
  eq = λ a b. a == b;
  add = λ a b. a + b;
  sub = λ a b. a - b;
  round1 = λ a. a;
  zero_pct = 0;
  hundred_pct = 1000;
  slack = 5;
  raise_by = 20;
}

tenths-IsRounding : IsRounding tenths
tenths-IsRounding = record {
  in_range = λ p h. h;
  near_above = λ p. ground arith;
  near_below = λ p. ground arith;
  above = λ f p h. ground arith;
  not_zero = λ f p z h. ground arith;
  le_refl = λ p h. ground arith;
  le_trans = λ a b c h k. ground arith;
}

abbrev contents : Contents ℕ
contents = record { floor = some (number 612); reason = text (codes "legacy") }

abbrev floor_file : File ℕ
floor_file = object contents

floor_file-loads : load_floor tenths floor_file ≡ floor_is 612 contents
unfolding load_floor check_floor strip
floor_file-loads = refl

write_test :
    (evaluate tenths 655 800 floor_file true).file
    ≡ object (record { floor = some (number 655); reason = text (codes "legacy") })
unfolding evaluate react evaluate_floor write_floor load_floor check_floor strip
write_test = refl

evaluate-Passes_example :
    ((evaluate tenths 610 800 floor_file false).code ≡ 0)
    ↔ Passes tenths 610 800 (load_floor tenths floor_file)
evaluate-Passes_example = evaluate-Passes tenths 610 800 floor_file

abbrev rising : List (Measured ℕ)
rising =
    record { pct = 655; threshold = 800; write = true }
    ∷ record { pct = 640; threshold = 800; write = true }
    ∷ record { pct = 820; threshold = 800; write = true }
    ∷ []

run_all-Follows_example :
    Follows tenths rising
      (floor_of tenths floor_file)
      (floor_of tenths (run_all tenths rising floor_file))
run_all-Follows_example =
    run_all-Follows tenths tenths-IsRounding rising floor_file
      ((refl, refl), ((refl, refl), ((refl, refl), tt)))

abbrev below : List (Measured ℕ)
below =
    record { pct = 655; threshold = 800; write = true }
    ∷ record { pct = 640; threshold = 800; write = true }
    ∷ []

run_all-IsAtLeast_example :
    IsAtLeast tenths tenths-IsRounding 612 (floor_of tenths (run_all tenths below floor_file))
run_all-IsAtLeast_example =
    run_all-IsAtLeast tenths tenths-IsRounding below floor_file 612 contents
      ((refl, refl), ((refl, refl), tt)) (refl, (refl, tt)) floor_file-loads

raised_passes : (evaluate tenths 655 800 floor_file true).code ≡ 0
unfolding evaluate react evaluate_floor write_floor load_floor check_floor strip
raised_passes = refl

evaluate-write_passes_example :
    (evaluate tenths 655 800 (evaluate tenths 655 800 floor_file true).file false).code ≡ 0
evaluate-write_passes_example =
    evaluate-write_passes tenths tenths-IsRounding 655 800 floor_file (refl, refl) raised_passes

-- The tenths, and a number that compares with nothing.
ordered : (ℕ → ℕ → Bool) → Option ℕ → Option ℕ → Bool
ordered r none b = false
ordered r (some a) none = false
ordered r (some a) (some b) = r a b

abbrev both : (ℕ → ℕ → ℕ) → Option ℕ → Option ℕ → Option ℕ
both f none b = none
both f (some a) none = none
both f (some a) (some b) = some (f a b)

abbrev with_nan : Float
with_nan = record {
  F = Option ℕ;
  lt = ordered ltb;
  le = ordered leb;
  eq = ordered (λ a b. a == b);
  add = both (λ a b. a + b);
  sub = both (λ a b. a - b);
  round1 = λ a. a;
  zero_pct = some 0;
  hundred_pct = some 1000;
  slack = some 5;
  raise_by = some 20;
}

abbrev nan_contents : Contents (Option ℕ)
nan_contents = record { floor = some (number (some 612)); reason = text (codes "legacy") }

nan_loads : load_floor with_nan (object nan_contents) ≡ floor_is (some 612) nan_contents
unfolding load_floor check_floor strip ordered
nan_loads = refl

-- Such a measurement passes against any floor, and below any threshold.
nan_passes : (evaluate with_nan none (some 800) (object nan_contents) true).code ≡ 0
unfolding evaluate react evaluate_floor load_floor check_floor strip ordered
nan_passes = refl
