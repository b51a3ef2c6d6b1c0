-- ===== src/Ratchet/Outcomes.antt =====
-- When scripts/check_coverage_ratchet.py passes, and what it leaves in the floor file.
use ci_workflows.Base.{true, false, ◌≡◌, ◌↔◌, refl, arith}
use ci_workflows.Ratchet.{
  Float, File, Loaded, no_floor_file, floor_is, floor_error, load_floor, react, evaluate,
  evaluate_new, evaluate_floor,
}

module _ (N : Float) (pct threshold : N.F) where
  -- The band around a floor, in which a measurement passes.
  abbrev pub InBand : N.F → Type 0
  InBand floor =
      (N.lt pct (N.sub floor N.slack) ≡ false) × (N.lt (N.add floor N.raise_by) pct ≡ false)

  abbrev pub Passes : Loaded N.F → Type 0
  Passes no_floor_file = N.le threshold pct ≡ true
  Passes (floor_is floor existing) = (N.le threshold pct ≡ false) × InBand floor
  Passes (floor_error e) = ⊥

  react-Passes :
      (file : File N.F) (l : Loaded N.F)
      → ((react N pct threshold file false l).code ≡ 0) ↔ Passes l
  unfolding react evaluate_new evaluate_floor
  react-Passes file (floor_error e) = (λ h. omega arith, λ h. absurd h)
  react-Passes file no_floor_file = ground arith
  react-Passes file (floor_is floor existing) = ground arith

  -- A plain check passes exactly if the threshold is met and there is no floor file, or it is not
  -- met, and the file holds a floor in whose band the measurement lies.
  pub evaluate-Passes :
      (file : File N.F)
      → ((evaluate N pct threshold file false).code ≡ 0) ↔ Passes (load_floor N file)
  unfolding evaluate
  evaluate-Passes file = react-Passes file (load_floor N file)

  react-check_file :
      (file : File N.F) (l : Loaded N.F) → (react N pct threshold file false l).file ≡ file
  unfolding react evaluate_new evaluate_floor
  react-check_file file (floor_error e) = refl
  react-check_file file no_floor_file = ground arith
  react-check_file file (floor_is floor existing) = ground arith

  -- Without `--write` the floor file stays as it is.
  pub evaluate-check_file : (file : File N.F) → (evaluate N pct threshold file false).file ≡ file
  unfolding evaluate
  evaluate-check_file file = react-check_file file (load_floor N file)
