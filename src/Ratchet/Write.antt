-- ===== src/Ratchet/Write.antt =====
-- `--write` of scripts/check_coverage_ratchet.py: the floor moves upward, and what is written
-- passes the next check.
use ci_workflows.Base.{
  Bool, true, false, ◌&&◌, Option, none, some, is_nil, ◌≡◌, inl, inr, refl, arith, Bool-cases,
}
use ci_workflows.Base.Text.{strip}
use ci_workflows.Ratchet.{
  Float, File, absent, object, Contents, FloorValue, number, Loaded, no_floor_file, floor_is,
  floor_error, ReasonValue, missing, text, reason_or, default_reason, check_floor, load_object,
  load_floor, react, evaluate, evaluate_new, evaluate_floor, write_floor,
}
use ci_workflows.Ratchet.Outcomes.{evaluate-Passes}

module _ (N : Float) where
  open N use {F, lt, le, eq, add, sub, round1, zero_pct, hundred_pct, slack, raise_by}

  abbrev pub IsPercentage : F → Type 0
  IsPercentage p = (le zero_pct p ≡ true) × (le p hundred_pct ≡ true)

  -- What is relied on of `round(x, 1)`: it stays within 0 and 100, within the band around itself,
  -- and does not fall below a floor that the number is well above; and such a number is not 0.
  pub record IsRounding : Type 0 where
    pub in_range : (p : F) → IsPercentage p → IsPercentage (round1 p)
    pub near_above : (p : F) → lt p (sub (round1 p) slack) ≡ false
    pub near_below : (p : F) → lt (add (round1 p) raise_by) p ≡ false
    pub above : (f p : F) → lt (add f raise_by) p ≡ true → le f (round1 p) ≡ true
    pub not_zero :
        (f p : F)
        → le zero_pct f ≡ true
        → lt (add f raise_by) p ≡ true
        → eq (round1 p) zero_pct ≡ false
    pub le_refl : (p : F) → IsPercentage p → le p p ≡ true
    pub le_trans : (a b c : F) → le a b ≡ true → le b c ≡ true → le a c ≡ true

  -- A floor that the file holds is no lower than the given one.
  abbrev no_lower : F → Loaded F → Bool
  no_lower floor (floor_is g c) = le floor g
  no_lower floor no_floor_file = true
  no_lower floor (floor_error e) = true

  check_floor-no_lower :
      (floor g : F) (c : Contents F) → le floor g ≡ true → no_lower floor (check_floor N g c) ≡ true
  unfolding check_floor
  check_floor-no_lower floor g c h = ground arith

  check_floor-is :
      (f : F) (c : Contents F) (g : F) (d : Contents F)
      → check_floor N f c ≡ floor_is g d
      → (g ≡ f) × (d ≡ c) × IsPercentage f
  unfolding check_floor
  check_floor-is f c g d h = ground arith

  load_object-IsPercentage :
      (o : Option (FloorValue F)) (c : Contents F) (g : F) (d : Contents F)
      → load_object N o c ≡ floor_is g d
      → IsPercentage g
  load_object-IsPercentage none c g d h = cc
  load_object-IsPercentage (some FloorValue.no_number) c g d h = cc
  load_object-IsPercentage (some (number f)) c g d h = ground (arith, check_floor-is f c g d)

  pub load_floor-IsPercentage :
      (file : File F) (g : F) (d : Contents F) → load_floor N file ≡ floor_is g d → IsPercentage g
  unfolding load_floor
  load_floor-IsPercentage File.absent g d h = cc
  load_floor-IsPercentage File.unreadable g d h = cc
  load_floor-IsPercentage File.no_object g d h = cc
  load_floor-IsPercentage (object c) g d h = load_object-IsPercentage c.floor c g d h

  pub load-absent : load_floor N absent ≡ no_floor_file
  unfolding load_floor
  load-absent = refl

module _ (N : Float) (R : IsRounding N) where
  open N use {F, lt, le, eq, add, sub, round1, zero_pct, hundred_pct, slack, raise_by}

  written-no_lower :
      (floor pct : F) (r : ReasonValue)
      → lt (add floor raise_by) pct ≡ true
      → no_lower N floor (load_floor N (write_floor N pct r default_reason)) ≡ true
  unfolding load_floor write_floor
  written-no_lower floor pct r h = check_floor-no_lower N floor (round1 pct) _ (R.above floor pct h)

  -- The ratchet, over floats whose rounding is as described: behind a run, with `--write` or without, a file that held a floor holds one that
  -- is no lower, or none that can be loaded.
  evaluate-no_lower :
      (pct threshold : F) (file : File F) (write : Bool) (floor : F) (existing : Contents F)
      → load_floor N file ≡ floor_is floor existing
      → no_lower N floor (load_floor N (evaluate N pct threshold file write).file) ≡ true
  unfolding evaluate react evaluate_floor
  evaluate-no_lower pct threshold file write floor existing h = ground (
    arith,
    h,
    R.le_refl floor (load_floor-IsPercentage N file floor existing h),
    written-no_lower floor pct existing.reason,
    load-absent N,
  )

  -- The object that `--write` writes.
  abbrev pub written : F → ReasonValue → Contents F
  written pct r = record {
    floor = some (number (round1 pct));
    reason = text (reason_or r default_reason);
  }

  -- It is a floor that loads, unless it is 0 without a reason.
  pub load-written :
      (pct : F) (r : ReasonValue)
      → IsPercentage N pct
      → (eq (round1 pct) zero_pct && is_nil (strip (reason_or r default_reason))) ≡ false
      → load_floor N (write_floor N pct r default_reason) ≡ floor_is (round1 pct) (written pct r)
  unfolding load_floor write_floor check_floor
  load-written pct r p z = ground (arith, z, R.in_range pct p)

  pub has_default : is_nil (strip default_reason) ≡ false
  unfolding strip
  has_default = refl

  -- A floor of the rounded measurement passes, where the threshold is not met.
  passes-written :
      (pct threshold : F) (r : ReasonValue)
      → IsPercentage N pct
      → le threshold pct ≡ false
      → (eq (round1 pct) zero_pct && is_nil (strip (reason_or r default_reason))) ≡ false
      → (evaluate N pct threshold (write_floor N pct r default_reason) false).code ≡ 0
  passes-written pct threshold r p low z =
      (evaluate-Passes N pct threshold (write_floor N pct r default_reason)).1
        (rw (load-written pct r p z) (low, (R.near_above pct, R.near_below pct)))

  write_passes :
      (pct threshold : F) (file : File F) (l : Loaded F)
      → IsPercentage N pct
      → load_floor N file ≡ l
      → (react N pct threshold file true l).code ≡ 0
      → (evaluate N pct threshold (react N pct threshold file true l).file false).code ≡ 0
  unfolding react evaluate_new evaluate_floor
  write_passes pct threshold file (floor_error e) p h k = absurd (omega arith)
  write_passes pct threshold file no_floor_file p h k = elim (Bool-cases (le threshold pct)) [
    | inl met ↦ rw met ((evaluate-Passes N pct threshold file).1 (rw h met))
    | inr low ↦ rw low (passes-written pct threshold missing p low (ground (arith, has_default)))
  ]
  write_passes pct threshold file (floor_is floor existing) p h k =
      elim (Bool-cases (le threshold pct)) [
        | inl met ↦ rw met ((evaluate-Passes N pct threshold absent).1 (rw load-absent met))
        | inr low ↦ (elim (Bool-cases (lt pct (sub floor slack))) [
          | inl fell ↦ absurd (ground (arith, low, fell))
          | inr above ↦ (elim (Bool-cases (lt (add floor raise_by) pct)) [
            | inl up ↦
                rw (low, above, up)
                  (passes-written pct threshold existing.reason p low (
                    ground (
                      arith,
                      R.not_zero floor pct,
                      load_floor-IsPercentage N file floor existing h,
                      up,
                    )))
            | inr flat ↦
                rw (low, above, flat)
                  ((evaluate-Passes N pct threshold file).1 (rw h (low, (above, flat))))
          ])
        ])
      ]

  -- Over floats whose rounding is as described, and for a measurement from 0 to 100: where `--write`
  -- succeeds, the same measurement passes the next check without it.
  pub evaluate-write_passes :
      (pct threshold : F) (file : File F)
      → IsPercentage N pct
      → (evaluate N pct threshold file true).code ≡ 0
      → (evaluate N pct threshold (evaluate N pct threshold file true).file false).code ≡ 0
  unfolding evaluate
  evaluate-write_passes pct threshold file p h =
      write_passes pct threshold file (load_floor N file) p refl h
