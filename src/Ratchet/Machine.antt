-- ===== src/Ratchet/Machine.antt =====
-- What runs of scripts/check_coverage_ratchet.py in a row do to the floor, as a machine of three
-- states.
use ci_workflows.Base.{
  Bool, true, List, [], ◌∷◌, ◌≡◌, inl, inr, refl, subst, sym, arith, Bool-cases, All, ap, false,
}
use ci_workflows.Ratchet.{
  Float, File, absent, Contents, Loaded, no_floor_file, floor_is, floor_error, missing,
  default_reason, load_floor, react, evaluate, evaluate_new, evaluate_floor, write_floor,
}
use ci_workflows.Ratchet.Write.{
  IsPercentage, IsRounding, load-absent, load_floor-IsPercentage, load-written, has_default,
}

-- What a floor file is to the next run: none, a floor, or a file that does not load.
pub data Floor (F : Type 0) : Type 0 where
  no_floor broken : Floor F
  held : F → Floor F

-- One measurement, its threshold, and whether `--write` is given.
pub record Measured (F : Type 0) : Type 0 where
  pub pct : F
  pub threshold : F
  pub write : Bool

module _ (N : Float) where
  open N use {F, lt, le, eq, add, sub, round1, zero_pct, raise_by, slack}

  abbrev pub view : Loaded F → Floor F
  view no_floor_file = no_floor
  view (floor_is f c) = held f
  view (floor_error e) = broken

  abbrev pub floor_of : File F → Floor F
  floor_of file = view (load_floor N file)

  -- One run of the machine, by what is measured. Without `--write`, and on a file that does not load,
  -- nothing happens. With it, a floor is recorded or raised for a measurement below the threshold,
  -- and cleared for one that meets it.
  pub data Step (m : Measured F) : Floor F → Floor F → Type 0 where
    only_read : (s : Floor F) → m.write ≡ false → Step m s s
    stay_broken : Step m broken broken
    not_needed : le m.threshold m.pct ≡ true → Step m no_floor no_floor
    record_floor :
        m.write ≡ true → le m.threshold m.pct ≡ false → Step m no_floor (held (round1 m.pct))
    clear_floor : (f : F) → m.write ≡ true → le m.threshold m.pct ≡ true → Step m (held f) no_floor
    fell_below :
        (f : F)
        → le m.threshold m.pct ≡ false
        → lt m.pct (sub f slack) ≡ true
        → Step m (held f) (held f)
    in_band :
        (f : F)
        → le m.threshold m.pct ≡ false
        → lt (add f raise_by) m.pct ≡ false
        → Step m (held f) (held f)
    raise_floor :
        (f : F)
        → m.write ≡ true
        → le m.threshold m.pct ≡ false
        → lt (add f raise_by) m.pct ≡ true
        → le f (round1 m.pct) ≡ true
        → Step m (held f) (held (round1 m.pct))

  -- Runs in a row.
  abbrev pub Follows : List (Measured F) → Floor F → Floor F → Type 0
  Follows [] s u = s ≡ u
  Follows (m ∷ ms) s u = (t : Floor F) × (Step m s t × Follows ms t u)

  -- The file behind runs in a row.
  unfoldable pub run_all : List (Measured F) → File F → File F
  unfolding evaluate
  run_all [] file = file
  run_all (m ∷ ms) file = run_all ms (evaluate N m.pct m.threshold file m.write).file

  abbrev pub AllPercentages : List (Measured F) → Type 0
  AllPercentages [] = Unit
  AllPercentages (m ∷ ms) = IsPercentage N m.pct × AllPercentages ms

module _ (N : Float) (R : IsRounding N) where
  open N use {F, lt, le, eq, add, sub, round1, zero_pct, raise_by, slack}

  -- A file that loads as told is the state that it is viewed as.
  to_view :
      (m : Measured F) (s : Floor F) (file : File F) (l : Loaded F)
      → load_floor N file ≡ l
      → Step N m s (view N l)
      → Step N m s (floor_of N file)
  to_view m s file l h step = subst (λ z. Step N m s (view N z)) (sym h) step

  abbrev measured : F → F → Bool → Measured F
  measured pct threshold write = record { pct = pct; threshold = threshold; write = write }

  new-Step :
      (pct threshold : F) (file : File F) (write : Bool)
      → IsPercentage N pct
      → load_floor N file ≡ no_floor_file
      → Step N
          (measured pct threshold write)
          no_floor
          (floor_of N (evaluate_new N pct threshold file write).file)
  unfolding evaluate_new
  new-Step pct threshold file false p h =
      let kept =
        to_view (measured pct threshold false) no_floor file no_floor_file h
          (only_read no_floor refl) in
      elim (Bool-cases (le threshold pct)) [ inl met ↦ rw met kept | inr low ↦ rw low kept ]
  new-Step pct threshold file true p h =
      let m = measured pct threshold true in
      elim (Bool-cases (le threshold pct)) [
        | inl met ↦ rw met (to_view m no_floor file no_floor_file h (not_needed met))
        | inr low ↦
            let loaded = load-written N R pct missing p (ground (arith, has_default N R)) in
            rw low (
              to_view m no_floor (write_floor N pct missing default_reason) _ loaded
                (record_floor refl low))
      ]

  floor-Step :
      (pct threshold : F) (file : File F) (write : Bool) (floor : F) (existing : Contents F)
      → IsPercentage N pct
      → load_floor N file ≡ floor_is floor existing
      → Step N
          (measured pct threshold write)
          (held floor)
          (floor_of N (evaluate_floor N pct threshold file write floor existing).file)
  unfolding evaluate_floor
  floor-Step pct threshold file false floor existing p h =
      let kept =
        to_view (measured pct threshold false) (held floor) file (floor_is floor existing) h
          (only_read (held floor) refl) in
      elim (Bool-cases (le threshold pct)) [
        | inl met ↦ rw met kept
        | inr low ↦ elim (Bool-cases (lt pct (sub floor slack))) [
          | inl fell ↦ rw (low, fell) kept
          | inr above ↦ elim (Bool-cases (lt (add floor raise_by) pct)) [
            | inr flat ↦ rw (low, above, flat) kept
            | inl up ↦ rw (low, above, up) kept
          ]
        ]
      ]
  floor-Step pct threshold file true floor existing p h =
      let m = measured pct threshold true in
      let kept = to_view m (held floor) file (floor_is floor existing) h in
      elim (Bool-cases (le threshold pct)) [
        | inl met ↦ rw met (
            to_view m (held floor) absent no_floor_file (load-absent N)
              (clear_floor floor refl met))
        | inr low ↦ elim (Bool-cases (lt pct (sub floor slack))) [
          | inl fell ↦ rw (low, fell) (kept (fell_below floor low fell))
          | inr above ↦ elim (Bool-cases (lt (add floor raise_by) pct)) [
            | inr flat ↦ rw (low, above, flat) (kept (in_band floor low flat))
            | inl up ↦
                let loaded = load-written N R pct existing.reason p (
                  ground (
                    arith,
                    R.not_zero floor pct,
                    load_floor-IsPercentage N file floor existing h,
                    up,
                  )) in
                rw (low, above, up)
                  (to_view m (held floor) (write_floor N pct existing.reason default_reason) _
                    loaded (raise_floor floor refl low up (R.above floor pct up)))
          ]
        ]
      ]

  react-Step :
      (m : Measured F) (file : File F) (l : Loaded F)
      → IsPercentage N m.pct
      → load_floor N file ≡ l
      → Step N m (view N l) (floor_of N (react N m.pct m.threshold file m.write l).file)
  unfolding react
  react-Step m file (floor_error e) p h = to_view m broken file (floor_error e) h stay_broken
  react-Step m file no_floor_file p h = new-Step m.pct m.threshold file m.write p h
  react-Step m file (floor_is floor existing) p h =
      floor-Step m.pct m.threshold file m.write floor existing p h

  -- Runs in a row refine the machine. Over floats whose rounding is as described, and for
  -- measurements from 0 to 100, each run takes the step of the machine for its measurement: without
  -- `--write` the floor stays, and with it one is recorded or raised only below the threshold, to
  -- the rounded measurement, and cleared only where the threshold is met.
  pub run_all-Follows :
      (ms : List (Measured F)) (file : File F)
      → AllPercentages N ms
      → Follows N ms (floor_of N file) (floor_of N (run_all N ms file))
  unfolding run_all evaluate
  run_all-Follows [] file h = refl
  run_all-Follows (m ∷ ms) file (p, ps) =
      let next = (evaluate N m.pct m.threshold file m.write).file in
      (floor_of N next, (react-Step m file (load_floor N file) p refl, run_all-Follows ms next ps))

  -- A state that holds a floor no lower than another.
  abbrev pub IsAtLeast : F → Floor F → Type 0
  IsAtLeast f s = (g : F) × ((s ≡ held g) × (le f g ≡ true))

  Step-IsAtLeast :
      (m : Measured F) (s t : Floor F) (f : F)
      → le m.threshold m.pct ≡ false
      → IsAtLeast f s
      → Step N m s t
      → IsAtLeast f t
  Step-IsAtLeast m _ _ f low (g, (e, h)) (only_read s w) = (g, (e, h))
  Step-IsAtLeast m _ _ f low (g, (e, h)) stay_broken = cc
  Step-IsAtLeast m _ _ f low (g, (e, h)) (not_needed met) = cc
  Step-IsAtLeast m _ _ f low (g, (e, h)) (record_floor w b) = cc
  Step-IsAtLeast m _ _ f low (g, (e, h)) (clear_floor k w met) = cc
  Step-IsAtLeast m _ _ f low (g, (e, h)) (fell_below k b c) = (g, (e, h))
  Step-IsAtLeast m _ _ f low (g, (e, h)) (in_band k b c) = (g, (e, h))
  Step-IsAtLeast m _ _ f low (g, (e, h)) (raise_floor k w b up more) =
      let same : g ≡ k = ground arith in
      (round1 m.pct, (refl, R.le_trans f k (round1 m.pct) (subst (λ z. le f z ≡ true) same h) more))

  Follows-IsAtLeast :
      (ms : List (Measured F)) (s u : Floor F) (f : F)
      → All (λ m. le m.threshold m.pct ≡ false) ms
      → IsAtLeast f s
      → Follows N ms s u
      → IsAtLeast f u
  Follows-IsAtLeast [] s u f low h e = subst (IsAtLeast f) e h
  Follows-IsAtLeast (m ∷ ms) s u f (low, lows) h (t, (step, more)) =
      Follows-IsAtLeast ms t u f lows (Step-IsAtLeast m s t f low h step) more

  -- The floor never falls. Over floats whose rounding is as described, and for measurements from 0
  -- to 100 that are all below their thresholds: where the file holds a floor, it holds one behind all
  -- the runs, with `--write` or without, and that one is no lower.
  pub run_all-IsAtLeast :
      (ms : List (Measured F)) (file : File F) (floor : F) (existing : Contents F)
      → AllPercentages N ms
      → All (λ m. le m.threshold m.pct ≡ false) ms
      → load_floor N file ≡ floor_is floor existing
      → IsAtLeast floor (floor_of N (run_all N ms file))
  run_all-IsAtLeast ms file floor existing p low h =
      Follows-IsAtLeast ms (floor_of N file) (floor_of N (run_all N ms file)) floor low
        (floor, (ap (view N) h, R.le_refl floor (load_floor-IsPercentage N file floor existing h)))
        (run_all-Follows ms file p)
