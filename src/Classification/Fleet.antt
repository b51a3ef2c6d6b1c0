-- ===== src/Classification/Fleet.antt =====
-- The verdict of scripts/check-contract-classification.py on one repository and on a fleet.
use ci_workflows.Base.{
  suc, Bool, true, false, Option, none, some, List, [], ◌∷◌, ◌++◌, ◌≡◌, ◌↔◌, refl, arith, ◌⊎◌, inl,
  inr, is_nil, if◌then◌else◌, All, Option-cases, subst,
}
use ci_workflows.Base.Text.{Str, codes}
use ci_workflows.Base.Sorting.{sort_by, All-sort_by}
use ci_workflows.ModulePins.{Dict, lookup}
use ci_workflows.Hub.{FilePath, FileSystem}
use ci_workflows.Classification.{
  Item, AllowFile, Checked, BadInput, ok, bad, load_allowlist, spec_path, judge, report, fails,
  Entry, Output, Line, Outcome, audited, stopped, exit_code, Args, service_of, deployable_root,
  run_single, no_catalog, run_ci, audit_entry, audit, run_fleet, main,
}
use ci_workflows.Classification.Allowlist.{IsExplained, load_allowlist-IsExplained}

Checked-cases :
    {A : Type 0} (c : Checked A) → ((why : BadInput) × (c ≡ bad why)) ⊎ ((a : A) × (c ≡ ok a))
Checked-cases (bad why) = inl (why, refl)
Checked-cases (ok a) = inr (a, refl)

-- The declaration and the document go together, or the allowlist has an entry that explains itself.
abbrev pub Conforms : Dict Item → Str → Bool → Bool → Type 0
Conforms allow service declared_rest has_spec =
    (declared_rest ≡ has_spec)
    ⊎ ((item : Item) × ((lookup service allow ≡ some item) × IsExplained item))

report-Conforms :
    (allow : Dict Item) (service : Str) (declared_rest has_spec : Bool)
    → ((item : Item) → lookup service allow ≡ some item → IsExplained item)
    → (fails (report service (judge declared_rest has_spec) allow) ≡ false)
      ↔ Conforms allow service declared_rest has_spec
unfolding report judge
report-Conforms allow service true true f = (λ h. inl refl, λ h. refl)
report-Conforms allow service false false f = (λ h. inl refl, λ h. refl)
report-Conforms allow service false true f = elim (Option-cases (lookup service allow)) [
  | inl e ↦
      (λ h. ground (arith, e), λ h. elim h [ inl x ↦ cc | inr (item, (k, x)) ↦ ground (arith, e) ])
  | inr (item, e) ↦ (λ h. inr (item, (e, f item e)), λ h. ground (arith, e))
]
report-Conforms allow service true false f = elim (Option-cases (lookup service allow)) [
  | inl e ↦
      (λ h. ground (arith, e), λ h. elim h [ inl x ↦ cc | inr (item, (k, x)) ↦ ground (arith, e) ])
  | inr (item, e) ↦ (λ h. inr (item, (e, f item e)), λ h. ground (arith, e))
]

module _ (F : FileSystem) (is_file : FilePath → Bool) where
  -- An entry whose repository is not checked out, or conforms.
  abbrev pub IsGood : FilePath → Dict Item → Entry → Type 0
  IsGood workspace allow entry =
      (deployable_root F is_file workspace entry ≡ some none)
      ⊎ ((root : FilePath) × ((deployable_root F is_file workspace entry ≡ some (some root))
            × Conforms allow (service_of entry) entry.declares_rest (is_file (root ++ spec_path))))

  module _ (workspace : FilePath) (allow : Dict Item)
      (explained : (s : Str) (item : Item) → lookup s allow ≡ some item → IsExplained item) where
    abbrev line_of : Entry → FilePath → Line
    line_of entry root =
        report (service_of entry) (judge entry.declares_rest (is_file (root ++ spec_path))) allow

    line-Conforms :
        (entry : Entry) (root : FilePath)
        → (fails (line_of entry root) ≡ false)
          ↔ Conforms allow (service_of entry) entry.declares_rest (is_file (root ++ spec_path))
    line-Conforms entry root =
        report-Conforms allow (service_of entry) entry.declares_rest (is_file (root ++ spec_path))
          (explained (service_of entry))

    audit-raises :
        (entry : Entry) (entries : List Entry) (o : Output)
        → audit F is_file workspace allow (entry ∷ entries) ≡ some o
        → audit F is_file workspace allow entries ≡ none
        → ⊥
    unfolding audit
    audit-raises entry entries o h e =
        elim (Option-cases (deployable_root F is_file workspace entry)) [
          | inl d ↦ ground arith
          | inr (r, d) ↦ ground arith
        ]

    audit-IsGood :
        (entries : List Entry) (o : Output)
        → audit F is_file workspace allow entries ≡ some o
        → (o.failed_count ≡ 0) ↔ All (IsGood workspace allow) entries
    unfolding audit audit_entry
    audit-IsGood [] o h = (λ _. tt, λ _. ground arith)
    audit-IsGood (entry ∷ entries) o h =
        elim (Option-cases (audit F is_file workspace allow entries)) [
          | inl e ↦ absurd (audit-raises entry entries o h e)
          | inr (rest, e) ↦
              let (f, g) = audit-IsGood entries rest e in
              elim (Option-cases (deployable_root F is_file workspace entry)) [
                | inl d ↦ ground arith
                | inr (none, d) ↦
                    let same : o.failed_count ≡ rest.failed_count = ground arith in
                    (λ n. (inl d, f (ground arith)), λ (k, ks). ground (arith, g ks))
                | inr (some root, d) ↦
                    let line = line_of entry root in
                    let (f1, g1) = line-Conforms entry root in
                    let same : o.failed_count
                        ≡ (if fails line then suc rest.failed_count else rest.failed_count) =
                      ground arith in
                    (
                      λ n.
                          let fine : fails line ≡ false = ground arith in
                          (inr (root, (d, f1 fine)), f (ground arith)),
                      λ (k, ks). elim k [
                        | inl x ↦ ground arith
                        | inr (r, (x, y)) ↦
                            let r_root : r ≡ root = ground arith in
                            let fine : fails line ≡ false = g1 (
                              subst
                                (λ q.
                                  Conforms allow (service_of entry) entry.declares_rest
                                    (is_file (q ++ spec_path)))
                                r_root y) in
                            ground (arith, g ks)
                      ],
                    )
              ]
        ]

  -- The fleet audit passes exactly if the catalog has entries, and each one is good: its repository is
  -- not checked out, or it publishes a document if and only if the entry declares a REST interface,
  -- or an exemption in the allowlist names what will resolve it, and why. This is about an allowlist
  -- that loads and a run that does not raise.
  pub main-IsGood :
      (args : Args) (file : AllowFile) (allow : Dict Item) (entries : List Entry)
      (outcome : Outcome)
      → load_allowlist file ≡ ok allow
      → args.catalog ≡ some entries
      → main F is_file args file ≡ some outcome
      → (exit_code outcome ≡ 0)
        ↔ ((is_nil entries ≡ false) × All (IsGood args.workspace allow) entries)
  unfolding main run_fleet
  main-IsGood args file allow [] outcome l c h =
      let at : outcome ≡ stopped no_catalog = ground arith in
      let code : exit_code outcome ≡ 2 = rw at refl in (λ n. ground arith, λ (n, k). cc)
  main-IsGood args file allow (entry ∷ entries) outcome l c h =
      let key : Entry → Str = λ e. e.stem ++ codes ".yaml" in
      let sorted_entries = sort_by key (entry ∷ entries) in
      let explained = load_allowlist-IsExplained file allow l in
      elim (Option-cases (audit F is_file args.workspace allow sorted_entries)) [
        | inl e ↦ absurd (ground arith)
        | inr (o, e) ↦
            let at : outcome ≡ audited o = ground arith in
            let (f, g) = audit-IsGood args.workspace allow explained sorted_entries o e in
            let (f1, g1) = All-sort_by key (IsGood args.workspace allow) (entry ∷ entries) in
            rw at (
              λ n. (refl, f1 (f (ground arith))),
              λ (n, ks). let none_failed = g (g1 ks) in ground arith,
            )
      ]

  -- All three arguments are given, and the repository conforms.
  abbrev pub IsComplete : Dict Item → Option FilePath → Str → Option Bool → Type 0
  IsComplete allow repo service has_rest =
      (root : FilePath) × ((repo ≡ some root)
        × ((is_nil service ≡ false)
            × ((declared : Bool) × ((has_rest ≡ some declared)
                  × Conforms allow service declared (is_file (root ++ spec_path))))))

  run_ci-IsComplete :
      (allow : Dict Item) (repo : Option FilePath) (service : Str) (has_rest : Option Bool)
      → ((s : Str) (item : Item) → lookup s allow ≡ some item → IsExplained item)
      → (exit_code (run_ci F is_file repo service has_rest allow) ≡ 0)
        ↔ IsComplete allow repo service has_rest
  unfolding run_ci run_single
  run_ci-IsComplete allow none service has_rest f = (λ n. ground arith, λ (r, (e, k)). cc)
  run_ci-IsComplete allow (some root) [] has_rest f = (λ n. ground arith, λ (r, (e, (n, k))). cc)
  run_ci-IsComplete allow (some root) (c ∷ s) none f =
      (λ n. ground arith, λ (r, (e, (n, (d, (x, k))))). cc)
  run_ci-IsComplete allow (some root) (c ∷ s) (some declared) f =
      let line = report (c ∷ s) (judge declared (is_file (root ++ spec_path))) allow in
      let (f1, g1) =
        report-Conforms allow (c ∷ s) declared (is_file (root ++ spec_path)) (f (c ∷ s)) in
      (
        λ n. (root, (refl, (refl, (declared, (refl, f1 (ground arith)))))),
        λ (r, (e, (n, (d, (x, k))))).
            let same_root : r ≡ root = ground arith in
            let same : d ≡ declared = ground arith in
            let fine : fails line ≡ false = g1 (
              subst (λ q. Conforms allow (c ∷ s) q (is_file (root ++ spec_path))) same
                (subst (λ q. Conforms allow (c ∷ s) d (is_file (q ++ spec_path))) same_root k)) in
            ground arith,
      )

  -- The gate of one repository passes exactly if the allowlist loads, all three arguments are given,
  -- and the declaration and the document go together, or an exemption explains why not: a missing
  -- argument never passes.
  pub main-IsComplete :
      (args : Args) (file : AllowFile) (outcome : Outcome)
      → args.catalog ≡ none
      → main F is_file args file ≡ some outcome
      → (exit_code outcome ≡ 0) ↔ (
          (allow : Dict Item) × ((load_allowlist file ≡ ok allow)
            × IsComplete allow args.repo args.service args.has_rest))
  unfolding main
  main-IsComplete args file outcome c h = elim (Checked-cases (load_allowlist file)) [
    | inl (why, l) ↦
        let at : outcome ≡ stopped why = ground arith in
        let code : exit_code outcome ≡ 2 = rw at refl in (λ n. ground arith, λ (allow, (x, k)). cc)
    | inr (allow, l) ↦
        let (f, g) =
          run_ci-IsComplete allow args.repo args.service args.has_rest
            (load_allowlist-IsExplained file allow l) in
        let at : outcome ≡ run_ci F is_file args.repo args.service args.has_rest allow =
          ground arith in
        rw at (
          λ n. (allow, (l, f n)),
          λ (other, (x, k)).
              let same : other ≡ allow = ground arith in
              g (subst (λ a. IsComplete a args.repo args.service args.has_rest) same k),
        )
  ]
