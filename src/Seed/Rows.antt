-- ===== src/Seed/Rows.antt =====
-- `check_reference_data_integrity` of scripts/check-seed-contract.py: a file without notices has no
-- natural key twice.
use ci_workflows.Base.{
  ℕ, suc, true, none, some, List, [], ◌∷◌, ◌≡◌, ◌≢◌, inl, inr, arith, All, Bool-cases, Option-cases,
  subst,
}
use ci_workflows.Base.Text.{Str, str_eq_self}
use ci_workflows.Seed.{Row, no_object, object, rows}
use ci_workflows.Seed.Reference.{natural_key, same_key, seen_at, row_notices, file_notices}

-- The natural keys of the rows, in order.
abbrev pub keys : List Row → List (Str × Str)
keys [] = []
keys (no_object ∷ rs) = keys rs
keys (object fields ∷ rs) = elim (natural_key fields) [ none ↦ keys rs | some k ↦ k ∷ keys rs ]

abbrev pub IsObject : Row → Type 0
IsObject no_object = ⊥
IsObject (object fields) = Unit

-- No key stands twice, nor is one of those before.
abbrev pub IsDistinct : List (Str × Str) → Type 0
IsDistinct [] = Unit
IsDistinct (k ∷ ks) = All (λ j. j ≢ k) ks × IsDistinct ks

same_key_self : (k : Str × Str) → same_key k k ≡ true
same_key_self (f, k) = ground (arith, str_eq_self f, str_eq_self k)

-- None of the keys is one that was seen.
abbrev IsFresh : List ((Str × Str) × ℕ) → List (Str × Str) → Type 0
IsFresh seen ks = All (λ k. seen_at k seen ≡ none) ks

IsFresh-tail :
    (j : Str × Str) (i : ℕ) (seen : List ((Str × Str) × ℕ)) (ks : List (Str × Str))
    → IsFresh ((j, i) ∷ seen) ks
    → IsFresh seen ks × All (λ k. k ≢ j) ks
unfolding seen_at
IsFresh-tail j i seen [] h = (tt, tt)
IsFresh-tail j i seen (k ∷ ks) (h, hs) =
    let (a, b) = IsFresh-tail j i seen ks hs in
    elim (Bool-cases (same_key k j)) [
      | inl e ↦ absurd (ground (arith, e))
      | inr e ↦ (
        (ground (arith, e), a),
        (
          λ same.
              let t = subst (λ z. same_key k z ≡ true) same (same_key_self k) in ground (arith, t),
          b,
        ),
      )
    ]

row_notices-IsDistinct :
    (rel : Str) (i : ℕ) (seen : List ((Str × Str) × ℕ)) (rs : List Row)
    → row_notices rel i seen rs ≡ []
    → All IsObject rs × (IsFresh seen (keys rs) × IsDistinct (keys rs))
unfolding row_notices
row_notices-IsDistinct rel i seen [] h = (tt, (tt, tt))
row_notices-IsDistinct rel i seen (no_object ∷ rs) h = cc
row_notices-IsDistinct rel i seen (object fields ∷ rs) h =
    elim (Option-cases (natural_key fields)) [
      | inl e ↦
          let (a, (b, c)) = row_notices-IsDistinct rel (suc i) seen rs (ground (arith, e)) in
          rw (e, keys) ((tt, a), (b, c))
      | inr (k, e) ↦ elim (Option-cases (seen_at k seen)) [
        | inr (first, s) ↦ absurd (ground (arith, e, s))
        | inl s ↦
            let (a, (b, c)) =
              row_notices-IsDistinct rel (suc i) ((k, i) ∷ seen) rs (ground (arith, e, s)) in
            let (b1, b2) = IsFresh-tail k i seen (keys rs) b in
            rw (e, keys) ((tt, a), ((s, b1), (b2, c)))
      ]
    ]

-- A file of reference data without a notice, where it is an array: all its rows are objects, and no
-- natural key stands twice.
pub file_notices-IsDistinct :
    (rel : Str) (rs : List Row)
    → file_notices rel (rows rs) ≡ []
    → All IsObject rs × IsDistinct (keys rs)
unfolding file_notices
file_notices-IsDistinct rel rs h = let (a, (b, c)) = row_notices-IsDistinct rel 0 [] rs h in (a, c)
