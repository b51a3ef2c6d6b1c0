-- ===== src/PinOnly/PinFiles.antt =====
-- `is_pin_file` of scripts/pin-only-diff.py, and its distance from documentation.
use ci_workflows.Base.{Bool, true, false, List, ◌≡◌, ◌⊎◌, inl, inr, refl, arith, any, Bool-cases}
use ci_workflows.Base.Text.{Str, codes, str_eq, str_eq_iff, elem, strip, starts_with, lower}
use ci_workflows.PinOnly.{is_pin_file}
use ci_workflows.DocsOnly.{suffix, is_documentation}
use ci_workflows.DocsOnly.Documentation.{is_documentation_iff, is_doc_name, base_name}

pin_file-name :
    (path : Str)
    → is_pin_file path ≡ true
    → (base_name (strip path) ≡ codes "go.mod") ⊎ (base_name (strip path) ≡ codes "go.sum")
unfolding is_pin_file elem any
pin_file-name path h =
    let name = base_name (strip path) in
    ground (arith, str_eq_iff name (codes "go.mod"), str_eq_iff name (codes "go.sum"))

pin_name-not-doc :
    (below_docs : Bool) (name : Str)
    → (name ≡ codes "go.mod") ⊎ (name ≡ codes "go.sum")
    → is_doc_name name below_docs ≡ false
unfolding suffix lower elem any str_eq
pin_name-not-doc true name (inl e) = rw e refl
pin_name-not-doc true name (inr e) = rw e refl
pin_name-not-doc false name (inl e) = rw e refl
pin_name-not-doc false name (inr e) = rw e refl

-- A file that records pins is never taken for documentation, whatever the checkout embeds.
pub is_pin_file-is_documentation :
    (path : Str) (patterns : List Str)
    → is_pin_file path ≡ true
    → is_documentation path patterns ≡ false
is_pin_file-is_documentation path patterns h = elim (Bool-cases (is_documentation path patterns)) [
  | inr code ↦ code
  | inl doc ↦
      let d = (is_documentation_iff path patterns).0 doc in
      ground (
        arith,
        d.kind,
        pin_name-not-doc (starts_with (codes "docs/") (strip path)) (base_name (strip path))
            (pin_file-name path h),
      )
]
