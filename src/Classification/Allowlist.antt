-- ===== src/Classification/Allowlist.antt =====
-- The allowlist of scripts/check-contract-classification.py: every exemption explains itself.
use ci_workflows.Base.{
  true, false, some, List, [], ◌∷◌, ◌≡◌, arith, inl, inr, is_nil, Bool-cases, subst,
}
use ci_workflows.Base.Text.{Str, str_eq, elem}
use ci_workflows.ModulePins.{Dict, lookup, insert}
use ci_workflows.ModulePins.GoMod.{lookup-insert}
use ci_workflows.Classification.{
  Item, AllowFile, missing_file, unreadable_file, items, dispositions, ok, add_items,
  load_allowlist,
}

-- An exemption that says what will resolve it, and why it is there.
abbrev pub IsExplained : Item → Type 0
IsExplained item = (elem item.disposition dispositions ≡ true) × (is_nil item.reason ≡ false)

abbrev AllExplained : Dict Item → Type 0
AllExplained entries = (s : Str) (item : Item) → lookup s entries ≡ some item → IsExplained item

none_explained : AllExplained []
unfolding lookup
none_explained s item h = cc

insert-AllExplained :
    (k : Str) (item : Item) (entries : Dict Item)
    → IsExplained item
    → AllExplained entries
    → AllExplained (insert k item entries)
insert-AllExplained k item entries e es s other h = elim (Bool-cases (str_eq k s)) [
  | inl t ↦
      let same : item ≡ other = ground (arith, lookup-insert s k item entries, t) in
      subst IsExplained same e
  | inr f ↦ es s other (ground (arith, lookup-insert s k item entries, f))
]

add_items-AllExplained :
    (is : List Item) (entries allow : Dict Item)
    → AllExplained entries
    → add_items is entries ≡ ok allow
    → AllExplained allow
unfolding add_items
add_items-AllExplained [] entries allow es h = subst AllExplained (ground arith) es
add_items-AllExplained (item ∷ more) entries allow es h =
    let e : IsExplained item = ground arith in
    add_items-AllExplained more (insert item.service item entries) allow
      (insert-AllExplained item.service item entries e es) (ground arith)

pub load_allowlist-IsExplained :
    (file : AllowFile) (allow : Dict Item)
    → load_allowlist file ≡ ok allow
    → (s : Str) (item : Item) → lookup s allow ≡ some item
    → IsExplained item
unfolding load_allowlist lookup
load_allowlist-IsExplained missing_file allow h =
    let empty : [] ≡ allow = ground arith in subst AllExplained empty none_explained
load_allowlist-IsExplained unreadable_file allow h = cc
load_allowlist-IsExplained (items is) allow h = add_items-AllExplained is [] allow none_explained h
