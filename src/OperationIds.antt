-- ===== src/OperationIds.antt =====
-- scripts/check_operation_ids.py: the operation ids of a service's API, and the lock that governs
-- them. The JSON files are read into the types below.
pub mod Names
pub mod Registry
pub mod Write
pub mod Governed
pub mod Bumps
use ci_workflows.Base.{
  ℕ, ◌+◌, Bool, true, false, not, ◌&&◌, ◌||◌, Option, none, some, List, [], ◌∷◌, ◌++◌, ◌==◌, leb,
  if◌then◌else◌, is_nil, any, all, filter,
}
use ci_workflows.Base.Text.{Str, codes, str_eq, elem, starts_with, lower}
use ci_workflows.ModulePins.{Dict}

abbrev pub visibilities : List Str
visibilities = codes "public" ∷ codes "partner" ∷ codes "admin" ∷ codes "internal" ∷ []

abbrev pub http_methods : List Str
http_methods =
    codes "get"
    ∷ codes "post"
    ∷ codes "put"
    ∷ codes "patch"
    ∷ codes "delete"
    ∷ codes "options"
    ∷ codes "head"
    ∷ codes "trace"
    ∷ []

-- What is under a method: no object, or an operation with its id. No id and an empty one are the
-- same.
pub data Operation : Type 0 where
  no_operation : Operation
  operation : Str → Operation

-- The methods of each path that holds an object, in order; the version, "" where there is none.
pub record Spec : Type 0 where
  pub version : Str
  pub paths : List (Str × List (Str × Operation))

pub data SpecError : Type 0 where
  missing_id duplicate_id : Str → Str → SpecError
  not_camel_case no_context : Str → SpecError

-- Why `die` is called.
pub data Why : Type 0 where
  spec_missing lock_missing no_contexts_declared contexts_no_strings : Why
  bad_contexts : List Str → Why
  structure_failed : List SpecError → Why
  bad_version : Str → Why
  malformed_entry metadata_failed : Why
  version_differs : Str → Str → Why
  set_drifted : List Str → List Str → Why
  breaking not_minor : List Str → Why

pub data Result (A : Type 0) : Type 0 where
  died : Why → Result A
  ok : A → Result A

abbrev pub is_lower_letter : ℕ → Bool
is_lower_letter c = leb 97 c && leb c 122

abbrev pub is_upper_letter : ℕ → Bool
is_upper_letter c = leb 65 c && leb c 90

abbrev pub is_alphanumeric : ℕ → Bool
is_alphanumeric c = is_lower_letter c || (is_upper_letter c || (leb 48 c && leb c 57))

-- `[a-zA-Z0-9]*$`: the end may have a line feed before it.
unfoldable pub name_rest : Str → Bool
name_rest [] = true
name_rest (c ∷ s) = (is_alphanumeric c && name_rest s) || ((c == 10) && is_nil s)

-- `NAME_RE.match(name)`
unfoldable pub is_name : Str → Bool
unfolding name_rest
is_name [] = false
is_name (c ∷ s) = is_lower_letter c && name_rest s

-- What the lock declares: nothing, or nothing that counts; something else than texts; or texts.
pub data Contexts : Type 0 where
  undeclared no_strings : Contexts
  contexts : List Str → Contexts

unfoldable pub bounded_contexts : Contexts → Result (List Str)
bounded_contexts undeclared = died no_contexts_declared
bounded_contexts no_strings = died contexts_no_strings
bounded_contexts (contexts cs) =
    let bad = filter (λ c. not (is_name c)) cs in
    if is_nil cs
    then died no_contexts_declared
    else if is_nil bad
    then ok cs
    else died (bad_contexts bad)

-- `oid == ctx or (oid.startswith(ctx) and oid[len(ctx)].isupper())`, for a name
unfoldable pub continues : Str → Str → Bool
continues [] [] = true
continues [] (c ∷ oid) = is_upper_letter c
continues (k ∷ ctx) [] = false
continues (k ∷ ctx) (c ∷ oid) = (k == c) && continues ctx oid

-- `dict.__contains__`, and the keys
abbrev pub keys : {A : Type 0} → Dict A → List Str
keys [] = []
keys ((k, v) ∷ d) = k ∷ keys d

-- What the loop collects: the operations by id, with the path of each, and the errors.
pub record Found : Type 0 where
  pub ids : Dict Str
  pub errors : List SpecError

abbrev pub name_errors : List Str → Str → List SpecError
name_errors cs oid =
    if not (is_name oid)
    then not_camel_case oid ∷ []
    else if any (λ ctx. continues ctx oid) cs
    then []
    else no_context oid ∷ []

-- One operation of the loop.
unfoldable pub add_operation : List Str → Str → Str → Operation → Found → Found
add_operation cs path method no_operation f = f
add_operation cs path method (operation oid) f =
    if not (elem (lower method) http_methods)
    then f
    else if is_nil oid
    then record f { errors = f.errors ++ missing_id method path ∷ [] }
    else if elem oid (keys f.ids)
    then record f { errors = f.errors ++ duplicate_id oid method ∷ [] }
    else record { ids = f.ids ++ (oid, path) ∷ []; errors = f.errors ++ name_errors cs oid }

unfoldable pub add_methods : List Str → Str → List (Str × Operation) → Found → Found
add_methods cs path [] f = f
add_methods cs path ((method, op) ∷ ops) f =
    add_methods cs path ops (add_operation cs path method op f)

unfoldable pub add_paths : List Str → List (Str × List (Str × Operation)) → Found → Found
add_paths cs [] f = f
add_paths cs ((path, ops) ∷ paths) f = add_paths cs paths (add_methods cs path ops f)

unfoldable pub spec_operation_ids : Spec → List Str → Result (Dict Str)
spec_operation_ids spec cs =
    let f = add_paths cs spec.paths (record { ids = []; errors = [] }) in
    if is_nil f.errors then ok f.ids else died (structure_failed f.errors)

unfoldable pub derive_visibility : Str → Str
derive_visibility path =
    if starts_with (codes "/internal/platform/") path
    then codes "admin"
    else if starts_with (codes "/internal/") path
    then codes "internal"
    else codes "public"
