-- ===== src/PosixPath.antt =====
-- `os.path.join` and `os.path.normpath` on POSIX, for two parts, and `PurePosixPath.name`.
use ci_workflows.Base.{
  Bool, ◌&&◌, ◌||◌, not, List, [], ◌∷◌, ◌++◌, reverse, if◌then◌else◌, is_nil, last_or, filter,
}
use ci_workflows.Base.Text.{Str, codes, str_eq, starts_with, ends_with, split_on}

-- `"/".join(parts)`
unfoldable pub join_slash : List Str → Str
join_slash [] = []
join_slash (p ∷ []) = p
join_slash (p ∷ q ∷ ps) = p ++ b'/' ∷ join_slash (q ∷ ps)

unfoldable pub join : Str → Str → Str
join a b =
    if starts_with (codes "/") b
    then b
    else if is_nil a || ends_with (codes "/") a
    then a ++ b
    else a ++ b'/' ∷ b

-- A leading `//` that is no `///` is kept.
unfoldable pub initial_slashes : Str → Str
initial_slashes path =
    if not (starts_with (codes "/") path)
    then []
    else if starts_with (codes "//") path && not (starts_with (codes "///") path)
    then codes "//"
    else codes "/"

-- The stack of components, the last one on top.
push : Bool → Str → List Str → List Str
push rooted comp [] = if str_eq comp (codes "..") && rooted then [] else comp ∷ []
push rooted comp (top ∷ stack) =
    if not (str_eq comp (codes "..")) || str_eq top (codes "..") then comp ∷ top ∷ stack else stack

unfoldable pub collapse : Bool → List Str → List Str → List Str
unfolding push
collapse rooted stack [] = reverse stack
collapse rooted stack (comp ∷ comps) =
    collapse rooted
      (if is_nil comp || str_eq comp (codes ".") then stack else push rooted comp stack) comps

unfoldable pub normpath : Str → Str
unfolding join_slash initial_slashes collapse
normpath path =
    let slashes = initial_slashes path in
    let result = slashes ++ join_slash (collapse (not (is_nil slashes)) [] (split_on b'/' path)) in
    if is_nil path || is_nil result then codes "." else result

-- `Path(p).name`
unfoldable pub path_name : Str → Str
path_name p =
    last_or [] (filter (λ part. not (is_nil part || str_eq part (codes "."))) (split_on b'/' p))
