-- ===== src/Shlex.antt =====
-- Python's `shlex.split(s)`, which scripts/docs-only-diff.py calls on the rest of a directive.
use ci_workflows.Base.{
  ℕ, Bool, true, false, ◌&&◌, ◌||◌, not, Option, none, some, List, [], ◌∷◌, ◌++◌, ◌==◌,
  if◌then◌else◌, is_nil,
}
use ci_workflows.Base.Text.{Str}

-- Between words, in a word, within quotes of a kind, or behind a backslash, with the quote that it
-- stands in, if any.
pub data Mode : Type 0 where
  between word : Mode
  quoted : ℕ → Mode
  escaped : Option ℕ → Mode

-- The token so far, and whether a quote was opened in it: `""` is a word, too.
pub record State : Type 0 where
  pub mode : Mode
  pub token : Str
  pub was_quoted : Bool

abbrev pub start : State
start = record { mode = between; token = []; was_quoted = false }

unfoldable pub is_blank : ℕ → Bool
is_blank c = (c == b' ') || ((c == 9) || ((c == 13) || (c == 10)))

is_quote : ℕ → Bool
is_quote c = (c == b'"') || (c == 39)

-- The token that ends here, if there is one.
unfoldable pub finish : State → List Str
finish st = if is_nil st.token && not st.was_quoted then [] else st.token ∷ []

add : ℕ → Mode → State → State
add c m st = record st { mode = m; token = st.token ++ c ∷ [] }

-- One character outside quotes.
plain_step : ℕ → State → List Str × State
plain_step c st =
    if is_blank c
    then (finish st, start)
    else if is_quote c
    then ([], record st { mode = quoted c; was_quoted = true })
    else if c == b'\\'
    then ([], record st { mode = escaped none })
    else ([], add c word st)

quoted_step : ℕ → ℕ → State → List Str × State
quoted_step q c st =
    if c == q
    then ([], record st { mode = word })
    else if (c == b'\\') && (q == b'"')
    then ([], record st { mode = escaped (some q) })
    else ([], add c (quoted q) st)

-- Within quotes a backslash is dropped before a backslash and before the quote alone.
escaped_step : Option ℕ → ℕ → State → List Str × State
escaped_step none c st = ([], add c word st)
escaped_step (some q) c st =
    if (c == b'\\') || (c == q)
    then ([], add c (quoted q) st)
    else ([], add c (quoted q) (add b'\\' (quoted q) st))

step : Mode → ℕ → State → List Str × State
unfolding plain_step quoted_step escaped_step is_blank is_quote finish add
step between c st = plain_step c st
step word c st = plain_step c st
step (quoted q) c st = quoted_step q c st
step (escaped q) c st = escaped_step q c st

-- The end of the text within quotes or behind a backslash is a `ValueError`.
at_end : Mode → State → Option (List Str)
unfolding finish
at_end between st = some (finish st)
at_end word st = some (finish st)
at_end (quoted q) st = none
at_end (escaped q) st = none

unfoldable pub prepend : List Str → Option (List Str) → Option (List Str)
prepend ws none = none
prepend ws (some vs) = some (ws ++ vs)

unfoldable pub scan : Str → State → Option (List Str)
unfolding step at_end prepend
scan [] st = at_end st.mode st
scan (c ∷ s) st = let (ws, st') = step st.mode c st in prepend ws (scan s st')

unfoldable pub split : Str → Option (List Str)
unfolding scan
split s = scan s start
