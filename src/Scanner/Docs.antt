-- ===== src/Scanner/Docs.antt =====
-- lib/scanner.c: the comment in front of a field or a member.
use libvarlink.Prelude.{ℕ, List, [], ◌∷◌, ◌++◌, ◌||◌, Option, none, some, ◌==◌, if◌then◌else◌, drop}
use libvarlink.Scanner.{Scanner, scanner_advance}

-- Where the loop of `scanner_get_last_docstring` stands: in front of a line, behind the `#`, in the
-- text of a comment, or behind the comments.
pub data DocPlace : Type 0 where
  line_start behind_hash in_comment finished : DocPlace

-- A byte that the loop passes: where it stands then, and what it writes.
unfoldable pub doc_step : DocPlace → ℕ → DocPlace × List ℕ
doc_step finished c = (finished, [])
doc_step line_start c =
    if c == b'#'
    then (behind_hash, [])
    else if c == b' ' || c == b'\t'
    then (line_start, [])
    else (finished, [])
doc_step behind_hash c =
    if c == b' '
    then (in_comment, [])
    else if c == b'\n'
    then (line_start, c ∷ [])
    else (in_comment, c ∷ [])
doc_step in_comment c = if c == b'\n' then (line_start, c ∷ []) else (in_comment, c ∷ [])

abbrev pub prepend : List ℕ → Option (List ℕ) → Option (List ℕ)
prepend out none = none
prepend out (some rest) = some (out ++ rest)

-- The docstring, or `none` where a comment goes to the end of the text: there `p += 1` steps over
-- the final NUL, and the loop reads on behind it.
unfoldable pub docstring_from : DocPlace → List ℕ → Option (List ℕ)
docstring_from line_start [] = some []
docstring_from finished [] = some []
docstring_from behind_hash [] = none
docstring_from in_comment [] = none
docstring_from place (c ∷ cs) =
    let (next, out) = doc_step place c in prepend out (docstring_from next cs)

-- What a call returns: no docstring, one, or that it reads behind the text.
pub data Docstring : Type 0 where
  no_docstring : Docstring
  docstring : List ℕ → Docstring
  out_of_bounds : Docstring

abbrev pub found_docstring : Option (List ℕ) → Docstring
found_docstring none = out_of_bounds
found_docstring (some d) = docstring d

abbrev pub docstring_at : Scanner → Option ℕ → Scanner × Docstring
docstring_at s none = (s, no_docstring)
docstring_at s (some start) = (
  record s { last_comment_start = none },
  found_docstring (docstring_from line_start (drop start s.string)),
)

unfoldable pub scanner_get_last_docstring : Scanner → Scanner × Docstring
scanner_get_last_docstring s = let t = scanner_advance s in docstring_at t t.last_comment_start
