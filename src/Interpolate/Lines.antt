-- ===== src/Interpolate/Lines.antt =====
-- The lines of a document, crates/lagos-core/src/config/interpolate.rs: comments, block scalars and
-- the loop of `process`; what the callers make of it.
use lagos.Prelude.{
  ℕ, zero, suc, ◌-◌, ◌==◌, leb, if◌then◌else◌, Bool, true, false, not, ◌&&◌, ◌||◌, Option, none,
  some, List, [], ◌∷◌, ◌++◌, take, drop, Result, ok, ◌>>=◌,
}
use lagos.Text.{
  Text, codes, is_empty, byte_len, trim, trim_start, trim_end, split, rsplit_once, contains_text,
  ends_with_char, starts_with_char,
}
use lagos.Interpolate.{InterpolateError, Interpolated, VariableReference, Progress, expand_into}

-- The variables of the loop in `comment_start`.
pub record Quoting : Type 0 where
  pub in_single : Bool
  pub in_double : Bool
  pub prev_was_space : Bool
  pub escaped : Bool

unfoldable pub opens_comment : Quoting → ℕ → Bool
opens_comment q c =
    not q.escaped && c == b'#' && not q.in_single && not q.in_double && q.prev_was_space

unfoldable pub next_quoting : Quoting → ℕ → Quoting
next_quoting q c =
    if q.escaped then record q { escaped = false; prev_was_space = false } else record {
      in_single = if c == 0x27 && not q.in_double then not q.in_single else q.in_single;
      in_double = if c == b'"' && not q.in_single then not q.in_double else q.in_double;
      prev_was_space = c == b' ' || c == b'\t';
      escaped = c == 0x5c && q.in_double;
    }

-- The position of the comment, in characters.
unfoldable pub comment_from : ℕ → Quoting → Text → Option ℕ
unfolding opens_comment next_quoting
comment_from i q [] = none
comment_from i q (c ∷ cs) =
    let rest = comment_from (suc i) (next_quoting q c) cs in
    if opens_comment q c then some i else rest

unfoldable pub comment_start : Text → Option ℕ
unfolding comment_from
comment_start line =
    comment_from 0
      (record { in_single = false; in_double = false; prev_was_space = true; escaped = false }) line

unfoldable pub indent_of : Text → ℕ
unfolding byte_len trim_start
indent_of line = byte_len line - byte_len (trim_start line)

unfoldable pub is_block_marker : Text → Bool
is_block_marker r = starts_with_char b'|' r || starts_with_char b'>' r

unfoldable pub opens_block_scalar : Text → Bool
unfolding rsplit_once trim trim_end is_block_marker
opens_block_scalar code = elim (rsplit_once b':' (trim_end code)) [
  | some p ↦ is_block_marker (trim p.1)
  | none ↦ false
]

-- The block scalar that still stands at a line.
unfoldable pub leave_block : Option ℕ → Text → Option ℕ
unfolding indent_of trim
leave_block none raw_line = none
leave_block (some block_indent) raw_line =
    if not (is_empty (trim raw_line)) && leb (indent_of raw_line) block_indent
    then none
    else some block_indent

unfoldable pub split_comment : Option ℕ → Text → Text × Text
split_comment none raw_line = (raw_line, [])
split_comment (some i) raw_line = (take i raw_line, drop i raw_line)

unfoldable pub code_and_comment : Option ℕ → Text → Text × Text
unfolding comment_start split_comment
code_and_comment (some block_indent) raw_line = (raw_line, [])
code_and_comment none raw_line = split_comment (comment_start raw_line) raw_line

unfoldable pub enter_block : Option ℕ → Text → Text → Option ℕ
unfolding opens_block_scalar indent_of
enter_block (some block_indent) code raw_line = some block_indent
enter_block none code raw_line = if opens_block_scalar code then some (indent_of raw_line) else none

abbrev pub append : Text → Progress → Progress
append t p = record p { out = p.out ++ t }

-- What follows the expansion of the line's code.
unfoldable pub finish_line : Text → Bool → Progress → Progress
finish_line comment newline p = append (if newline then b'\n' ∷ [] else []) (append comment p)

-- The loop over the lines; `newline` is `ends_with_newline`.
unfoldable pub process_lines :
    (Text → Option Text)
    → Bool
    → List Text
    → ℕ
    → Option ℕ
    → Progress
    → Result Progress InterpolateError
unfolding leave_block code_and_comment enter_block finish_line expand_into
process_lines lookup newline [] line_no block p = ok p
process_lines lookup newline (raw_line ∷ lines) line_no block p =
    let outer = leave_block block raw_line in
    let parts = code_and_comment outer raw_line in
    do
      q ← expand_into lookup parts.0 line_no p
      process_lines lookup newline lines (suc line_no) (enter_block outer parts.0 raw_line)
          (finish_line parts.1 (not (is_empty lines) || newline) q)

-- `String::pop`
unfoldable pub pop : Text → Text
pop [] = []
pop (c ∷ []) = []
pop (c ∷ (d ∷ r)) = c ∷ pop (d ∷ r)

unfoldable pub finish : Bool → Progress → Interpolated × List VariableReference
unfolding pop
finish newline p = (
  record {
    text = if newline then pop p.out else p.out;
    referenced = p.exp.referenced;
    defaulted = p.exp.defaulted;
    placeheld = p.exp.placeheld;
  },
  p.exp.occurrences,
)

unfoldable pub start_of : Option (Text → Text) → Option Text → Progress
start_of fallback inspection_prefix = record {
  out = [];
  exp = record {
    fallback = fallback;
    referenced = [];
    defaulted = [];
    placeheld = [];
    inspection_prefix = inspection_prefix;
    occurrences = [];
  };
}

unfoldable pub process :
    Text
    → (Text → Option Text)
    → Option (Text → Text)
    → Option Text
    → Result (Interpolated × List VariableReference) InterpolateError
unfolding split process_lines finish start_of ends_with_char
process text lookup fallback inspection_prefix = do
  p ←
      process_lines lookup (ends_with_char b'\n' text) (split b'\n' text) 1 none
        (start_of fallback inspection_prefix)
  ok (finish (ends_with_char b'\n' text) p)

unfoldable pub interpolate_with_fallback :
    Text → (Text → Option Text) → Option (Text → Text) → Result Interpolated InterpolateError
unfolding process
interpolate_with_fallback text lookup fallback = do r ← process text lookup fallback none; ok r.0

unfoldable pub interpolate : Text → (Text → Option Text) → Result Interpolated InterpolateError
unfolding interpolate_with_fallback
interpolate text lookup = interpolate_with_fallback text lookup none

pub record Inspection : Type 0 where
  pub masked : Text
  pub references : List VariableReference

-- `while text.contains(&prefix) { prefix.push('x') }`, for at most `fuel` rounds.
unfoldable pub free_prefix : ℕ → Text → Text → Option Text
unfolding contains_text
free_prefix zero text prefix = none
free_prefix (suc fuel) text prefix = elim (contains_text text prefix) [
  | false ↦ some prefix
  | true ↦ free_prefix fuel text (prefix ++ b'x' ∷ [])
]

unfoldable pub inspection_of : Interpolated × List VariableReference → Inspection
inspection_of (expanded, references) = record { masked = expanded.text; references = references }

-- `inspect`, after the search for the prefix.
unfoldable pub inspect_with :
    Text → (Text → Option Text) → Text → Result Inspection InterpolateError
unfolding process inspection_of
inspect_with text lookup prefix = do
  r ← process text lookup none (some prefix)
  ok (inspection_of r)

-- `inspect`, with `none` where the fuel does not suffice for the search.
unfoldable pub inspect_from :
    Text → (Text → Option Text) → Option Text → Option (Result Inspection InterpolateError)
unfolding inspect_with
inspect_from text lookup none = none
inspect_from text lookup (some prefix) = some (inspect_with text lookup prefix)

unfoldable pub inspect :
    ℕ → Text → (Text → Option Text) → Option (Result Inspection InterpolateError)
unfolding free_prefix inspect_from
inspect fuel text lookup =
    inspect_from text lookup (free_prefix fuel text (codes "lagos-vars-placeholder-"))
