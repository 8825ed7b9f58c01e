-- ===== src/Interpolate/Inspecting.antt =====
-- Inspection of a whole document under two environments,
-- crates/lagos-core/src/config/interpolate.rs.
use lagos.Prelude.{
  ℕ, suc, ◌≡◌, refl, ap, ◌∙◌, Bool, not, ◌||◌, Option, none, some, List, [], ◌∷◌, map, Result, ok,
  err, ◌>>=◌,
}
use lagos.Text.{Text, codes, is_empty, split, ends_with_char}
use lagos.Interpolate.{InterpolateError, Progress, expand_into}
use lagos.Interpolate.Invariants.{All-trivial, ok_inj, Ensures, expand_into-Ensures}
use lagos.Interpolate.Masking.{
  hide, hide_progress, hide_result, hide_bind, reference-keeps, expand_from-hide,
}
use lagos.Interpolate.Lines.{
  leave_block, code_and_comment, enter_block, finish_line, process_lines, process, finish, start_of,
  Inspection, inspection_of, inspect_with, free_prefix, inspect_from, inspect,
}

-- An inspection, less what the environment decides of it: whether a variable is set, and its value.
abbrev pub hide_inspection : Inspection → Inspection
hide_inspection i = record i { references = map hide i.references }

abbrev pub shown :
    Option (Result Inspection InterpolateError) → Option (Result Inspection InterpolateError)
shown none = none
shown (some (ok i)) = some (ok (hide_inspection i))
shown (some (err e)) = some (err e)

module _ (here there : Text → Option Text) (prefix : Text) where
  expand_into-keeps :
      (lookup : Text → Option Text) (fragment : Text) (line : ℕ) (p : Progress)
      → p.exp.inspection_prefix ≡ some prefix
      → Ensures (λ q. q.exp.inspection_prefix ≡ some prefix) (expand_into lookup fragment line p)
  expand_into-keeps lookup fragment line p m =
      expand_into-Ensures lookup (λ q. q.exp.inspection_prefix ≡ some prefix) (λ c. Unit {0}) tt
        (λ c q u h. h)
        (λ l column body q h r e. reference-keeps lookup lookup l column body q r (prefix, h) e ∙ h)
        fragment line p (All-trivial fragment) m

  process_lines-hide :
      (newline : Bool) (lines : List Text) (line_no : ℕ) (block : Option ℕ) (p q : Progress)
      → p.exp.inspection_prefix ≡ some prefix
      → q.exp.inspection_prefix ≡ some prefix
      → hide_progress p ≡ hide_progress q
      → hide_result (process_lines here newline lines line_no block p)
        ≡ hide_result (process_lines there newline lines line_no block q)
  unfolding process_lines expand_into finish_line
  process_lines-hide newline [] line_no block p q m n e = ap (λ (r : Progress). ok r) e
  process_lines-hide newline (raw_line ∷ lines) line_no block p q m n e =
      let outer = leave_block block raw_line in
      let parts = code_and_comment outer raw_line in
      hide_bind (expand_into here parts.0 line_no p) (expand_into there parts.0 line_no q) _ _
        (expand_from-hide here there line_no 0 parts.0 p q (prefix, m) (prefix, n) e)
        (λ v w h k f.
          process_lines-hide newline lines (suc line_no) (enter_block outer parts.0 raw_line) _ _
            (expand_into-keeps here parts.0 line_no p m v h)
            (expand_into-keeps there parts.0 line_no q n w k)
            (ap (finish_line parts.1 (not (is_empty lines) || newline)) f))

finish-shown :
    (newline : Bool) (m n : Result Progress InterpolateError)
    → hide_result m ≡ hide_result n
    → shown (some (m >>= λ p. ok (finish newline p) >>= λ r. ok (inspection_of r)))
      ≡ shown (some (n >>= λ p. ok (finish newline p) >>= λ r. ok (inspection_of r)))
unfolding finish inspection_of
finish-shown newline (ok p) (ok q) e =
    ap (λ (r : Progress). some (ok (inspection_of (finish newline r)))) (ok_inj e)
finish-shown newline (ok p) (err b) e = cc
finish-shown newline (err a) (ok q) e = cc
finish-shown newline (err a) (err b) e = cc

bind_assoc :
    {A B C E : Type 0} (m : Result A E) (f : A → Result B E) (g : B → Result C E)
    → (m >>= f) >>= g ≡ (m >>= λ a. f a >>= g)
bind_assoc (ok a) f g = refl
bind_assoc (err e) f g = refl

inspect_with-shown :
    (text : Text) (here there : Text → Option Text) (prefix : Text)
    → shown (some (inspect_with text here prefix)) ≡ shown (some (inspect_with text there prefix))
unfolding inspect_with process start_of
inspect_with-shown text here there prefix =
    let newline = ends_with_char b'\n' text in
    let from = start_of none (some prefix) in
    rw
      (
        bind_assoc (process_lines here newline (split b'\n' text) 1 none from) _ _,
        bind_assoc (process_lines there newline (split b'\n' text) 1 none from) _ _,
      )
      (finish-shown newline (process_lines here newline (split b'\n' text) 1 none from)
        (process_lines there newline (split b'\n' text) 1 none from)
        (process_lines-hide here there prefix newline (split b'\n' text) 1 none from from refl refl
          refl))

inspect_from-shown :
    (text : Text) (here there : Text → Option Text) (prefix : Option Text)
    → shown (inspect_from text here prefix) ≡ shown (inspect_from text there prefix)
unfolding inspect_from
inspect_from-shown text here there none = refl
inspect_from-shown text here there (some prefix) = inspect_with-shown text here there prefix

-- Whatever the environment holds, inspecting a document gives the same masked text, the same
-- references with their names, positions and markers, or the same error: only the state and the
-- selected value of a reference can differ.
pub inspect_reveals_nothing :
    (fuel : ℕ) (text : Text) (here there : Text → Option Text)
    → shown (inspect fuel text here) ≡ shown (inspect fuel text there)
unfolding inspect
inspect_reveals_nothing fuel text here there =
    inspect_from-shown text here there (free_prefix fuel text (codes "lagos-vars-placeholder-"))
