-- ===== src/Interpolate/Markers.antt =====
-- The markers of an inspection, crates/lagos-core/src/config/interpolate.rs.
use lagos.Prelude.{
  ℕ, suc, ◌≡◌, ◌≢◌, refl, ap, Bool, not, Option, none, some, List, [], ◌∷◌, ◌++◌, All, length,
  length-append, ok, bind-eq-ok, result_inj, arith,
}
use lagos.Text.Decimal.{decimal}
use lagos.Text.{Text, codes, is_empty, split, ends_with_char}
use lagos.Interpolate.{
  empty_name, bad_name, VariableReference, Progress, is_valid_name, marker_of, mask, substitute,
  non_blank, reference,
}
use lagos.Interpolate.Invariants.{
  All-trivial, Ensures, Ensures-ok, Ensures-err, Ensures-if, Ensures-bind, expand_into-Ensures,
}
use lagos.Interpolate.Lines.{
  Inspection, leave_block, code_and_comment, finish_line, process_lines, process, finish, start_of,
  inspection_of, inspect_with,
}
use lagos.Interpolate.Resolving.{HasMarker, resolve_from_finishes, resolve_scalar}

marker-ne-nil : (prefix : Text) (n : ℕ) → marker_of prefix n ≢ []
unfolding marker_of
marker-ne-nil prefix n e =
    let l : length (prefix ++ (decimal n ++ codes "-end")) ≡ 0 = ap length e in
    absurd (
      omega (
        arith,
        length-append prefix (decimal n ++ codes "-end"),
        length-append (decimal n) (codes "-end"),
      ))

All-last :
    (rs : List VariableReference) (r : VariableReference)
    → All HasMarker rs
    → HasMarker r
    → All HasMarker (rs ++ r ∷ [])
All-last [] r h m = (m, tt)
All-last (x ∷ rs) r (n, h) m = (n, All-last rs r h m)

-- The document is inspected, and every reference so far has a marker.
abbrev Marked : Text → Progress → Type 0
Marked prefix p = (p.exp.inspection_prefix ≡ some prefix) × All HasMarker p.exp.occurrences

substitute-Marked :
    (prefix : Text) (o : Option Text) (name : Text) (line column : ℕ)
    (default resolved : Option Text) (p : Progress)
    → o ≡ some prefix
    → Marked prefix p
    → Ensures (Marked prefix) (substitute o name line column default resolved p)
unfolding substitute mask
substitute-Marked prefix none name line column default resolved p e h q k = cc
substitute-Marked prefix (some given) name line column default resolved p e (i, h) q k =
    Ensures-ok (Marked prefix) (mask given name line column default resolved p)
      (i, All-last p.exp.occurrences _ h (marker-ne-nil given (length p.exp.occurrences))) q k

reference-Marked :
    (lookup : Text → Option Text) (prefix : Text) (line column : ℕ) (body : Text × Option Text)
    (p : Progress)
    → Marked prefix p
    → Ensures (Marked prefix) (reference lookup line column body p)
unfolding reference
reference-Marked lookup prefix line column (name, default) p h =
    Ensures-if (Marked prefix) (is_empty name) _ _
      (λ t. Ensures-err (Marked prefix) (empty_name line))
      (λ t.
        Ensures-if (Marked prefix) (not (is_valid_name name)) _ _
          (λ u. Ensures-err (Marked prefix) (bad_name name line))
          (λ u.
            substitute-Marked prefix p.exp.inspection_prefix name line column default
              (non_blank (lookup name)) _ h.0 h))

process_lines-Marked :
    (lookup : Text → Option Text) (prefix : Text) (newline : Bool) (lines : List Text) (line_no : ℕ)
    (block : Option ℕ) (p : Progress)
    → Marked prefix p
    → Ensures (Marked prefix) (process_lines lookup newline lines line_no block p)
unfolding process_lines finish_line
process_lines-Marked lookup prefix newline [] line_no block p h = Ensures-ok (Marked prefix) p h
process_lines-Marked lookup prefix newline (line ∷ lines) line_no block p h =
    let code = (code_and_comment (leave_block block line) line).0 in
    Ensures-bind (Marked prefix) (Marked prefix) _ _
      (expand_into-Ensures lookup (Marked prefix) (λ c. Unit {0}) tt (λ c q u k. k)
        (reference-Marked lookup prefix) code line_no p (All-trivial code) h)
      (λ v k. process_lines-Marked lookup prefix newline lines (suc line_no) _ _ k)

-- The loop that puts values into a scalar ends for every inspected document and every scalar: one
-- round more than the scalar has characters is enough.
pub resolve_scalar_finishes :
    (text : Text) (lookup : Text → Option Text) (prefix : Text) (i : Inspection) (scalar : Text)
    → inspect_with text lookup prefix ≡ ok i
    → (r : Option Text) × (resolve_scalar (suc (length scalar)) i scalar ≡ some r)
unfolding inspect_with process start_of finish inspection_of resolve_scalar
resolve_scalar_finishes text lookup prefix i scalar e =
    let (s, a, b) =
      bind-eq-ok (process text lookup none (some prefix)) (λ s. ok (inspection_of s)) e in
    let (q, c, d) =
      bind-eq-ok
        (process_lines lookup (ends_with_char b'\n' text) (split b'\n' text) 1 none
          (start_of none (some prefix)))
        _ a in
    let h =
      process_lines-Marked lookup prefix (ends_with_char b'\n' text) (split b'\n' text) 1 none
        (start_of none (some prefix)) (refl, tt) q c in
    rw (← result_inj b, ← result_inj d)
      (resolve_from_finishes (suc (length scalar)) q.exp.occurrences scalar [] h.1 (omega arith))
