-- ===== src/Interpolate/Newlines.antt =====
-- The lines of the expanded text, crates/lagos-core/src/config/interpolate.rs.
use lagos.Prelude.{
  result_inj, ℕ, suc, ◌+◌, ◌≡◌, ◌≢◌, refl, ap, sym, ◌∙◌, if◌then◌else◌, Bool, true, false, not,
  Option, none, some, List, [], ◌∷◌, ◌++◌, any, All, length, ok, bind-eq-ok, arith,
}
use lagos.Text.{Text, is_empty, is_control, split, ends_with_char}
use lagos.Text.Counting.{count, count-append, count_of_Lacks, length-split, All-take, All-drop}
use lagos.Text.Splitting.{split-Lacks, split-ne-nil, Lacks}
use lagos.Interpolate.{
  control_character, empty_name, bad_name, Interpolated, VariableReference, Progress, push,
  is_structurally_safe, is_valid_name, choose_fallback, choose, Expansion, write_value, substitute,
  non_blank, reference, expand_into,
}
use lagos.Interpolate.Invariants.{
  Ensures, Ensures-ok, Ensures-err, Ensures-if, Ensures-bind, expand_into-Ensures,
}
use lagos.Interpolate.Lines.{
  leave_block, comment_start, split_comment, code_and_comment, finish_line, process_lines, process,
  finish, start_of, interpolate_with_fallback, pop,
}

count_of_safe : (v : Text) → any is_control v ≡ false → count b'\n' v ≡ 0
count_of_safe [] h = refl
count_of_safe (x ∷ xs) h = ground (arith, count_of_safe xs)

-- The text written so far has `n` line ends, and the expansion substitutes.
abbrev Ends : ℕ → Progress → Type 0
Ends n p = (count b'\n' p.out ≡ n) × (p.exp.inspection_prefix ≡ none)

choose_fallback-keeps :
    (f : Option (Text → Text)) (name : Text) (line : ℕ) (exp : Expansion) (s : Text × Expansion)
    → choose_fallback f name line exp ≡ ok s
    → s.1.inspection_prefix ≡ exp.inspection_prefix
unfolding choose_fallback
choose_fallback-keeps none name line exp s h = cc
choose_fallback-keeps (some f) name line exp (v, e) h = cc

choose-keeps :
    (name : Text) (line : ℕ) (resolved default : Option Text) (exp : Expansion)
    (s : Text × Expansion)
    → choose name line resolved default exp ≡ ok s
    → s.1.inspection_prefix ≡ exp.inspection_prefix
unfolding choose
choose-keeps name line (some v) default exp (w, e) h = cc
choose-keeps name line none (some d) exp (w, e) h = cc
choose-keeps name line none none exp s h = choose_fallback-keeps exp.fallback name line exp s h

write_value-Ends :
    (name : Text) (line n : ℕ) (out : Text) (s : Text × Expansion)
    → count b'\n' out ≡ n
    → s.1.inspection_prefix ≡ none
    → Ensures (Ends n) (write_value name line out s)
unfolding write_value is_structurally_safe
write_value-Ends name line n out (v, e) h m =
    Ensures-if (Ends n) (not (not (any is_control v))) _ _
      (λ t. Ensures-err (Ends n) (control_character name line))
      (λ t.
        Ensures-ok (Ends n) (record { out = out ++ v; exp = e })
          (omega (arith, h, count-append b'\n' out v, count_of_safe v (ground arith)), m))

substitute-Ends :
    (o : Option Text) (name : Text) (line column n : ℕ) (default resolved : Option Text)
    (p : Progress)
    → o ≡ none
    → Ends n p
    → Ensures (Ends n) (substitute o name line column default resolved p)
unfolding substitute
substitute-Ends (some prefix) name line column n default resolved p e h q k = absurd (cc)
substitute-Ends none name line column n default resolved p e (h, m) q k =
    let (s, a, b) = bind-eq-ok (choose name line resolved default p.exp) _ k in
    write_value-Ends name line n p.out s h (choose-keeps name line resolved default p.exp s a ∙ m) q
      b

reference-Ends :
    (lookup : Text → Option Text) (n line column : ℕ) (body : Text × Option Text) (p : Progress)
    → Ends n p
    → Ensures (Ends n) (reference lookup line column body p)
unfolding reference
reference-Ends lookup n line column (name, default) p (h, m) =
    Ensures-if (Ends n) (is_empty name) _ _ (λ t. Ensures-err (Ends n) (empty_name line))
      (λ t.
        Ensures-if (Ends n) (not (is_valid_name name)) _ _
          (λ u. Ensures-err (Ends n) (bad_name name line))
          (λ u.
            substitute-Ends p.exp.inspection_prefix name line column n default
              (non_blank (lookup name)) _ m (h, m)))

push-Ends : (n c : ℕ) (p : Progress) → c ≢ b'\n' → Ends n p → Ends n (push c p)
push-Ends n c p d (h, m) = (ground (arith, count-append b'\n' p.out (c ∷ [])), m)

expand_into-Ends :
    (lookup : Text → Option Text) (fragment : Text) (n line : ℕ) (p : Progress)
    → Lacks b'\n' fragment
    → Ends n p
    → Ensures (Ends n) (expand_into lookup fragment line p)
expand_into-Ends lookup fragment n line p l h =
    expand_into-Ensures lookup (Ends n) (λ c. c ≢ b'\n') (λ e. absurd (omega (arith, e)))
      (λ c q d k. push-Ends n c q d k) (reference-Ends lookup n) fragment line p l h

pub pop-append : (t : Text) (c : ℕ) → pop (t ++ c ∷ []) ≡ t
unfolding pop
pop-append [] c = refl
pop-append (x ∷ []) c = refl
pop-append (x ∷ (y ∷ r)) c = ap (λ (u : Text). x ∷ u) (pop-append (y ∷ r) c)

split_comment-Lacks :
    (o : Option ℕ) (line : Text)
    → Lacks b'\n' line
    → Lacks b'\n' (split_comment o line).0 × Lacks b'\n' (split_comment o line).1
unfolding split_comment
split_comment-Lacks none line h = (h, tt)
split_comment-Lacks (some i) line h = (All-take b'\n' i line h, All-drop b'\n' i line h)

code_and_comment-Lacks :
    (block : Option ℕ) (line : Text)
    → Lacks b'\n' line
    → Lacks b'\n' (code_and_comment block line).0 × Lacks b'\n' (code_and_comment block line).1
unfolding code_and_comment
code_and_comment-Lacks (some i) line h = (h, tt)
code_and_comment-Lacks none line h = split_comment-Lacks (comment_start line) line h

count-finish_line :
    (comment : Text) (newline : Bool) (n : ℕ) (p : Progress)
    → Lacks b'\n' comment
    → Ends n p
    → Ends (if newline then suc n else n) (finish_line comment newline p)
unfolding finish_line
count-finish_line comment true n p l (h, m) = (
  ground (
    arith,
    count_of_Lacks b'\n' comment l,
    count-append b'\n' p.out comment,
    count-append b'\n' (p.out ++ comment) (b'\n' ∷ []),
  ),
  m,
)
count-finish_line comment false n p l (h, m) = (
  ground (
    arith,
    count_of_Lacks b'\n' comment l,
    count-append b'\n' p.out comment,
    count-append b'\n' (p.out ++ comment) [],
  ),
  m,
)

abbrev pub written : Bool → Progress → Text
written newline p = if newline then pop p.out else p.out

-- Before the last line end is taken off.
count-written :
    (comment : Text) (newline : Bool) (n : ℕ) (p : Progress)
    → Lacks b'\n' comment
    → Ends n p
    → count b'\n' (written newline (finish_line comment newline p)) ≡ n
unfolding finish_line
count-written comment true n p l (h, m) =
    rw (pop-append (p.out ++ comment) b'\n')
      (ground (arith, count_of_Lacks b'\n' comment l, count-append b'\n' p.out comment))
count-written comment false n p l h = (count-finish_line comment false n p l h).0

process_lines-count :
    (lookup : Text → Option Text) (newline : Bool) (line : Text) (lines : List Text) (n line_no : ℕ)
    (block : Option ℕ) (p : Progress)
    → All (Lacks b'\n') (line ∷ lines)
    → Ends n p
    → Ensures
        (λ q. count b'\n' (written newline q) ≡ n + length lines)
        (process_lines lookup newline (line ∷ lines) line_no block p)
unfolding process_lines
process_lines-count lookup newline line [] n line_no block p (l, _) h =
    let parts = code_and_comment-Lacks (leave_block block line) line l in
    Ensures-bind (Ends n) (λ q. count b'\n' (written newline q) ≡ n + 0) _ _
      (expand_into-Ends lookup _ n line_no p parts.0 h)
      (λ v k.
        Ensures-ok (λ q. count b'\n' (written newline q) ≡ n + 0) _
          (omega (arith, count-written _ newline n v parts.1 k)))
process_lines-count lookup newline line (next ∷ more) n line_no block p (l, ls) h =
    let parts = code_and_comment-Lacks (leave_block block line) line l in
    Ensures-bind (Ends n) (λ q. count b'\n' (written newline q) ≡ n + suc (length more)) _ _
      (expand_into-Ends lookup _ n line_no p parts.0 h)
      (λ v k q e.
        process_lines-count lookup newline next more (suc n) (suc line_no) _ _ ls
          (count-finish_line _ true n v parts.1 k) q e
        ∙ omega arith)

lines_kept :
    (lookup : Text → Option Text) (newline : Bool) (lines : List Text) (p : Progress)
    → lines ≢ []
    → All (Lacks b'\n') lines
    → Ends 0 p
    → Ensures
        (λ q. suc (count b'\n' (written newline q)) ≡ length lines)
        (process_lines lookup newline lines 1 none p)
lines_kept lookup newline [] p ne ls h q e = absurd (ne refl)
lines_kept lookup newline (line ∷ lines) p ne ls h q e =
    omega (arith, process_lines-count lookup newline line lines 0 1 none p ls h q e)

-- A document that expands has as many lines as before, whatever the environment and the fallback
-- put into it: no value adds a line, and none is lost.
pub expansion_keeps_lines :
    (text : Text) (lookup : Text → Option Text) (fallback : Option (Text → Text)) (r : Interpolated)
    → interpolate_with_fallback text lookup fallback ≡ ok r
    → length (split b'\n' r.text) ≡ length (split b'\n' text)
unfolding interpolate_with_fallback process start_of finish
expansion_keeps_lines text lookup fallback r e =
    let (s, a, b) = bind-eq-ok (process text lookup fallback none) (λ s. ok s.0) e in
    let (q, c, d) =
      bind-eq-ok
        (process_lines lookup (ends_with_char b'\n' text) (split b'\n' text) 1 none
          (start_of fallback none))
        _ a in
    let t : s ≡ finish (ends_with_char b'\n' text) q = sym (result_inj d) in
    let u : r.text ≡ written (ends_with_char b'\n' text) q =
      sym (ap (λ (i : Interpolated). i.text) (result_inj b))
      ∙ ap (λ (v : Interpolated × List VariableReference). v.0.text) t in
    length-split b'\n' r.text
    ∙ rw u (
        lines_kept lookup (ends_with_char b'\n' text) (split b'\n' text) (start_of fallback none)
          (split-ne-nil b'\n' text) (split-Lacks b'\n' text) (refl, refl) q c)
