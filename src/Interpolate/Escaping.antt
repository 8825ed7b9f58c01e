-- ===== src/Interpolate/Escaping.antt =====
-- Writing text that expansion gives back, crates/lagos-core/src/config/interpolate.rs.
use mathlib.Core.List.{append-nil, append_assoc}
use lagos.Prelude.{
  ℕ, suc, ◌==◌, ◌≡◌, ◌≢◌, refl, ap, sym, ◌∙◌, if◌then◌else◌, Bool, true, false, not, ◌||◌, Option,
  none, some, List, [], ◌∷◌, ◌++◌, map, All, ok, Bool-cases, inl, inr, arith, if_cases,
}
use lagos.Text.{Text, is_empty, split, join, cons_head, ends_with_char}
use lagos.Text.Splitting.{Lacks, EachChar-split, join-split, split-ne-nil}
use lagos.Interpolate.{Progress, push, expand_from, expand_into}
use lagos.Interpolate.Newlines.{pop-append}
use lagos.Interpolate.Steps.{from_end, from_last, from_escape, from_plain}
use lagos.Interpolate.Lines.{
  Quoting, opens_comment, next_quoting, comment_from, comment_start, split_comment, leave_block,
  code_and_comment, enter_block, finish_line, process_lines, process, finish, start_of,
  interpolate_with_fallback, pop, append,
}

-- `$$` for each `$`, so that no text is read as a reference.
unfoldable pub escape_dollars : Text → Text
escape_dollars [] = []
escape_dollars (c ∷ cs) =
    let rest = escape_dollars cs in if c == b'$' then b'$' ∷ (b'$' ∷ rest) else c ∷ rest

module _ (lookup : Text → Option Text) where
  from_other :
      (line offset c : ℕ) (t : Text) (p : Progress)
      → (c == b'$') ≡ false
      → expand_from lookup line offset (c ∷ t) p ≡ expand_from lookup line (suc offset) t (push c p)
  from_other line offset c [] p e =
      from_last lookup line offset p c ∙ sym (from_end lookup line (suc offset) (push c p))
  from_other line offset c (d ∷ rest) p e = from_plain lookup line offset c d rest p e

  expand_from-escape :
      (line offset : ℕ) (t : Text) (p : Progress)
      → expand_from lookup line offset (escape_dollars t) p ≡ ok (append t p)
  unfolding escape_dollars
  expand_from-escape line offset [] p = from_end lookup line offset p ∙ rw (append-nil p.out) refl
  expand_from-escape line offset (c ∷ cs) p = elim (Bool-cases (c == b'$')) [
    | inl e ↦
        rw
          (
            e,
            escape_dollars,
            from_escape lookup line offset b'$' b'$' (escape_dollars cs) p refl refl,
          )
          (let q : b'$' ≡ c = ground arith in
            expand_from-escape line (suc (suc offset)) cs (push b'$' p)
            ∙ ap (λ (o : Text). ok (record p { out = o }))
                (append_assoc p.out (b'$' ∷ []) cs ∙ ap (λ (k : ℕ). p.out ++ k ∷ cs) q))
    | inr e ↦
        rw (e, escape_dollars, from_other line offset c (escape_dollars cs) p e)
          (expand_from-escape line (suc offset) cs (push c p)
            ∙ ap (λ (o : Text). ok (record p { out = o })) (append_assoc p.out (c ∷ []) cs))
  ]

escape-Lacks : (c : ℕ) (t : Text) → c ≢ b'$' → Lacks c t → Lacks c (escape_dollars t)
unfolding escape_dollars
escape-Lacks c [] n h = tt
escape-Lacks c (x ∷ xs) n (m, h) =
    if_cases (Lacks c) _ _ (x == b'$')
      (λ e. (λ f. n (sym f), (λ f. n (sym f), escape-Lacks c xs n h)))
      (λ e. (m, escape-Lacks c xs n h))

map-cons_head :
    (x : ℕ) (parts : List Text)
    → parts ≢ []
    → (x == b'$') ≡ false
    → map escape_dollars (cons_head x parts) ≡ cons_head x (map escape_dollars parts)
unfolding escape_dollars cons_head
map-cons_head x [] n e = absurd (n refl)
map-cons_head x (part ∷ parts) n e = rw e refl

map-cons_head_dollar :
    (parts : List Text)
    → parts ≢ []
    → map escape_dollars (cons_head b'$' parts)
      ≡ cons_head b'$' (cons_head b'$' (map escape_dollars parts))
unfolding escape_dollars cons_head
map-cons_head_dollar [] n = absurd (n refl)
map-cons_head_dollar (part ∷ parts) n = refl

split-escape : (t : Text) → split b'\n' (escape_dollars t) ≡ map escape_dollars (split b'\n' t)
unfolding split escape_dollars
split-escape [] = refl
split-escape (x ∷ xs) = elim (Bool-cases (x == b'$')) [
  | inl e ↦
      let q : x ≡ b'$' = ground arith in
      rw (q, split-escape xs) (sym (map-cons_head_dollar (split b'\n' xs) (split-ne-nil b'\n' xs)))
  | inr e ↦ elim (Bool-cases (x == b'\n')) [
    | inl f ↦ rw (e, f, split, escape_dollars, split-escape xs) refl
    | inr f ↦
        rw (e, f, split, escape_dollars, split-escape xs)
          (sym (map-cons_head x (split b'\n' xs) (split-ne-nil b'\n' xs) e))
  ]
]

no_mark : (q : Quoting) (c : ℕ) → c ≢ b'#' → opens_comment q c ≡ false
unfolding opens_comment
no_mark q c n = ground arith

comment_from-Lacks : (i : ℕ) (q : Quoting) (t : Text) → Lacks b'#' t → comment_from i q t ≡ none
unfolding comment_from
comment_from-Lacks i q [] h = refl
comment_from-Lacks i q (c ∷ cs) (n, h) =
    rw (no_mark q c n) (comment_from-Lacks (suc i) (next_quoting q c) cs h)

code_and_comment-Lacks :
    (block : Option ℕ) (line : Text) → Lacks b'#' line → code_and_comment block line ≡ (line, [])
unfolding code_and_comment comment_start split_comment
code_and_comment-Lacks (some i) line h = refl
code_and_comment-Lacks none line h =
    rw
      (comment_from-Lacks 0
        (record { in_single = false; in_double = false; prev_was_space = true; escaped = false })
        line h)
      refl

abbrev line_end : Bool → Text
line_end newline = if newline then b'\n' ∷ [] else []

process_line-escape :
    (lookup : Text → Option Text) (newline : Bool) (line : Text) (lines : List Text) (line_no : ℕ)
    (block : Option ℕ) (p : Progress)
    → Lacks b'#' line
    → (next : Option ℕ) × (process_lines lookup newline
          (escape_dollars line ∷ lines)
          line_no
          block
          p
        ≡ process_lines lookup newline lines
            (suc line_no)
            next
            (append (line ++ line_end (not (is_empty lines) || newline)) p))
unfolding process_lines expand_into finish_line
process_line-escape lookup newline line lines line_no block p h =
    let outer = leave_block block (escape_dollars line) in
    (
      enter_block outer (escape_dollars line) (escape_dollars line),
      rw
          (
            code_and_comment-Lacks outer (escape_dollars line)
                (escape-Lacks b'#' line (λ e. absurd (omega (arith, e))) h),
            expand_from-escape lookup line_no 0 line p,
          )
          (rw
            (
              append-nil (p.out ++ line),
              append_assoc p.out line (line_end (not (is_empty lines) || newline)),
            )
            refl),
    )

-- The text for lines that are written with an end after each but the last, and there if `newline`.
abbrev glue : Bool → List Text → Text
glue newline [] = []
glue newline (line ∷ []) = line ++ line_end newline
glue newline (line ∷ (next ∷ more)) = line ++ (b'\n' ∷ glue newline (next ∷ more))

process_lines-escape :
    (lookup : Text → Option Text) (newline : Bool) (lines : List Text) (line_no : ℕ)
    (block : Option ℕ) (p : Progress)
    → All (Lacks b'#') lines
    → process_lines lookup newline (map escape_dollars lines) line_no block p
      ≡ ok (append (glue newline lines) p)
process_lines-escape lookup newline [] line_no block p h =
    unfold process_lines in rw (append-nil p.out) refl
process_lines-escape lookup newline (line ∷ []) line_no block p (h, _) =
    let (next, e) = process_line-escape lookup newline line [] line_no block p h in
    e ∙ unfold process_lines in refl
process_lines-escape lookup newline (line ∷ (after ∷ more)) line_no block p (h, hs) =
    let (next, e) =
      process_line-escape lookup newline line (map escape_dollars (after ∷ more)) line_no block p
        h in
    e
    ∙ process_lines-escape lookup newline (after ∷ more) (suc line_no) next
        (append (line ++ b'\n' ∷ []) p) hs
    ∙ rw
        (
          append_assoc p.out (line ++ b'\n' ∷ []) (glue newline (after ∷ more)),
          append_assoc line (b'\n' ∷ []) (glue newline (after ∷ more)),
        )
        refl

glue-join :
    (newline : Bool) (lines : List Text)
    → lines ≢ []
    → glue newline lines ≡ join (b'\n' ∷ []) lines ++ line_end newline
unfolding join
glue-join newline [] n = absurd (n refl)
glue-join newline (line ∷ []) n = refl
glue-join newline (line ∷ (next ∷ more)) n =
    rw (append_assoc line (b'\n' ∷ join (b'\n' ∷ []) (next ∷ more)) (line_end newline))
      (ap (λ (u : Text). line ++ (b'\n' ∷ u)) (glue-join newline (next ∷ more) (λ e. cc)))

taken_off :
    (newline : Bool) (t : Text)
    → (if newline then pop (t ++ line_end newline) else t ++ line_end newline) ≡ t
taken_off true t = pop-append t b'\n'
taken_off false t = append-nil t

-- Any text without `#` can be written in a document: with each dollar sign doubled, expansion gives
-- the text back as it is and finds no reference in it, whatever the environment and the fallback.
pub interpolate-escape_dollars :
    (t : Text) (lookup : Text → Option Text) (fallback : Option (Text → Text))
    → Lacks b'#' t
    → interpolate_with_fallback (escape_dollars t) lookup fallback
      ≡ ok (record { text = t; referenced = []; defaulted = []; placeheld = [] })
unfolding interpolate_with_fallback process start_of finish
interpolate-escape_dollars t lookup fallback h =
    let newline = ends_with_char b'\n' (escape_dollars t) in
    let parts = split b'\n' t in
    let whole = glue-join newline parts (split-ne-nil b'\n' t) ∙ rw (join-split b'\n' t) refl in
    rw
      (
        split-escape t,
        process_lines-escape lookup newline parts 1 none (start_of fallback none)
            (EachChar-split (λ c. c ≢ b'#') b'\n' t h),
        whole,
      )
      (ap (λ (u : Text). ok (record { text = u; referenced = []; defaulted = []; placeheld = [] }))
        (taken_off newline t))
