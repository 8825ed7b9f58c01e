-- ===== src/Interpolate/Supplied.antt =====
-- Where the values of references come from, crates/lagos-core/src/config/interpolate.rs.
use lagos.Prelude.{
  result_inj, ℕ, suc, ◌≡◌, refl, Bool, true, not, ◌||◌, ◌⊎◌, Option, none, some, List, [], ◌∷◌,
  ◌++◌, any, all, false, ◌∙◌, All, ok, bind-eq-ok, Bool-cases, inl, inr, arith, if_cases,
}
use lagos.Text.{
  is_whitespace, trim, trim_start, trim_end, Text, is_empty, split, ends_with_char, text_eq,
  text_eq_refl,
}
use lagos.Interpolate.{
  control_character, empty_name, bad_name, Interpolated, Expansion, Progress, is_structurally_safe,
  is_valid_name, note, choose_fallback, choose, write_value, substitute, non_blank, reference,
}
use lagos.Interpolate.Invariants.{
  Ensures, Ensures-ok, Ensures-err, Ensures-if, Ensures-bind, expand_into-Ensures,
}
use lagos.Interpolate.Invariants.{All-trivial}
use lagos.Interpolate.Lines.{
  leave_block, code_and_comment, finish_line, process_lines, process, finish, start_of,
  interpolate_with_fallback, interpolate,
}

abbrev pub is_noted : List Text → Text → Bool
is_noted names name = any (λ n. text_eq n name) names

any-append : (f : Text → Bool) (xs ys : List Text) → any f (xs ++ ys) ≡ (any f xs || any f ys)
any-append f [] ys = refl
any-append f (x ∷ xs) ys = ground (arith, any-append f xs ys)

is_noted-note : (names : List Text) (name : Text) → is_noted (note names name) name ≡ true
unfolding note
is_noted-note names name = elim (Bool-cases (is_noted names name)) [
  | inl e ↦ rw (e) e
  | inr e ↦ ground (arith, any-append (λ n. text_eq n name) names (name ∷ []), text_eq_refl name)
]

is_noted_mono :
    (names : List Text) (name other : Text)
    → is_noted names other ≡ true
    → is_noted (note names name) other ≡ true
unfolding note
is_noted_mono names name other h =
    ground (arith, any-append (λ n. text_eq n other) names (name ∷ []))

is_empty-trim_end : (s : Text) → is_empty (trim_end s) ≡ all is_whitespace s
unfolding trim_end
is_empty-trim_end [] = refl
is_empty-trim_end (c ∷ s) = ground (arith, is_empty-trim_end s)

all-trim_start : (s : Text) → all is_whitespace (trim_start s) ≡ all is_whitespace s
unfolding trim_start
all-trim_start [] = refl
all-trim_start (c ∷ s) = ground (arith, all-trim_start s)

is_empty-trim : (s : Text) → is_empty (trim s) ≡ all is_whitespace s
unfolding trim
is_empty-trim s = is_empty-trim_end (trim_start s) ∙ all-trim_start s

-- A value with a character in it that is not white space.
abbrev pub HasValue : Option Text → Type 0
HasValue none = ⊥
HasValue (some v) = all is_whitespace v ≡ false

-- No value, or nothing but white space.
abbrev pub IsBlank : Option Text → Type 0
IsBlank none = Unit
IsBlank (some v) = all is_whitespace v ≡ true

non_blank-HasValue : (o : Option Text) (v : Text) → non_blank o ≡ some v → HasValue o
unfolding non_blank
non_blank-HasValue none v h = cc
non_blank-HasValue (some w) v h = ground (arith, is_empty-trim w)

non_blank-IsBlank : (o : Option Text) → non_blank o ≡ none → IsBlank o
unfolding non_blank
non_blank-IsBlank none h = tt
non_blank-IsBlank (some w) h = ground (arith, is_empty-trim w)

-- The environment has a value for the name, or the name is reported to have taken its default.
abbrev pub IsSupplied : (Text → Option Text) → List Text → Text → Type 0
IsSupplied lookup defaulted name = HasValue (lookup name) ⊎ (is_noted defaulted name ≡ true)

module _ (lookup : Text → Option Text) where
  IsSupplied-mono :
      (defaulted : List Text) (name other : Text)
      → IsSupplied lookup defaulted other
      → IsSupplied lookup (note defaulted name) other
  IsSupplied-mono defaulted name other (inl h) = inl h
  IsSupplied-mono defaulted name other (inr h) = inr (is_noted_mono defaulted name other h)

  All-mono :
      (defaulted names : List Text) (name : Text)
      → All (IsSupplied lookup defaulted) names
      → All (IsSupplied lookup (note defaulted name)) names
  All-mono defaulted [] name h = tt
  All-mono defaulted (n ∷ names) name (p, h) =
      (IsSupplied-mono defaulted name n p, All-mono defaulted names name h)

  All-last :
      (P : Text → Type 0) (names : List Text) (name : Text)
      → All P names
      → P name
      → All P (names ++ name ∷ [])
  All-last P [] name h p = (p, tt)
  All-last P (n ∷ names) name (q, h) p = (q, All-last P names name h p)

  All-note :
      (P : Text → Type 0) (names : List Text) (name : Text)
      → All P names
      → P name
      → All P (note names name)
  unfolding note
  All-note P names name h p =
      if_cases (All P) names (names ++ name ∷ []) (is_noted names name) (λ e. h)
        (λ e. All-last P names name h p)

  -- No fallback, nothing inspected, every name so far is supplied, and every default was needed.
  abbrev Closed : Expansion → Type 0
  Closed e =
      (e.fallback ≡ none)
      × (e.inspection_prefix ≡ none)
      × (e.placeheld ≡ [])
      × All (IsSupplied lookup e.defaulted) e.referenced
      × All (λ n. IsBlank (lookup n)) e.defaulted

  abbrev noted : Expansion → Text → Expansion
  noted e name = record e { referenced = note e.referenced name }

  choose-Closed :
      (name : Text) (line : ℕ) (resolved default : Option Text) (e : Expansion)
      (s : Text × Expansion)
      → non_blank (lookup name) ≡ resolved
      → Closed e
      → choose name line resolved default (noted e name) ≡ ok s
      → Closed s.1
  unfolding choose choose_fallback
  choose-Closed name line (some v) default e s h (f, i, p, a, d) k =
      rw (← result_inj k)
        (f, i, p, All-note _ e.referenced name a (inl (non_blank-HasValue (lookup name) v h)), d)
  choose-Closed name line none (some d) e s h (f, i, p, a, u) k = rw (← result_inj k) (
    f,
    i,
    p,
    All-note _ e.referenced name (All-mono e.defaulted e.referenced name a)
        (inr (is_noted-note e.defaulted name)),
    All-note _ e.defaulted name u (non_blank-IsBlank (lookup name) h),
  )
  choose-Closed name line none none e s h (f, i, p, a, u) k = absurd (no_fallback e.fallback f k)
    where
      no_fallback :
          (o : Option (Text → Text))
          → o ≡ none
          → choose_fallback o name line (noted e name) ≡ ok s
          → ⊥
      no_fallback none f k = cc
      no_fallback (some g) f k = cc

  write_value-Closed :
      (name : Text) (line : ℕ) (out : Text) (s : Text × Expansion)
      → Closed s.1
      → Ensures (λ q. Closed q.exp) (write_value name line out s)
  unfolding write_value
  write_value-Closed name line out (v, e) h =
      Ensures-if (λ q. Closed q.exp) (not (is_structurally_safe v)) _ _
        (λ t. Ensures-err (λ q. Closed q.exp) (control_character name line))
        (λ t. Ensures-ok (λ q. Closed q.exp) (record { out = out ++ v; exp = e }) h)

  substitute-Closed :
      (o : Option Text) (name : Text) (line column : ℕ) (default : Option Text) (p : Progress)
      → o ≡ none
      → Closed p.exp
      → Ensures
          (λ q. Closed q.exp)
          (substitute o name line column default
            (non_blank (lookup name))
            (record p { exp = noted p.exp name }))
  unfolding substitute
  substitute-Closed (some prefix) name line column default p e h q k = absurd (cc)
  substitute-Closed none name line column default p e h q k =
      let (s, a, b) =
        bind-eq-ok (choose name line (non_blank (lookup name)) default (noted p.exp name)) _ k in
      write_value-Closed name line p.out s
        (choose-Closed name line (non_blank (lookup name)) default p.exp s refl h a) q b

  reference-Closed :
      (line column : ℕ) (body : Text × Option Text) (p : Progress)
      → Closed p.exp
      → Ensures (λ q. Closed q.exp) (reference lookup line column body p)
  unfolding reference
  reference-Closed line column (name, default) p h =
      Ensures-if (λ q. Closed q.exp) (is_empty name) _ _
        (λ t. Ensures-err (λ q. Closed q.exp) (empty_name line))
        (λ t.
          Ensures-if (λ q. Closed q.exp) (not (is_valid_name name)) _ _
            (λ u. Ensures-err (λ q. Closed q.exp) (bad_name name line))
            (λ u. substitute-Closed p.exp.inspection_prefix name line column default p h.1 h))

  process_lines-Closed :
      (newline : Bool) (lines : List Text) (line_no : ℕ) (block : Option ℕ) (p : Progress)
      → Closed p.exp
      → Ensures (λ q. Closed q.exp) (process_lines lookup newline lines line_no block p)
  unfolding process_lines finish_line
  process_lines-Closed newline [] line_no block p h = Ensures-ok (λ q. Closed q.exp) p h
  process_lines-Closed newline (line ∷ lines) line_no block p h =
      let code = (code_and_comment (leave_block block line) line).0 in
      Ensures-bind (λ q. Closed q.exp) (λ q. Closed q.exp) _ _
        (expand_into-Ensures lookup (λ q. Closed q.exp) (λ c. Unit {0}) tt (λ c q u k. k)
          reference-Closed code line_no p (All-trivial code) h)
        (λ v k. process_lines-Closed newline lines (suc line_no) _ _ k)

-- Without a fallback no placeholder gets into a document that expands: each name that it
-- references has a value in the environment that is more than white space, or is reported in
-- `defaulted`; and each name reported there has no value, or white space alone.
pub nothing_goes_unset :
    (text : Text) (lookup : Text → Option Text) (r : Interpolated)
    → interpolate text lookup ≡ ok r
    → (r.placeheld ≡ [])
      × All (IsSupplied lookup r.defaulted) r.referenced
      × All (λ n. IsBlank (lookup n)) r.defaulted
unfolding interpolate interpolate_with_fallback process start_of finish
nothing_goes_unset text lookup r e =
    let (s, a, b) = bind-eq-ok (process text lookup none none) (λ s. ok s.0) e in
    let (q, c, d) =
      bind-eq-ok
        (process_lines lookup (ends_with_char b'\n' text) (split b'\n' text) 1 none
          (start_of none none))
        _ a in
    let h =
      process_lines-Closed lookup (ends_with_char b'\n' text) (split b'\n' text) 1 none
        (start_of none none) (refl, refl, refl, tt, tt) q c in
    rw (← result_inj b, ← result_inj d) (h.2, h.3, h.4)
