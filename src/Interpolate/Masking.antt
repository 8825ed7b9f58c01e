-- ===== src/Interpolate/Masking.antt =====
-- What inspection shows of the environment, crates/lagos-core/src/config/interpolate.rs.
use mathlib.Core.List.{map-append}
use lagos.Prelude.{
  ℕ, suc, ◌==◌, ◌≡◌, refl, ap, sym, ◌∙◌, if◌then◌else◌, Bool, true, false, not, Option, none, some,
  List, [], ◌∷◌, ◌++◌, map, length-map, Result, ok, err, ◌>>=◌, Bool-cases, inl, inr, arith,
}
use lagos.Text.{Text, is_empty}
use lagos.Text.Decimal.{decimal}
use lagos.Interpolate.{
  InterpolateError, VariableReference, required, Expansion, Progress, is_valid_name, note,
  name_and_default, non_blank, push, mask, marker_of, substitute, reference, expand_from,
  expand_body,
}
use lagos.Interpolate.Steps.{
  from_end, from_last, body_end, round, plain, escape, opened, bare, from_plain, from_escape,
  from_opened, from_bare, body_goes_on, body_closes,
}

-- A reference, less what the environment decides of it.
abbrev pub hide : VariableReference → VariableReference
hide r = record r { state = required; selected = none }

abbrev pub hide_exp : Expansion → Expansion
hide_exp e = record e { occurrences = map hide e.occurrences }

abbrev pub hide_progress : Progress → Progress
hide_progress p = record p { exp = hide_exp p.exp }

abbrev pub hide_result : Result Progress InterpolateError → Result Progress InterpolateError
hide_result (ok p) = ok (hide_progress p)
hide_result (err e) = err e

map-hide_idem : (rs : List VariableReference) → map hide (map hide rs) ≡ map hide rs
map-hide_idem [] = refl
map-hide_idem (r ∷ rs) = ap (λ (t : List VariableReference). hide r ∷ t) (map-hide_idem rs)

hide_progress_idem : (p : Progress) → hide_progress (hide_progress p) ≡ hide_progress p
hide_progress_idem p =
    ap (λ (o : List VariableReference). record p { exp = record p.exp { occurrences = o } })
      (map-hide_idem p.exp.occurrences)

module _ (prefix name : Text) (line column : ℕ) (default : Option Text) where
  mask-hide :
      (a b : Option Text) (p : Progress)
      → hide_progress (mask prefix name line column default a p)
        ≡ hide_progress (mask prefix name line column default b (hide_progress p))
  unfolding mask marker_of decimal
  mask-hide a b p =
      simp (length-map p.exp.occurrences hide, map-append, map-hide_idem p.exp.occurrences) refl

ok_inj : {p q : Progress} → ◌≡◌ {A = Result Progress InterpolateError} (ok p) (ok q) → p ≡ q
ok_inj e = cc

pub hide_bind :
    (m n : Result Progress InterpolateError) (f g : Progress → Result Progress InterpolateError)
    → hide_result m ≡ hide_result n
    → ((p q : Progress)
        → m ≡ ok p
        → n ≡ ok q
        → hide_progress p ≡ hide_progress q
        → hide_result (f p) ≡ hide_result (g q))
    → hide_result (m >>= f) ≡ hide_result (n >>= g)
hide_bind (ok p) (ok q) f g e h = h p q refl refl (ok_inj e)
hide_bind (ok p) (err b) f g e h = cc
hide_bind (err a) (ok q) f g e h = cc
hide_bind (err a) (err b) f g e h = e

abbrev pub IsMasking : Option Text → Type 0
IsMasking o = (prefix : Text) × (o ≡ some prefix)

hide_if :
    (b : Bool) (x y v w : Result Progress InterpolateError)
    → hide_result x ≡ hide_result v
    → hide_result y ≡ hide_result w
    → hide_result (if b then x else y) ≡ hide_result (if b then v else w)
hide_if true x y v w e f = e
hide_if false x y v w e f = f

substitute-hide :
    (o : Option Text) (name : Text) (line column : ℕ) (default a b : Option Text) (p : Progress)
    → IsMasking o
    → hide_result (substitute o name line column default a p)
      ≡ hide_result (substitute o name line column default b (hide_progress p))
unfolding substitute
substitute-hide none name line column default a b p (prefix, e) = cc
substitute-hide (some prefix) name line column default a b p h =
    ap (λ (q : Progress). ok q) (mask-hide prefix name line column default a b p)

substitute-keeps :
    (o : Option Text) (name : Text) (line column : ℕ) (default a : Option Text) (p q : Progress)
    → IsMasking o
    → substitute o name line column default a p ≡ ok q
    → q.exp.inspection_prefix ≡ p.exp.inspection_prefix
unfolding substitute mask
substitute-keeps none name line column default a p q (prefix, e) h = cc
substitute-keeps (some prefix) name line column default a p q m h = rw (← ok_inj h) refl

module _ (here there : Text → Option Text) where
  reference-hide :
      (line column : ℕ) (body : Text × Option Text) (p : Progress)
      → IsMasking p.exp.inspection_prefix
      → hide_result (reference here line column body p)
        ≡ hide_result (reference there line column body (hide_progress p))
  unfolding reference
  reference-hide line column (name, default) p m = hide_if (is_empty name) _ _ _ _ refl (
      hide_if (not (is_valid_name name)) _ _ _ _ refl (
        substitute-hide p.exp.inspection_prefix name line column default (non_blank (here name))
          (non_blank (there name)) _ m))

  pub reference-keeps :
      (line column : ℕ) (body : Text × Option Text) (p q : Progress)
      → IsMasking p.exp.inspection_prefix
      → reference here line column body p ≡ ok q
      → q.exp.inspection_prefix ≡ p.exp.inspection_prefix
  unfolding reference
  reference-keeps line column (name, default) p q m h = ground (
    arith,
    substitute-keeps p.exp.inspection_prefix name line column default (non_blank (here name))
        (record p { exp = record p.exp { referenced = note p.exp.referenced name } }) q m,
  )

hidden_trans :
    (here there : Text → Option Text) (line column : ℕ) (body : Text × Option Text) (p q : Progress)
    → IsMasking p.exp.inspection_prefix
    → IsMasking q.exp.inspection_prefix
    → hide_progress p ≡ hide_progress q
    → hide_result (reference here line column body p)
      ≡ hide_result (reference there line column body q)
hidden_trans here there line column body p q m n e =
    reference-hide here there line column body p m
    ∙ rw e (sym (reference-hide there there line column body q n))

mutual
  pub expand_from-hide :
      (here there : Text → Option Text) (line offset : ℕ) (t : Text) (p q : Progress)
      → IsMasking p.exp.inspection_prefix
      → IsMasking q.exp.inspection_prefix
      → hide_progress p ≡ hide_progress q
      → hide_result (expand_from here line offset t p)
        ≡ hide_result (expand_from there line offset t q)
  expand_from-hide here there line offset [] p q m n e =
      rw (from_end here line offset p, from_end there line offset q) (ap (λ (r : Progress). ok r) e)
  expand_from-hide here there line offset (c ∷ []) p q m n e =
      rw (from_last here line offset p c, from_last there line offset q c)
        (ap (λ (r : Progress). ok (push c r)) e)
  expand_from-hide here there line offset (c ∷ (d ∷ rest)) p q m n e = elim (round c d) [
    | plain a ↦
        rw (from_plain here line offset c d rest p a, from_plain there line offset c d rest q a)
          (expand_from-hide here there line (suc offset) (d ∷ rest) (push c p) (push c q) m n
            (ap (push c) e))
    | escape a b ↦
        rw
          (
            from_escape here line offset c d rest p a b,
            from_escape there line offset c d rest q a b,
          )
          (expand_from-hide here there line (suc (suc offset)) rest (push b'$' p) (push b'$' q) m n
            (ap (push b'$') e))
    | opened a b f ↦
        rw
          (
            from_opened here line offset c d rest p a b f,
            from_opened there line offset c d rest q a b f,
          )
          (expand_body-hide here there line offset (suc (suc offset)) [] rest p q m n e)
    | bare a b f ↦
        rw
          (
            from_bare here line offset c d rest p a b f,
            from_bare there line offset c d rest q a b f,
          )
          (expand_from-hide here there line (suc offset) (d ∷ rest) (push b'$' p) (push b'$' q) m n
            (ap (push b'$') e))
  ]

  expand_body-hide :
      (here there : Text → Option Text) (line start offset : ℕ) (body t : Text) (p q : Progress)
      → IsMasking p.exp.inspection_prefix
      → IsMasking q.exp.inspection_prefix
      → hide_progress p ≡ hide_progress q
      → hide_result (expand_body here line start offset body t p)
        ≡ hide_result (expand_body there line start offset body t q)
  expand_body-hide here there line start offset body [] p q m n e =
      rw (body_end here line offset p start body, body_end there line offset q start body) refl
  expand_body-hide here there line start offset body (c ∷ rest) p q m n e =
      elim (Bool-cases (c == b'}')) [
        | inr a ↦
            rw
              (
                body_goes_on here line start offset c body rest p a,
                body_goes_on there line start offset c body rest q a,
              )
              (expand_body-hide here there line start (suc offset) (body ++ c ∷ []) rest p q m n e)
        | inl a ↦
            rw
              (
                body_closes here line start offset c body rest p a,
                body_closes there line start offset c body rest q a,
              )
              (hide_bind (reference here line (suc start) (name_and_default body) p)
                (reference there line (suc start) (name_and_default body) q) _ _
                (hidden_trans here there line (suc start) (name_and_default body) p q m n e)
                (λ v w h k f.
                  expand_from-hide here there line (suc offset) rest v w
                    (
                      m.0,
                      reference-keeps here there line (suc start) (name_and_default body) p v m h
                          ∙ m.1,
                    )
                    (
                      n.0,
                      reference-keeps there there line (suc start) (name_and_default body) q w n k
                          ∙ n.1,
                    )
                    f))
      ]
