-- ===== src/Interpolate/Invariants.antt =====
-- What every reference and every written character keep, a document that expands keeps,
-- crates/lagos-core/src/config/interpolate.rs.
use lagos.Prelude.{
  ℕ, suc, ◌==◌, ◌≡◌, refl, if◌then◌else◌, Bool, true, false, Option, [], ◌∷◌, ◌++◌, All, Result, ok,
  err, ◌>>=◌, bind-eq-ok, Bool-cases, inl, inr,
}
use lagos.Text.{Text}
use lagos.Interpolate.{
  InterpolateError, Progress, push, name_and_default, reference, expand_from, expand_body,
  expand_into,
}
use lagos.Interpolate.Steps.{
  from_end, from_last, body_end, round, plain, escape, opened, bare, from_plain, from_escape,
  from_opened, from_bare, body_goes_on, body_closes,
}

pub ok_inj : {p q : Progress} → ◌≡◌ {A = Result Progress InterpolateError} (ok p) (ok q) → p ≡ q
ok_inj e = cc

pub All-trivial : (t : Text) → All (λ c. Unit {0}) t
All-trivial [] = tt
All-trivial (c ∷ cs) = (tt, All-trivial cs)

-- It holds of what comes out, if anything does.
abbrev pub Ensures : (Progress → Type 0) → Result Progress InterpolateError → Type 0
Ensures I r = (q : Progress) → r ≡ ok q → I q

pub Ensures-ok : (I : Progress → Type 0) (p : Progress) → I p → Ensures I (ok p)
Ensures-ok I p h q e = rw (← ok_inj e) h

pub Ensures-err : (I : Progress → Type 0) (e : InterpolateError) → Ensures I (err e)
Ensures-err I e q k = absurd (cc)

pub Ensures-if :
    (I : Progress → Type 0) (b : Bool) (m n : Result Progress InterpolateError)
    → (b ≡ true → Ensures I m)
    → (b ≡ false → Ensures I n)
    → Ensures I (if b then m else n)
Ensures-if I true m n h k = h refl
Ensures-if I false m n h k = k refl

pub Ensures-bind :
    (I J : Progress → Type 0) (m : Result Progress InterpolateError)
    (f : Progress → Result Progress InterpolateError)
    → Ensures I m
    → ((p : Progress) → I p → Ensures J (f p))
    → Ensures J (m >>= f)
Ensures-bind I J m f h k q e = let (p, a, b) = bind-eq-ok m f e in k p (h p a) q b

module _ (lookup : Text → Option Text) (I : Progress → Type 0) (P : ℕ → Type 0) (dollar : P b'$')
    (on_push : (c : ℕ) (p : Progress) → P c → I p → I (push c p))
    (on_reference : (line column : ℕ) (body : Text × Option Text) (p : Progress)
      → I p
      → Ensures I (reference lookup line column body p)) where
  mutual
    expand_from-Ensures :
        (line offset : ℕ) (t : Text) (p : Progress)
        → All P t
        → I p
        → Ensures I (expand_from lookup line offset t p)
    expand_from-Ensures line offset [] p ps h =
        rw (from_end lookup line offset p) (λ q e. rw (← ok_inj e) h)
    expand_from-Ensures line offset (c ∷ []) p (pc, _) h =
        rw (from_last lookup line offset p c) (λ q e. rw (← ok_inj e) (on_push c p pc h))
    expand_from-Ensures line offset (c ∷ (d ∷ rest)) p (pc, (pd, ps)) h = elim (round c d) [
      | plain a ↦
          rw (from_plain lookup line offset c d rest p a) (
            expand_from-Ensures line (suc offset) (d ∷ rest) (push c p) (pd, ps) (on_push c p pc h))
      | escape a b ↦ rw (from_escape lookup line offset c d rest p a b) (
          expand_from-Ensures line (suc (suc offset)) rest (push b'$' p) ps
            (on_push b'$' p dollar h))
      | opened a b f ↦
          rw (from_opened lookup line offset c d rest p a b f)
            (expand_body-Ensures line offset (suc (suc offset)) [] rest p ps h)
      | bare a b f ↦ rw (from_bare lookup line offset c d rest p a b f) (
          expand_from-Ensures line (suc offset) (d ∷ rest) (push b'$' p) (pd, ps)
            (on_push b'$' p dollar h))
    ]

    expand_body-Ensures :
        (line start offset : ℕ) (body t : Text) (p : Progress)
        → All P t
        → I p
        → Ensures I (expand_body lookup line start offset body t p)
    expand_body-Ensures line start offset body [] p ps h =
        rw (body_end lookup line offset p start body) (λ q e. absurd (cc))
    expand_body-Ensures line start offset body (c ∷ rest) p (pc, ps) h =
        elim (Bool-cases (c == b'}')) [
          | inr a ↦
              rw (body_goes_on lookup line start offset c body rest p a)
                (expand_body-Ensures line start (suc offset) (body ++ c ∷ []) rest p ps h)
          | inl a ↦ rw (body_closes lookup line start offset c body rest p a) (
              Ensures-bind I I (reference lookup line (suc start) (name_and_default body) p) _
                (on_reference line (suc start) (name_and_default body) p h)
                (λ v k. expand_from-Ensures line (suc offset) rest v ps k))
        ]

  pub expand_into-Ensures :
      (fragment : Text) (line : ℕ) (p : Progress)
      → All P fragment
      → I p
      → Ensures I (expand_into lookup fragment line p)
  unfolding expand_into
  expand_into-Ensures fragment line p ps h = expand_from-Ensures line 0 fragment p ps h
