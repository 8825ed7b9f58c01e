-- ===== src/Interpolate/Steps.antt =====
-- The rounds of the two loops of `expand_into`, crates/lagos-core/src/config/interpolate.rs, as
-- equations, and the cases of a round.
use lagos.Prelude.{
  ℕ, suc, ◌==◌, ◌≡◌, refl, true, false, Option, [], ◌∷◌, ◌++◌, ok, err, ◌>>=◌, inl, inr, Bool-cases,
  arith,
}
use lagos.Text.{Text}
use lagos.Interpolate.{
  unterminated, Progress, push, name_and_default, reference, expand_from, expand_body,
}

-- What a round of the outer loop meets at two characters.
pub data Round (c d : ℕ) : Type 0 where
  plain : (c == b'$') ≡ false → Round c d
  escape : (c == b'$') ≡ true → (d == b'$') ≡ true → Round c d
  opened : (c == b'$') ≡ true → (d == b'$') ≡ false → (d == b'{') ≡ true → Round c d
  bare : (c == b'$') ≡ true → (d == b'$') ≡ false → (d == b'{') ≡ false → Round c d

pub round : (c d : ℕ) → Round c d
round c d = elim (Bool-cases (c == b'$')) [
  | inr e ↦ plain e
  | inl e ↦ elim (Bool-cases (d == b'$')) [
    | inl f ↦ escape e f
    | inr f ↦ elim (Bool-cases (d == b'{')) [ inl g ↦ opened e f g | inr g ↦ bare e f g ]
  ]
]

module _ (lookup : Text → Option Text) (line offset : ℕ) (p : Progress) where
  pub from_end : expand_from lookup line offset [] p ≡ ok p
  unfolding expand_from
  from_end = refl

  pub from_last : (c : ℕ) → expand_from lookup line offset (c ∷ []) p ≡ ok (push c p)
  unfolding expand_from
  from_last c = refl

  pub body_end :
      (start : ℕ) (body : Text)
      → expand_body lookup line start offset body [] p ≡ err (unterminated line)
  unfolding expand_from
  body_end start body = refl

module _ (lookup : Text → Option Text) (line offset c d : ℕ) (rest : Text) (p : Progress) where
  pub from_plain :
      (c == b'$') ≡ false
      → expand_from lookup line offset (c ∷ (d ∷ rest)) p
        ≡ expand_from lookup line (suc offset) (d ∷ rest) (push c p)
  unfolding expand_from
  from_plain e = ground arith

  pub from_escape :
      (c == b'$') ≡ true
      → (d == b'$') ≡ true
      → expand_from lookup line offset (c ∷ (d ∷ rest)) p
        ≡ expand_from lookup line (suc (suc offset)) rest (push b'$' p)
  unfolding expand_from
  from_escape e f = ground arith

  pub from_opened :
      (c == b'$') ≡ true
      → (d == b'$') ≡ false
      → (d == b'{') ≡ true
      → expand_from lookup line offset (c ∷ (d ∷ rest)) p
        ≡ expand_body lookup line offset (suc (suc offset)) [] rest p
  unfolding expand_from
  from_opened e f g = ground arith

  pub from_bare :
      (c == b'$') ≡ true
      → (d == b'$') ≡ false
      → (d == b'{') ≡ false
      → expand_from lookup line offset (c ∷ (d ∷ rest)) p
        ≡ expand_from lookup line (suc offset) (d ∷ rest) (push b'$' p)
  unfolding expand_from
  from_bare e f g = ground arith

module _ (lookup : Text → Option Text) (line start offset c : ℕ) (body rest : Text)
    (p : Progress) where
  pub body_goes_on :
      (c == b'}') ≡ false
      → expand_body lookup line start offset body (c ∷ rest) p
        ≡ expand_body lookup line start (suc offset) (body ++ c ∷ []) rest p
  unfolding expand_from
  body_goes_on e = ground arith

  pub body_closes :
      (c == b'}') ≡ true
      → expand_body lookup line start offset body (c ∷ rest) p ≡ (
          reference lookup line (suc start) (name_and_default body) p >>= λ q.
          expand_from lookup line (suc offset) rest q)
  unfolding expand_from
  body_closes e = ground arith
