-- ===== src/Cache/Eligible.antt =====
-- What `eligible` of crates/lagos-core/src/cache/policy.rs lets into the cache.
use lagos.Prelude.{
  ◌≡◌, refl, Bool, true, false, not, ◌||◌, Bool-cases, Option-cases, Option, none, some, List, [],
  ◌∷◌, All, arith, inl, inr,
}
use lagos.Text.{Text, codes, split, trim, text_eq, is_empty}
use lagos.Cache.Policy.{
  CacheControl, vary_fields, vary_name, vary_parts, vary_values, eligible, refuses_sharing,
  allows_authorized, is_none,
}

abbrev pub IsNotStar : Text → Type 0
IsNotStar part = text_eq (trim part) (codes "*") ≡ false

-- No star among the field names, and no other character than those `to_str` reads.
abbrev pub HasNoStar : Option Text → Type 0
HasNoStar none = ⊥
HasNoStar (some value) = All IsNotStar (split b',' value)

empty-star : (name : Text) → is_empty name ≡ true → text_eq name (codes "*") ≡ false
unfolding text_eq
empty-star [] e = refl
empty-star (c ∷ name) e = absurd cc

module _ (header_name : Text → Option Text) where
  name-not_star :
      (name : Text) (fields more : List Text)
      → vary_name header_name name fields ≡ some more
      → text_eq name (codes "*") ≡ false
  unfolding vary_name
  name-not_star name fields more e = elim (Bool-cases (text_eq name (codes "*"))) [
    | inl star ↦ elim (Bool-cases (is_empty name)) [
      | inl empty ↦ empty-star name empty
      | inr full ↦ absurd (ground arith)
    ]
    | inr other ↦ other
  ]

  parts-IsNotStar :
      (parts fields more : List Text)
      → vary_parts header_name parts fields ≡ some more
      → All IsNotStar parts
  unfolding vary_parts
  parts-IsNotStar [] fields more e = tt
  parts-IsNotStar (part ∷ parts) fields more e =
      elim (Option-cases (vary_name header_name (trim part) fields)) [
        | inl refused ↦ absurd (ground arith)
        | inr (next, f) ↦
            let go : vary_parts header_name parts next ≡ some more = ground arith in
            (name-not_star (trim part) fields next f, parts-IsNotStar parts next more go)
      ]

  values-HasNoStar :
      (values : List (Option Text)) (fields more : List Text)
      → vary_values header_name values fields ≡ some more
      → All HasNoStar values
  unfolding vary_values
  values-HasNoStar [] fields more e = tt
  values-HasNoStar (none ∷ values) fields more e = absurd cc
  values-HasNoStar (some value ∷ values) fields more e =
      elim (Option-cases (vary_parts header_name (split b',' value) fields)) [
        | inl refused ↦ absurd (ground arith)
        | inr (next, f) ↦
            let go : vary_values header_name values next ≡ some more = ground arith in
            (parts-IsNotStar (split b',' value) fields next f, values-HasNoStar values next more go)
      ]

  -- A response that is `eligible` sets no cookie, has no star in its `Vary`, is neither `private` nor
  -- `no-store`, and says so itself where it answers an authorized request.
  pub eligible_is_public :
      (sets_cookie : Bool) (vary : List (Option Text)) (control : Option CacheControl)
      (authorized : Bool)
      → eligible header_name sets_cookie vary control authorized ≡ true
      → (sets_cookie ≡ false)
        × All HasNoStar vary
        × (refuses_sharing control ≡ false)
        × (not authorized || allows_authorized control ≡ true)
  unfolding eligible vary_fields is_none
  eligible_is_public sets_cookie vary control authorized e =
      elim (Option-cases (vary_values header_name vary [])) [
        | inl refused ↦ absurd (ground arith)
        | inr (names, f) ↦
            (ground arith, values-HasNoStar vary [] names f, ground arith, ground arith)
      ]
