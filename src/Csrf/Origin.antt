-- ===== src/Csrf/Origin.antt =====
-- Which requests `CookieProtection::check` of csrf.rs lets pass.
use lagos.Prelude.{
  ◌≡◌, ◌⊎◌, inl, inr, refl, Bool, true, false, Option, none, some, List, [], ◌∷◌, any, if_cases,
  Bool-cases, arith,
}
use lagos.Text.{Text, text_eq}
use lagos.Csrf.{
  Url, CookieProtection, Checked, pass, origin_of, single, is_safe_method, compare_origin,
  check_referer, check_origin, check,
}

module _ (parse_url : Text → Option Url) where
  -- The header has one value, which names a configured origin.
  abbrev pub Names : CookieProtection → Bool → List (Option Text) → Type 0
  Names p referer values =
      (raw : Text) × (o : Text) × (values ≡ some raw ∷ [])
      × (origin_of parse_url referer raw ≡ some o)
      × (any (λ x. text_eq x o) p.origins ≡ true)

  Compared : CookieProtection → Option Text → Type 0
  Compared p candidate =
      (o : Text) × (candidate ≡ some o) × (any (λ x. text_eq x o) p.origins ≡ true)

  compare_origin_sound :
      (p : CookieProtection) (candidate : Option Text)
      → compare_origin p candidate ≡ pass tt
      → Compared p candidate
  unfolding compare_origin Compared
  compare_origin_sound p none h = cc
  compare_origin_sound p (some o) h = (
    o,
    refl,
    if_cases (λ (r : Checked Unit). r ≡ pass tt → any (λ x. text_eq x o) p.origins ≡ true) _ _
        (any (λ x. text_eq x o) p.origins) (λ e _. e) (λ e k. cc) h,
  )

  check_referer_sound :
      (p : CookieProtection) (referer : List (Option Text))
      → check_referer parse_url p (single referer) ≡ pass tt
      → Names p true referer
  unfolding check_referer single Compared
  check_referer_sound p [] h = absurd (ground (arith, compare_origin_sound p none h))
  check_referer_sound p (none ∷ []) h = cc
  check_referer_sound p (some raw ∷ []) h =
      let (o, e, k) = compare_origin_sound p (origin_of parse_url true raw) h in
      (raw, o, refl, e, k)
  check_referer_sound p (none ∷ (next ∷ more)) h = cc
  check_referer_sound p (some raw ∷ (next ∷ more)) h = cc

  check_origin_sound :
      (p : CookieProtection) (origin referer : List (Option Text))
      → check_origin parse_url p referer (single origin) ≡ pass tt
      → Names p false origin ⊎ ((origin ≡ []) × (p.referer_fallback ≡ true) × Names p true referer)
  unfolding check_origin single Compared
  check_origin_sound p [] referer h = elim (Bool-cases p.referer_fallback) [
    | inl e ↦
        let fallback : check_referer parse_url p (single referer) ≡ pass tt = ground arith in
        inr (refl, e, check_referer_sound p referer fallback)
    | inr e ↦ absurd (ground arith)
  ]
  check_origin_sound p (none ∷ []) referer h = cc
  check_origin_sound p (some raw ∷ []) referer h =
      let (o, e, k) = compare_origin_sound p (origin_of parse_url false raw) h in
      inl (raw, o, refl, e, k)
  check_origin_sound p (none ∷ (next ∷ more)) referer h = cc
  check_origin_sound p (some raw ∷ (next ∷ more)) referer h = cc

  -- If a request with another method than GET, HEAD, OPTIONS or TRACE passes, then it has exactly one
  -- `Origin` and that is a configured origin; or it has none, the fallback is configured, and it has
  -- exactly one `Referer`, of a configured origin.
  pub unsafe_needs_known_origin :
      (p : CookieProtection) (origin referer : List (Option Text)) (method : Text)
      → is_safe_method method ≡ false
      → check parse_url p origin referer method ≡ pass tt
      → Names p false origin ⊎ ((origin ≡ []) × (p.referer_fallback ≡ true) × Names p true referer)
  unfolding check
  unsafe_needs_known_origin p origin referer method e h =
      check_origin_sound p origin referer (ground arith)
