-- ===== src/Cors/Policy.antt =====
-- The headers that a compiled policy of cors.rs adds.
use lagos.Prelude.{
  ◌≡◌, ◌⊎◌, inl, inr, refl, sym, ap, ◌∙◌, Bool, true, false, not, ◌&&◌, Option, none, some, List,
  [], ◌∷◌, any, if_cases, subst, Option-cases, arith,
}
use lagos.Text.Decimal.{decimal}
use lagos.Text.{Text, codes, is_empty, join}
use lagos.Cors.{
  CorsConfig, Refusable, ok, no_scheme, no_host, has_path, empty_suffix, no_origins,
  wildcard_with_credentials, compile_parsed, OriginRule, Cors, is_any, parse_all, compile_rules,
  compile, allows, allow_origin, Headers, push_if, preflight_headers, preflight, response_headers,
  response, matches,
}
use lagos.Cors.Safety.{
  IsSafe, named_response, wildcard_response, preflight_base, named_preflight, wildcard_preflight,
}

abbrev credentials_of : Refusable Cors → Bool
credentials_of (ok c) = c.credentials
credentials_of _ = false

abbrev wildcard_of : Refusable Cors → Bool
wildcard_of (ok c) = c.wildcard_without_credentials
wildcard_of _ = false

abbrev NeverBoth : Refusable Cors → Type 0
NeverBoth r = wildcard_of r ≡ true → credentials_of r ≡ false

compile_rules-NeverBoth :
    (cfg : CorsConfig) (rules : List OriginRule) → NeverBoth (compile_rules cfg rules)
unfolding compile_rules
compile_rules-NeverBoth cfg rules =
    if_cases NeverBoth wildcard_with_credentials _ (any is_any rules && cfg.credentials)
      (λ e w. refl) (λ e w. ground arith)

compile_parsed-NeverBoth :
    (cfg : CorsConfig) (r : Refusable (List OriginRule)) → NeverBoth (compile_parsed cfg r)
unfolding compile_parsed
compile_parsed-NeverBoth cfg (ok rules) w = compile_rules-NeverBoth cfg rules w
compile_parsed-NeverBoth cfg no_scheme w = refl
compile_parsed-NeverBoth cfg no_host w = refl
compile_parsed-NeverBoth cfg has_path w = refl
compile_parsed-NeverBoth cfg empty_suffix w = refl
compile_parsed-NeverBoth cfg no_origins w = refl
compile_parsed-NeverBoth cfg wildcard_with_credentials w = refl

-- A policy that answers with a wildcard sends no credentials.
compiled_apart :
    (cfg : CorsConfig) (c : Cors)
    → compile cfg ≡ ok c
    → c.wildcard_without_credentials ≡ true
    → c.credentials ≡ false
unfolding compile
compiled_apart cfg c h w =
    let P =
      if_cases NeverBoth no_origins (compile_parsed cfg (parse_all cfg.origins))
        (is_empty cfg.origins) (λ e v. refl)
        (λ e. compile_parsed-NeverBoth cfg (parse_all cfg.origins)) in
    sym (ap credentials_of h) ∙ P (ap wildcard_of h ∙ w)

-- What `allow_origin` answers, and why.
abbrev Answered : Cors → Text → Option (Text × Bool) → Type 0
Answered c origin answer =
    (a : Text × Bool)
    → answer ≡ some a
    → (allows c origin ≡ true)
      × (((c.wildcard_without_credentials ≡ true) × ((codes "*", false) ≡ a))
          ⊎ ((origin, true) ≡ a))

some_injective : {A : Type 0} (a b : A) → some a ≡ some b → a ≡ b
some_injective {A = A} a b h = ap (λ (o : Option A). elim o [ none ↦ a | some x ↦ x ]) h

allow_origin-Answered : (c : Cors) (origin : Text) → Answered c origin (allow_origin c origin)
unfolding allow_origin
allow_origin-Answered c origin =
    if_cases (Answered c origin) none _ (not (allows c origin)) (λ e a h. cc)
      (λ e.
        if_cases (Answered c origin) (some (codes "*", false)) (some (origin, true))
          c.wildcard_without_credentials (λ w a h. (ground arith, inl (w, some_injective _ a h)))
          (λ w a h. (ground arith, inr (some_injective _ a h))))

module _ (c : Cors) (origin : Text)
    (apart : c.wildcard_without_credentials ≡ true → c.credentials ≡ false) where
  response_headers-IsSafe :
      (a : Text × Bool)
      → ((c.wildcard_without_credentials ≡ true) × ((codes "*", false) ≡ a)) ⊎ ((origin, true) ≡ a)
      → IsSafe origin (response_headers c a)
  unfolding response_headers
  response_headers-IsSafe a (inr e) =
      subst (λ (x : Text × Bool). IsSafe origin (response_headers c x)) e
        (named_response origin (not (is_empty c.expose)) c.credentials (join (codes ", ") c.expose))
  response_headers-IsSafe a (inl (w, e)) =
      subst (λ (x : Text × Bool). IsSafe origin (response_headers c x)) e
        (subst
          (λ (b : Bool). IsSafe origin (
            push_if false (codes "vary") (codes "Origin") (
              push_if (not (is_empty c.expose)) (codes "access-control-expose-headers")
                (join (codes ", ") c.expose)
                (push_if b (codes "access-control-allow-credentials") (codes "true")
                  ((codes "access-control-allow-origin", codes "*") ∷ [])))))
          (sym (apart w))
          (wildcard_response origin (not (is_empty c.expose)) (join (codes ", ") c.expose)))

  preflight_headers-IsSafe :
      (a : Text × Bool)
      → ((c.wildcard_without_credentials ≡ true) × ((codes "*", false) ≡ a)) ⊎ ((origin, true) ≡ a)
      → IsSafe origin (preflight_headers c a)
  unfolding preflight_headers
  preflight_headers-IsSafe a (inr e) =
      subst (λ (x : Text × Bool). IsSafe origin (preflight_headers c x)) e
        (named_preflight origin (join (codes ", ") c.headers) (join (codes ", ") c.methods)
          (decimal c.max_age) c.credentials (not (is_empty c.headers)))
  preflight_headers-IsSafe a (inl (w, e)) =
      subst (λ (x : Text × Bool). IsSafe origin (preflight_headers c x)) e
        (subst
          (λ (b : Bool). IsSafe origin (
            push_if false (codes "vary") (codes "Origin, Access-Control-Request-Method") (
              push_if b (codes "access-control-allow-credentials") (codes "true") (
                push_if (not (is_empty c.headers)) (codes "access-control-allow-headers")
                  (join (codes ", ") c.headers)
                  (preflight_base origin (join (codes ", ") c.headers) (join (codes ", ") c.methods)
                    (decimal c.max_age) (codes "*"))))))
          (sym (apart w))
          (wildcard_preflight origin (join (codes ", ") c.headers) (join (codes ", ") c.methods)
            (decimal c.max_age) (not (is_empty c.headers))))

-- A compiled policy adds headers, to a response or to a preflight, only for an origin that one of
-- its rules matches, and then they are safe: either every origin may read and no credentials are
-- allowed, or exactly this origin may and `Vary` tells caches that the answer depends on it.
pub answers-IsSafe :
    (cfg : CorsConfig) (c : Cors) (origin method : Text) (out : Headers)
    → compile cfg ≡ ok c
    → (response c origin ≡ some out) ⊎ (preflight c origin method ≡ some out)
    → (any (λ r. matches r origin) c.rules ≡ true) × IsSafe origin out
unfolding response preflight allows
answers-IsSafe cfg c origin method out h (inl r) = elim (Option-cases (allow_origin c origin)) [
  | inl e ↦ absurd (ground arith)
  | inr (a, e) ↦
      let (allowed, why) = allow_origin-Answered c origin a e in
      let same : response_headers c a ≡ out = ground arith in
      (
        unfold allows in allowed,
        subst (IsSafe origin) same
            (response_headers-IsSafe c origin (compiled_apart cfg c h) a why),
      )
]
answers-IsSafe cfg c origin method out h (inr r) = elim (Option-cases (allow_origin c origin)) [
  | inl e ↦ absurd (ground arith)
  | inr (a, e) ↦
      let (allowed, why) = allow_origin-Answered c origin a e in
      let same : preflight_headers c a ≡ out = ground arith in
      (
        unfold allows in allowed,
        subst (IsSafe origin) same
            (preflight_headers-IsSafe c origin (compiled_apart cfg c h) a why),
      )
]
