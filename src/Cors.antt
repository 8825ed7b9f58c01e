-- ===== src/Cors.antt =====
-- Cross-origin resource sharing, crates/lagos-core/src/cors.rs.
pub mod Safety
pub mod Policy
mod Tests
use lagos.Prelude.{
  ℕ, zero, suc, ◌+◌, ◌/◌, ◌%◌, ◌==◌, ltb, if◌then◌else◌, Bool, true, false, not, ◌&&◌, ◌||◌, Option,
  none, some, List, [], ◌∷◌, ◌++◌, map, any,
}
use lagos.Text.Decimal.{decimal}
use lagos.Text.{
  split_once_text, Text, codes, is_empty, contains, join, strip_prefix, strip_suffix,
  ends_with_char, byte_len, text_eq, to_ascii_lowercase, to_ascii_uppercase, trim,
}

pub record CorsConfig : Type 0 where
  pub origins : List Text
  pub methods : List Text
  pub headers : List Text
  pub expose : List Text
  pub credentials : Bool
  pub max_age : ℕ  -- seconds

pub data OriginRule : Type 0 where
  any_origin : OriginRule
  exact : Text → OriginRule
  suffix : Text → Text → OriginRule

-- The result of what can be refused; the texts of the errors are left out.
pub data Refusable (A : Type 0) : Type 0 where
  ok : A → Refusable A
  no_scheme no_host has_path empty_suffix no_origins wildcard_with_credentials : Refusable A

parse_rest : Text → Text → Text → Refusable OriginRule
parse_rest raw scheme rest =
    if is_empty rest
    then no_host
    else if contains b'/' rest
    then has_path
    else elim (strip_prefix rest (codes "*.")) [
      | none ↦ ok (exact (to_ascii_lowercase raw))
      | some s ↦
          if is_empty s
          then empty_suffix
          else ok (suffix (to_ascii_lowercase scheme) (to_ascii_lowercase s))
    ]

unfoldable pub parse : Text → Refusable OriginRule
unfolding parse_rest
parse raw =
    let raw = trim raw in
    if text_eq raw (codes "*") then ok any_origin else elim (split_once_text raw (codes "://")) [
      | none ↦ no_scheme
      | some parts ↦ parse_rest raw parts.0 parts.1
    ]

-- `host.ends_with(suffix)` and the slice in front of the suffix are one `strip_suffix`.
is_below : Text → Text → Bool
is_below host s = elim (strip_suffix host s) [
  | none ↦ false
  | some p ↦ ltb (byte_len s + 1) (byte_len host) && ends_with_char b'.' p
]

matches_lowered : OriginRule → Text → Bool
unfolding is_below
matches_lowered any_origin origin = true
matches_lowered (exact want) origin = text_eq origin want
matches_lowered (suffix scheme s) origin = elim (split_once_text origin (codes "://")) [
  | none ↦ false
  | some parts ↦ text_eq parts.0 scheme && is_below parts.1 s
]

unfoldable pub matches : OriginRule → Text → Bool
unfolding matches_lowered
matches rule origin = matches_lowered rule (to_ascii_lowercase (trim origin))

pub record Cors : Type 0 where
  pub rules : List OriginRule
  pub methods : List Text
  pub headers : List Text
  pub expose : List Text
  pub credentials : Bool
  pub max_age : ℕ
  pub wildcard_without_credentials : Bool

-- `map` and `collect`: the first refusal, if there is one.
unfoldable pub prepend : OriginRule → Refusable (List OriginRule) → Refusable (List OriginRule)
prepend rule (ok rules) = ok (rule ∷ rules)
prepend rule no_scheme = no_scheme
prepend rule no_host = no_host
prepend rule has_path = has_path
prepend rule empty_suffix = empty_suffix
prepend rule no_origins = no_origins
prepend rule wildcard_with_credentials = wildcard_with_credentials

unfoldable pub collect :
    Refusable OriginRule → Refusable (List OriginRule) → Refusable (List OriginRule)
collect (ok rule) rest = prepend rule rest
collect no_scheme rest = no_scheme
collect no_host rest = no_host
collect has_path rest = has_path
collect empty_suffix rest = empty_suffix
collect no_origins rest = no_origins
collect wildcard_with_credentials rest = wildcard_with_credentials

unfoldable pub parse_all : List Text → Refusable (List OriginRule)
parse_all [] = ok []
parse_all (o ∷ os) = collect (parse o) (parse_all os)

unfoldable pub is_any : OriginRule → Bool
is_any any_origin = true
is_any _ = false

unfoldable pub compile_rules : CorsConfig → List OriginRule → Refusable Cors
compile_rules cfg rules =
    let wildcard = any is_any rules in
    if wildcard && cfg.credentials
    then wildcard_with_credentials
    else ok (record {
      rules = rules;
      methods = map to_ascii_uppercase cfg.methods;
      headers = map to_ascii_lowercase cfg.headers;
      expose = map to_ascii_lowercase cfg.expose;
      credentials = cfg.credentials;
      max_age = cfg.max_age;
      wildcard_without_credentials = wildcard && not cfg.credentials;
    })

unfoldable pub compile_parsed : CorsConfig → Refusable (List OriginRule) → Refusable Cors
compile_parsed cfg (ok rules) = compile_rules cfg rules
compile_parsed cfg no_scheme = no_scheme
compile_parsed cfg no_host = no_host
compile_parsed cfg has_path = has_path
compile_parsed cfg empty_suffix = empty_suffix
compile_parsed cfg no_origins = no_origins
compile_parsed cfg wildcard_with_credentials = wildcard_with_credentials

unfoldable pub compile : CorsConfig → Refusable Cors
compile cfg =
    if is_empty cfg.origins then no_origins else compile_parsed cfg (parse_all cfg.origins)

unfoldable pub allows : Cors → Text → Bool
allows c origin = any (λ r. matches r origin) c.rules

unfoldable pub allow_origin : Cors → Text → Option (Text × Bool)
allow_origin c origin =
    if not (allows c origin)
    then none
    else if c.wildcard_without_credentials
    then some (codes "*", false)
    else some (origin, true)

abbrev pub Headers : Type 0
Headers = List (Text × Text)

abbrev pub push_if : Bool → Text → Text → Headers → Headers
push_if b name value out = if b then out ++ (name, value) ∷ [] else out

unfoldable pub preflight_headers : Cors → Text × Bool → Headers
preflight_headers c (value, varies) =
    push_if varies (codes "vary") (codes "Origin, Access-Control-Request-Method") (
      push_if c.credentials (codes "access-control-allow-credentials") (codes "true") (
        push_if (not (is_empty c.headers)) (codes "access-control-allow-headers")
          (join (codes ", ") c.headers)
          ((codes "access-control-allow-origin", value)
            ∷ ((codes "access-control-allow-methods", join (codes ", ") c.methods)
                ∷ ((codes "access-control-max-age", decimal c.max_age) ∷ [])))))

unfoldable pub preflight : Cors → Text → Text → Option Headers
preflight c origin requested_method = elim (allow_origin c origin) [
  | none ↦ none
  | some answer ↦
      if any (λ m. text_eq m (to_ascii_uppercase (trim requested_method))) c.methods
      then some (preflight_headers c answer)
      else none
]

unfoldable pub response_headers : Cors → Text × Bool → Headers
response_headers c (value, varies) = push_if varies (codes "vary") (codes "Origin") (
    push_if (not (is_empty c.expose)) (codes "access-control-expose-headers")
      (join (codes ", ") c.expose)
      (push_if c.credentials (codes "access-control-allow-credentials") (codes "true")
        ((codes "access-control-allow-origin", value) ∷ [])))

unfoldable pub response : Cors → Text → Option Headers
response c origin = elim (allow_origin c origin) [
  | none ↦ none
  | some answer ↦ some (response_headers c answer)
]
