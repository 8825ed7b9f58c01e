-- ===== src/Cors/Safety.antt =====
-- Headers that are safe to answer a browser with, cors.rs.
use lagos.Prelude.{
  ◌≡◌, ◌⊎◌, inl, inr, refl, if◌then◌else◌, Bool, true, false, Option, none, some, [], ◌∷◌,
}
use lagos.Text.{Text, codes, text_eq, starts_with}
use lagos.Cors.{Headers, push_if}

-- The value of a header among those to add.
unfoldable pub header_of : Text → Headers → Option Text
header_of name [] = none
header_of name ((n, v) ∷ rest) =
    let more = header_of name rest in if text_eq n name then some v else more

-- Any origin may read, but without credentials; or this origin may, and caches are told that the
-- answer depends on it.
abbrev pub IsSafe : Text → Headers → Type 0
IsSafe origin out =
    ((header_of (codes "access-control-allow-origin") out ≡ some (codes "*"))
      × (header_of (codes "access-control-allow-credentials") out ≡ none))
    ⊎ ((header_of (codes "access-control-allow-origin") out ≡ some origin)
        × (v : Text) × (header_of (codes "vary") out ≡ some v)
        × (starts_with v (codes "Origin") ≡ true))

module _ (origin : Text) where
  pub named_response :
      (expose credentials : Bool) (exposed : Text)
      → IsSafe origin (
          push_if true (codes "vary") (codes "Origin") (
            push_if expose (codes "access-control-expose-headers") exposed (
              push_if credentials
                (codes "access-control-allow-credentials")
                (codes "true")
                ((codes "access-control-allow-origin", origin) ∷ []))))
  unfolding header_of text_eq starts_with
  named_response true true exposed = inr (refl, codes "Origin", refl, refl)
  named_response true false exposed = inr (refl, codes "Origin", refl, refl)
  named_response false true exposed = inr (refl, codes "Origin", refl, refl)
  named_response false false exposed = inr (refl, codes "Origin", refl, refl)

  pub wildcard_response :
      (expose : Bool) (exposed : Text)
      → IsSafe origin (
          push_if false (codes "vary") (codes "Origin") (
            push_if expose (codes "access-control-expose-headers") exposed (
              push_if false
                (codes "access-control-allow-credentials")
                (codes "true")
                ((codes "access-control-allow-origin", codes "*") ∷ []))))
  unfolding header_of text_eq
  wildcard_response true exposed = inl (refl, refl)
  wildcard_response false exposed = inl (refl, refl)

  module _ (headers methods age : Text) where
    abbrev pub preflight_base : Text → Headers
    preflight_base value =
        (codes "access-control-allow-origin", value)
        ∷ ((codes "access-control-allow-methods", methods)
            ∷ ((codes "access-control-max-age", age) ∷ []))

    pub named_preflight :
        (credentials listed : Bool)
        → IsSafe origin (
            push_if true (codes "vary") (codes "Origin, Access-Control-Request-Method") (
              push_if credentials (codes "access-control-allow-credentials") (codes "true") (
                push_if listed
                  (codes "access-control-allow-headers")
                  headers
                  (preflight_base origin))))
    unfolding header_of text_eq starts_with
    named_preflight true true =
        inr (refl, codes "Origin, Access-Control-Request-Method", refl, refl)
    named_preflight true false =
        inr (refl, codes "Origin, Access-Control-Request-Method", refl, refl)
    named_preflight false true =
        inr (refl, codes "Origin, Access-Control-Request-Method", refl, refl)
    named_preflight false false =
        inr (refl, codes "Origin, Access-Control-Request-Method", refl, refl)

    pub wildcard_preflight :
        (listed : Bool)
        → IsSafe origin (
            push_if false (codes "vary") (codes "Origin, Access-Control-Request-Method") (
              push_if false (codes "access-control-allow-credentials") (codes "true") (
                push_if listed
                  (codes "access-control-allow-headers")
                  headers
                  (preflight_base (codes "*")))))
    unfolding header_of text_eq
    wildcard_preflight true = inl (refl, refl)
    wildcard_preflight false = inl (refl, refl)
