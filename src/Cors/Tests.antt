-- ===== src/Cors/Tests.antt =====
-- A policy with a named origin and one with a wildcard sub-domain, and the theorem applied to it.
use lagos.Prelude.{◌≡◌, inl, refl, true, false, none, some, [], ◌∷◌, any}
use lagos.Text.Decimal.{decimal}
use lagos.Text.{Text, codes}
use lagos.Cors.{
  CorsConfig, Cors, OriginRule, exact, suffix, ok, compile, matches, response, Headers,
}
use lagos.Cors.Safety.{IsSafe}
use lagos.Cors.Policy.{answers-IsSafe}

ten_minutes : decimal 600 ≡ codes "600"
unfolding decimal
ten_minutes = refl

abbrev cfg : CorsConfig
cfg = record {
  origins = codes "https://app.test" ∷ (codes "https://*.preview.test" ∷ []);
  methods = codes "get" ∷ [];
  headers = [];
  expose = [];
  credentials = true;
  max_age = 600;
}

abbrev cors : Cors
cors = record {
  rules = exact (codes "https://app.test") ∷ (suffix (codes "https") (codes "preview.test") ∷ []);
  methods = codes "GET" ∷ [];
  headers = [];
  expose = [];
  credentials = true;
  max_age = 600;
  wildcard_without_credentials = false;
}

compiled : compile cfg ≡ ok cors
unfolding compile lagos.Cors.compile_parsed lagos.Cors.compile_rules lagos.Cors.parse_all
    lagos.Cors.collect lagos.Cors.prepend lagos.Cors.parse lagos.Text.split_once_text
    lagos.Cors.is_any lagos.Cors.allows lagos.Cors.allow_origin lagos.Cors.response_headers
    lagos.Text.strip_prefix lagos.Text.strip_suffix lagos.Text.ends_with_char lagos.Text.byte_len
    lagos.Text.join lagos.Text.text_eq lagos.Text.to_ascii_lowercase lagos.Text.to_ascii_uppercase
    lagos.Text.lower_char lagos.Text.upper_char lagos.Text.trim lagos.Text.trim_start
    lagos.Text.trim_end
compiled = refl

evil_is_refused : response cors (codes "https://evilpreview.test") ≡ none
unfolding response matches lagos.Cors.compile_parsed lagos.Cors.compile_rules lagos.Cors.parse_all
    lagos.Cors.collect lagos.Cors.prepend lagos.Cors.parse lagos.Text.split_once_text
    lagos.Cors.is_any lagos.Cors.allows lagos.Cors.allow_origin lagos.Cors.response_headers
    lagos.Text.strip_prefix lagos.Text.strip_suffix lagos.Text.ends_with_char lagos.Text.byte_len
    lagos.Text.join lagos.Text.text_eq lagos.Text.to_ascii_lowercase lagos.Text.to_ascii_uppercase
    lagos.Text.lower_char lagos.Text.upper_char lagos.Text.trim lagos.Text.trim_start
    lagos.Text.trim_end
evil_is_refused = refl

abbrev answer : Headers
answer =
    (codes "access-control-allow-origin", codes "https://a.preview.test")
    ∷ ((codes "access-control-allow-credentials", codes "true")
        ∷ ((codes "vary", codes "Origin") ∷ []))

answered : response cors (codes "https://a.preview.test") ≡ some answer
unfolding response matches lagos.Cors.compile_parsed lagos.Cors.compile_rules lagos.Cors.parse_all
    lagos.Cors.collect lagos.Cors.prepend lagos.Cors.parse lagos.Text.split_once_text
    lagos.Cors.is_any lagos.Cors.allows lagos.Cors.allow_origin lagos.Cors.response_headers
    lagos.Text.strip_prefix lagos.Text.strip_suffix lagos.Text.ends_with_char lagos.Text.byte_len
    lagos.Text.join lagos.Text.text_eq lagos.Text.to_ascii_lowercase lagos.Text.to_ascii_uppercase
    lagos.Text.lower_char lagos.Text.upper_char lagos.Text.trim lagos.Text.trim_start
    lagos.Text.trim_end
answered = refl

answers-IsSafe_example :
    (any (λ r. matches r (codes "https://a.preview.test")) cors.rules ≡ true)
    × IsSafe (codes "https://a.preview.test") answer
answers-IsSafe_example =
    answers-IsSafe cfg cors (codes "https://a.preview.test") (codes "GET") answer compiled
      (inl answered)
