-- ===== src/Identity.antt =====
-- Describing the verified caller to upstreams, crates/lagos-core/src/identity.rs, its settings in
-- config/mod.rs, and the call of it in proxy.rs.
-- `encode_claims` is `serde_json::to_vec(_).ok()` with the encoding of base64 after it, and
-- `sign claims secret` is `jsonwebtoken::encode` with the algorithm HS256, its error as a text.
pub mod Removals
pub mod Forged
pub mod Safe
pub mod Blame
mod Tests
use lagos.Prelude.{
  ℕ, ◌==◌, ◌/◌, leb, if◌then◌else◌, Bool, true, false, not, ◌&&◌, ◌||◌, Option, none, some, List,
  [], ◌∷◌, ◌++◌, all, Result, ok, err, ◌>>=◌, nanos_per_sec, saturating_add, u64_max,
}
use lagos.Text.{Text, codes, is_empty}
use lagos.Binding.{Value, Items, Fields, Identity, claim_at}
use lagos.Headers.{HeaderPlan, set_header, strip}

pub record ClaimMapping : Type 0 where
  pub claim : Text
  pub when_null : Option Text

-- `ttl` is in nanoseconds.
pub record IdentityTokenConfig : Type 0 where
  pub header : Text
  pub secret : Text
  pub ttl : ℕ
  pub audience : Option Text

-- `claims` is in the order of the map's keys.
pub record IdentityConfig : Type 0 where
  pub subject_header : Text
  pub issuer_header : Text
  pub claims_header : Text
  pub claims : List (Text × ClaimMapping)
  pub token : Option IdentityTokenConfig

pub data IdentityError : Type 0 where
  claim mint : Text → IdentityError

pub record IdentityClaims : Type 0 where
  pub sub : Text
  pub iss : Text
  pub tenant : Text
  pub iat : ℕ
  pub exp : ℕ
  pub aud : Option Text

unfoldable pub is_header_safe : Text → Bool
is_header_safe value = all (λ c. c == b'\t' || leb b' ' c && leb c b'~') value

-- The message of a claim that does not fit.
unrepresentable : Text → Text → IdentityError
unrepresentable name header = IdentityError.claim (
    codes "`"
    ++ (name
        ++ (codes "` contains a character that cannot appear in header `"
            ++ (header ++ codes "`"))))

-- The subject and the issuer.
unfoldable pub put_text : Text → Text → Text → HeaderPlan → Result HeaderPlan IdentityError
unfolding is_header_safe unrepresentable set_header
put_text name header value plan =
    if is_empty header
    then ok plan
    else if not (is_header_safe value)
    then err (unrepresentable name header)
    else ok (set_header plan header value)

unfoldable pub put_encoded : Text → Option Text → HeaderPlan → HeaderPlan
put_encoded header none plan = plan
put_encoded header (some value) plan =
    if is_empty header then plan else set_header plan header value

unfoldable pub render : Text → ClaimMapping → Value → Result (Option Text) IdentityError
render header mapping (Value.string v) = ok (some v)
render header mapping (Value.number n) = ok (some n)
render header mapping (Value.boolean true) = ok (some (codes "true"))
render header mapping (Value.boolean false) = ok (some (codes "false"))
render header mapping Value.null = ok mapping.when_null
render header mapping (Value.array items) = err (
    IdentityError.claim (
      codes "claim `"
      ++ (mapping.claim
          ++ (codes "` is a structure and cannot become header `" ++ (header ++ codes "`")))))
render header mapping (Value.object fields) = err (
    IdentityError.claim (
      codes "claim `"
      ++ (mapping.claim
          ++ (codes "` is a structure and cannot become header `" ++ (header ++ codes "`")))))

unfoldable pub put_rendered :
    Text → ClaimMapping → HeaderPlan → Option Text → Result HeaderPlan IdentityError
unfolding is_header_safe set_header
put_rendered header mapping plan none = ok plan
put_rendered header mapping plan (some rendered) =
    if not (is_header_safe rendered)
    then err (
        IdentityError.claim (
          codes "claim `"
          ++ (mapping.claim
              ++ (codes "` contains a character that cannot appear in header `"
                  ++ (header ++ codes "`")))))
    else ok (set_header plan header rendered)

unfoldable pub put_claim :
    Text → ClaimMapping → HeaderPlan → Option Value → Result HeaderPlan IdentityError
unfolding render put_rendered
put_claim header mapping plan none = ok plan
put_claim header mapping plan (some value) =
    render header mapping value >>= (λ rendered. put_rendered header mapping plan rendered)

unfoldable pub claim_header :
    Identity → Text → ClaimMapping → HeaderPlan → Result HeaderPlan IdentityError
unfolding put_claim claim_at strip
claim_header identity header mapping plan =
    if is_empty header
    then ok plan
    else put_claim header mapping (strip plan header) (claim_at identity mapping.claim)

unfoldable pub apply_claim_headers :
    Identity → List (Text × ClaimMapping) → HeaderPlan → Result HeaderPlan IdentityError
unfolding claim_header
apply_claim_headers identity [] plan = ok plan
apply_claim_headers identity ((header, mapping) ∷ more) plan =
    claim_header identity header mapping plan >>= (λ p. apply_claim_headers identity more p)

module _ (encode_claims : Fields → Option Text) (sign : IdentityClaims → Text → Result Text Text)
    (now : ℕ) where
  unfoldable pub mint_token : IdentityTokenConfig → Text → Identity → Result Text Text
  mint_token cfg secret identity =
      sign
        (record {
          sub = identity.subject;
          iss = identity.issuer;
          tenant = identity.audience;
          iat = now;
          exp = saturating_add u64_max now (cfg.ttl / nanos_per_sec);
          aud = cfg.audience;
        })
        secret

  unfoldable pub put_token : Text → HeaderPlan → Result Text Text → Result HeaderPlan IdentityError
  put_token header plan (ok token) = ok (set_header plan header token)
  put_token header plan (err e) = err (IdentityError.mint e)

  unfoldable pub apply_token :
      Option IdentityTokenConfig
      → Option Text
      → Identity
      → HeaderPlan
      → Result HeaderPlan IdentityError
  unfolding mint_token put_token
  apply_token none secret identity plan = ok plan
  apply_token (some cfg) (some secret) identity plan =
      put_token cfg.header plan (mint_token cfg secret identity)
  apply_token (some cfg) none identity plan = ok (strip plan cfg.header)

  unfoldable pub apply :
      HeaderPlan → IdentityConfig → Option Text → Identity → Result HeaderPlan IdentityError
  unfolding put_text put_encoded apply_claim_headers apply_token
  apply plan cfg secret identity =
      put_text (codes "sub") cfg.subject_header identity.subject plan
      >>= (λ p. put_text (codes "iss") cfg.issuer_header identity.issuer p)
      >>= (λ p.
          apply_claim_headers identity cfg.claims
            (put_encoded cfg.claims_header (encode_claims identity.claims) p))
      >>= (λ p. apply_token cfg.token secret identity p)

unfoldable pub strip_named : List Text → HeaderPlan → HeaderPlan
strip_named [] plan = plan
strip_named (h ∷ hs) plan = strip_named hs (if is_empty h then plan else strip plan h)

abbrev pub keys : List (Text × ClaimMapping) → List Text
keys [] = []
keys ((header, mapping) ∷ more) = header ∷ keys more

unfoldable pub strip_token : Option IdentityTokenConfig → HeaderPlan → HeaderPlan
strip_token none plan = plan
strip_token (some t) plan = strip plan t.header

unfoldable pub strip_all : HeaderPlan → IdentityConfig → HeaderPlan
unfolding strip_named strip_token
strip_all plan cfg = strip_token cfg.token (
    strip_named (keys cfg.claims)
      (strip_named (cfg.subject_header ∷ (cfg.issuer_header ∷ (cfg.claims_header ∷ []))) plan))

-- What `request_filter` of proxy.rs does with the caller, if it has verified one.
unfoldable pub describe_caller :
    (Fields → Option Text)
    → (IdentityClaims → Text → Result Text Text)
    → ℕ
    → HeaderPlan
    → IdentityConfig
    → Option Text
    → Option Identity
    → Result HeaderPlan IdentityError
unfolding apply strip_all
describe_caller encode_claims sign now plan cfg secret none = ok (strip_all plan cfg)
describe_caller encode_claims sign now plan cfg secret (some identity) =
    apply encode_claims sign now plan cfg secret identity
