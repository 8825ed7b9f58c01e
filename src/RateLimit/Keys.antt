-- ===== src/RateLimit/Keys.antt =====
-- The keys of limiters, crates/lagos-core/src/ratelimit/mod.rs.
-- A header is given as its values in order, `none` where `to_str` fails.
use lagos.Prelude.{
  ℕ, ◌==◌, leb, if◌then◌else◌, Bool, not, ◌&&◌, ◌||◌, Option, none, some, List, [], ◌∷◌, ◌++◌, any,
  Result, ok, err, ◌>>=◌,
}
use lagos.Text.{Text, is_empty}
use lagos.Config.{RateLimitKey, MissingKey}
use lagos.Headers.{client_address}

pub data KeyError : Type 0 where
  missing invalid : KeyError

-- `format!("{route_id}|{raw}")`
unfoldable pub scoped : Text → Text → Text
scoped route_id raw = route_id ++ b'|' ∷ raw

unfoldable pub non_empty_text : Option Text → Option Text
non_empty_text none = none
non_empty_text (some s) = if is_empty s then none else some s

unfoldable pub raw_key :
    (Text → Bool)
    → RateLimitKey
    → ℕ
    → Option Text
    → Option Text
    → Option Text
    → (Text → Option Text)
    → Option Text
unfolding client_address non_empty_text
raw_key is_ip RateLimitKey.ip proxies subject forwarded_for peer header =
    client_address is_ip forwarded_for peer proxies
raw_key is_ip RateLimitKey.identity proxies subject forwarded_for peer header =
    non_empty_text subject
raw_key is_ip RateLimitKey.route proxies subject forwarded_for peer header = some []
raw_key is_ip (RateLimitKey.header name) proxies subject forwarded_for peer header = header name

unfoldable pub scoped_option : Text → Option Text → Option Text
unfolding scoped
scoped_option route_id none = none
scoped_option route_id (some raw) = some (scoped route_id raw)

unfoldable pub key_for :
    (Text → Bool)
    → RateLimitKey
    → ℕ
    → Text
    → Option Text
    → Option Text
    → Option Text
    → (Text → Option Text)
    → Option Text
unfolding raw_key scoped_option
key_for is_ip key proxies route_id subject forwarded_for peer header =
    scoped_option route_id (raw_key is_ip key proxies subject forwarded_for peer header)

-- `trim_matches([' ', '\t'])`
unfoldable pub is_ows : ℕ → Bool
is_ows c = c == b' ' || c == b'\t'

unfoldable pub trim_ows_start : Text → Text
unfolding is_ows
trim_ows_start [] = []
trim_ows_start (c ∷ cs) = let rest = trim_ows_start cs in if is_ows c then rest else c ∷ cs

unfoldable pub trim_ows_end : Text → Text
unfolding is_ows
trim_ows_end [] = []
trim_ows_end (c ∷ cs) =
    let rest = trim_ows_end cs in if is_ows c && is_empty rest then [] else c ∷ rest

unfoldable pub is_ambiguous_char : ℕ → Bool
is_ambiguous_char c = not (leb 0x21 c && leb c 0x7e) || c == b','

unfoldable pub checked_value : Text → Result (Option Text) KeyError
unfolding is_ambiguous_char
checked_value value =
    if is_empty value || any is_ambiguous_char value then err invalid else ok (some value)

unfoldable pub header_key : List (Option Text) → Result (Option Text) KeyError
unfolding trim_ows_start trim_ows_end checked_value
header_key [] = ok none
header_key (none ∷ []) = err invalid
header_key (some value ∷ []) = checked_value (trim_ows_end (trim_ows_start value))
header_key (value ∷ (next ∷ more)) = err invalid

unfoldable pub header_value :
    RateLimitKey → (Text → List (Option Text)) → Result (Option Text) KeyError
unfolding header_key
header_value (RateLimitKey.header name) headers = header_key (headers name)
header_value RateLimitKey.ip headers = ok none
header_value RateLimitKey.identity headers = ok none
header_value RateLimitKey.route headers = ok none

unfoldable pub missing_key : MissingKey → Text → Option Text → Result (Option Text) KeyError
unfolding scoped
missing_key MissingKey.reject route_id peer = err missing
missing_key MissingKey.route route_id peer = ok (some (scoped route_id []))
missing_key MissingKey.ip route_id (some ip) = ok (some (scoped route_id ip))
missing_key MissingKey.ip route_id none = err missing
missing_key MissingKey.skip route_id peer = ok none

unfoldable pub found_or :
    Option Text → MissingKey → Text → Option Text → Result (Option Text) KeyError
unfolding missing_key
found_or (some key) policy route_id peer = ok (some key)
found_or none policy route_id peer = missing_key policy route_id peer

unfoldable pub admission_key :
    (Text → Bool)
    → RateLimitKey
    → MissingKey
    → ℕ
    → Text
    → Option Text
    → Option Text
    → Option Text
    → (Text → List (Option Text))
    → Result (Option Text) KeyError
unfolding header_value key_for found_or
admission_key is_ip key policy proxies route_id subject forwarded_for peer headers = do
  value ← header_value key headers
  found_or (key_for is_ip key proxies route_id subject forwarded_for peer (λ name. value)) policy
      route_id peer
