-- ===== src/Csrf/Tests.antt =====
-- A request whose one origin is the configured one, with the theorem applied to it.
use lagos.Prelude.{◌≡◌, ◌⊎◌, refl, true, false, Option, none, some, [], ◌∷◌}
use lagos.Text.{Text, codes, text_eq}
use lagos.Csrf.{Url, CookieProtection, pass, compile, check, is_safe_method}
use lagos.Csrf.Origin.{Names, unsafe_needs_known_origin}

-- A parser that knows the one URL.
parse_url : Text → Option Url
parse_url s = elim (text_eq s (codes "https://app.test")) [
  | false ↦ none
  | true ↦ some (record {
    scheme = codes "https";
    has_host = true;
    username = [];
    has_password = false;
    path = codes "/";
    has_query = false;
    has_fragment = false;
    origin = codes "https://app.test";
  })
]

abbrev protection : CookieProtection
protection = record { origins = codes "https://app.test" ∷ []; referer_fallback = false }

compiled : compile parse_url (codes "https://app.test" ∷ []) false ≡ some protection
unfolding compile lagos.Csrf.compile_origins parse_url lagos.Csrf.origin_of lagos.Csrf.is_plain
    lagos.Csrf.is_origin lagos.Text.byte_len lagos.Text.text_eq is_safe_method
compiled = refl

post_is_unsafe : is_safe_method (codes "POST") ≡ false
unfolding is_safe_method text_eq
post_is_unsafe = refl

passed :
    check parse_url protection (some (codes "https://app.test") ∷ []) [] (codes "POST") ≡ pass tt
unfolding check lagos.Csrf.single lagos.Csrf.check_origin lagos.Csrf.compare_origin parse_url
    lagos.Csrf.origin_of lagos.Csrf.is_plain lagos.Csrf.is_origin lagos.Text.byte_len
    lagos.Text.text_eq is_safe_method
passed = refl

unsafe_needs_known_origin_example :
    Names parse_url protection false (some (codes "https://app.test") ∷ [])
    ⊎ ((some (codes "https://app.test") ∷ [] ≡ [])
        × (false ≡ true)
        × Names parse_url protection true [])
unsafe_needs_known_origin_example =
    unsafe_needs_known_origin parse_url protection (some (codes "https://app.test") ∷ []) []
      (codes "POST") post_is_unsafe passed
