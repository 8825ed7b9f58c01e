-- ===== src/Csrf.antt =====
-- Origin protection of requests that a cookie authenticates, crates/lagos-core/src/csrf.rs.
-- `parse_url s` is `reqwest::Url::parse(s).ok()`, of which a `Url` holds what the code reads. A
-- header is given as its values in order, `none` where `to_str` fails; methods are upper case.
pub mod Origin
mod Tests
use lagos.Prelude.{
  ℕ, ◌==◌, leb, ltb, if◌then◌else◌, Bool, true, false, not, ◌&&◌, ◌||◌, Option, none, some, List,
  [], ◌∷◌, any,
}
use lagos.Text.{Text, codes, is_empty, contains, byte_len, text_eq}

pub record Url : Type 0 where
  pub scheme : Text
  pub has_host : Bool
  pub username : Text
  pub has_password : Bool
  pub path : Text
  pub has_query : Bool
  pub has_fragment : Bool
  pub origin : Text  -- `origin().ascii_serialization()`

pub data Refusal : Type 0 where
  ambiguous denied origin_required : Refusal

pub data Checked (A : Type 0) : Type 0 where
  pass : A → Checked A
  refuse : Refusal → Checked A

pub record CookieProtection : Type 0 where
  pub origins : List Text
  pub referer_fallback : Bool

-- No byte of a character above 0x7f is one of these.
is_refused_char : ℕ → Bool
is_refused_char c = leb c b' ' || c == 0x7f || c == 0x5c

unfoldable pub is_plain : Text → Bool
unfolding is_refused_char
is_plain raw = not (contains b'*' raw || ltb 2048 (byte_len raw) || any is_refused_char raw)

unfoldable pub is_origin : Bool → Url → Bool
is_origin referer u =
    (text_eq u.scheme (codes "http") || text_eq u.scheme (codes "https"))
    && u.has_host
    && is_empty u.username
    && not u.has_password
    && (referer || (text_eq u.path (codes "/") && not u.has_query && not u.has_fragment))

unfoldable pub single : List (Option Text) → Checked (Option Text)
single [] = pass none
single (none ∷ []) = refuse denied
single (some value ∷ []) = pass (some value)
single (value ∷ (next ∷ more)) = refuse ambiguous

unfoldable pub is_safe_method : Text → Bool
is_safe_method method =
    any (λ m. text_eq m method)
      (codes "GET" ∷ (codes "HEAD" ∷ (codes "OPTIONS" ∷ (codes "TRACE" ∷ []))))

-- `.ok_or("cookie_origin_denied")?` and the comparison
unfoldable pub compare_origin : CookieProtection → Option Text → Checked Unit
compare_origin p none = refuse denied
compare_origin p (some candidate) =
    if any (λ o. text_eq o candidate) p.origins then pass tt else refuse denied

module _ (parse_url : Text → Option Url) where
  -- The function `origin`.
  unfoldable pub origin_of : Bool → Text → Option Text
  origin_of referer raw = if not (is_plain raw) then none else elim (parse_url raw) [
    | none ↦ none
    | some u ↦ if is_origin referer u then some u.origin else none
  ]

  unfoldable pub compile_origins : List Text → Option (List Text)
  compile_origins [] = some []
  compile_origins (raw ∷ raws) =
      let rest = compile_origins raws in
      elim (origin_of false raw) [
        | none ↦ none
        | some o ↦ elim rest [ none ↦ none | some os ↦ some (o ∷ os) ]
      ]

  -- `none` for a refused configuration.
  unfoldable pub compile : List Text → Bool → Option CookieProtection
  compile origins referer_fallback =
      if is_empty origins then none else elim (compile_origins origins) [
        | none ↦ none
        | some os ↦ some (record { origins = os; referer_fallback = referer_fallback })
      ]

  unfoldable pub check_referer : CookieProtection → Checked (Option Text) → Checked Unit
  check_referer p (refuse r) = refuse r
  check_referer p (pass none) = compare_origin p none
  check_referer p (pass (some raw)) = compare_origin p (origin_of true raw)

  unfoldable pub check_origin :
      CookieProtection → List (Option Text) → Checked (Option Text) → Checked Unit
  check_origin p referer (refuse r) = refuse r
  check_origin p referer (pass (some raw)) = compare_origin p (origin_of false raw)
  check_origin p referer (pass none) =
      if p.referer_fallback then check_referer p (single referer) else refuse origin_required

  unfoldable pub check :
      CookieProtection → List (Option Text) → List (Option Text) → Text → Checked Unit
  check p origin referer method =
      if is_safe_method method then pass tt else check_origin p referer (single origin)
