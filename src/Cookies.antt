-- ===== src/Cookies.antt =====
-- Credentials in request headers, crates/lagos-core/src/auth/mod.rs: the bearer token and the cookies
-- that carry a token.
pub mod Stripping
mod Tests
use lagos.Prelude.{
  ℕ, ◌==◌, if◌then◌else◌, Bool, true, false, not, ◌&&◌, ◌||◌, Option, none, some, List, [], ◌∷◌,
  ◌++◌, map, any,
}
use lagos.Text.{
  Text, codes, is_empty, is_whitespace, split, split_once, join, trim, text_eq,
  eq_ignore_ascii_case, starts_with_char, strip_suffix,
}

-- `s.split_once(char::is_whitespace)`
unfoldable pub split_once_whitespace : Text → Option (Text × Text)
split_once_whitespace [] = none
split_once_whitespace (x ∷ xs) =
    let rest = split_once_whitespace xs in
    if is_whitespace x
    then some ([], xs)
    else elim rest [ none ↦ none | some p ↦ some (x ∷ p.0, p.1) ]

bearer_rest : Text → Text → Option Text
bearer_rest scheme rest =
    let token = trim rest in
    if not (eq_ignore_ascii_case scheme (codes "bearer"))
    then none
    else if is_empty token
    then none
    else some token

unfoldable pub bearer_token : Text → Option Text
unfolding bearer_rest
bearer_token value = elim (split_once_whitespace (trim value)) [
  | none ↦ none
  | some parts ↦ bearer_rest parts.0 parts.1
]

-- The parts between semicolons of all the headers, in order.
unfoldable pub cookie_parts : List Text → List Text
cookie_parts [] = []
cookie_parts (h ∷ hs) = split b';' h ++ cookie_parts hs

abbrev pub push_pair : Option (Text × Text) → List (Text × Text) → List (Text × Text)
push_pair none rest = rest
push_pair (some p) rest = (trim p.0, trim p.1) ∷ rest

unfoldable pub pairs_of : List Text → List (Text × Text)
pairs_of [] = []
pairs_of (part ∷ parts) = push_pair (split_once b'=' part) (pairs_of parts)

unfoldable pub cookie_pairs : List Text → List (Text × Text)
unfolding pairs_of
cookie_pairs headers = pairs_of (cookie_parts headers)

-- `.find(|(name, _)| name == wanted)`
unfoldable pub find_pair : Text → List (Text × Text) → Option Text
find_pair wanted [] = none
find_pair wanted ((name, value) ∷ rest) =
    let more = find_pair wanted rest in if text_eq name wanted then some value else more

-- `value.strip_prefix('"').and_then(|v| v.strip_suffix('"')).unwrap_or(value)`
unquoted_tail : Text → Option Text → Text
unquoted_tail value none = value
unquoted_tail value (some inner) = inner

unfoldable pub unquoted : Text → Text
unfolding unquoted_tail
unquoted [] = []
unquoted (c ∷ cs) =
    if c == b'"' then unquoted_tail (c ∷ cs) (strip_suffix cs (codes "\"")) else c ∷ cs

unfoldable pub token_of : Option Text → Option Text
token_of none = none
token_of (some value) = if is_empty (unquoted value) then none else some (unquoted value)

-- `cookie_token`, by `names.iter().find_map(…)`
unfoldable pub cookie_token : List Text → List Text → Option Text
cookie_token headers [] = none
cookie_token headers (wanted ∷ names) =
    let later = cookie_token headers names in
    elim (token_of (find_pair wanted (cookie_pairs headers))) [ none ↦ later | some t ↦ some t ]

unfoldable pub name_of_pair : Text → Option (Text × Text) → Text
name_of_pair pair none = pair
name_of_pair pair (some p) = trim p.0

-- Whether the filters of `strip_cookies` keep a trimmed pair.
unfoldable pub keeps : List Text → Text → Bool
unfolding name_of_pair
keeps names pair =
    not (is_empty pair)
    && not (any (λ n. text_eq n (name_of_pair pair (split_once b'=' pair))) names)

unfoldable pub kept_pairs : List Text → List Text → List Text
kept_pairs names [] = []
kept_pairs names (part ∷ parts) =
    let rest = kept_pairs names parts in if keeps names (trim part) then trim part ∷ rest else rest

unfoldable pub strip_cookies : List Text → List Text → Option Text
strip_cookies headers names =
    let kept = kept_pairs names (cookie_parts headers) in
    if is_empty kept then none else some (join (codes "; ") kept)
