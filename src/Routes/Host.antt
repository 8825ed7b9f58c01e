-- ===== src/Routes/Host.antt =====
-- Host patterns and the `Host` header, of routes/mod.rs.
pub mod Overlap
use lagos.Prelude.{
  ℕ, ◌+◌, ◌==◌, ltb, if◌then◌else◌, Bool, true, false, ◌&&◌, ◌||◌, Option, none, some, List, [],
  ◌∷◌,
}
use lagos.Text.{
  Text, codes, is_empty, contains, before, byte_len, starts_with_char, ends_with_char, strip_prefix,
  strip_suffix, text_eq, to_ascii_lowercase, trim,
}

pub data HostPattern : Type 0 where
  exact suffix : Text → HostPattern

pub data HostError : Type 0 where
  empty_pattern looks_like_url empty_suffix : HostError

pub data Parsed : Type 0 where
  ok : HostPattern → Parsed
  err : HostError → Parsed

unfoldable pub parse : Text → Parsed
parse raw =
    let raw = to_ascii_lowercase (trim raw) in
    if is_empty raw
    then err empty_pattern
    else if contains b'/' raw
    then err looks_like_url
    else elim (strip_prefix raw (codes "*.")) [
      | none ↦ ok (exact raw)
      | some s ↦ if is_empty s then err empty_suffix else ok (suffix s)
    ]

-- `host.ends_with(suffix)` and the slice in front of the suffix are one `strip_suffix`.
unfoldable pub matches : HostPattern → Text → Bool
matches (exact want) host = text_eq host want
matches (suffix s) host = elim (strip_suffix host s) [
  | none ↦ false
  | some p ↦ ltb (byte_len s + 1) (byte_len host) && ends_with_char b'.' p
]

-- `a.strip_suffix(b).is_some_and(|prefix| prefix.ends_with('.'))`
unfoldable pub is_under : Text → Text → Bool
is_under a b = elim (strip_suffix a b) [ none ↦ false | some p ↦ ends_with_char b'.' p ]

unfoldable pub overlaps : HostPattern → HostPattern → Bool
unfolding matches is_under
overlaps (exact a) (exact b) = text_eq a b
overlaps (exact a) (suffix b) = matches (suffix b) a
overlaps (suffix a) (exact b) = matches (suffix a) b
overlaps (suffix a) (suffix b) = text_eq a b || is_under a b || is_under b a

-- The text up to and including the first `]`, or all of it if there is none.
unfoldable pub through_bracket : Text → Text
through_bracket [] = []
through_bracket (c ∷ cs) = let rest = through_bracket cs in if c == b']' then c ∷ [] else c ∷ rest

unfoldable pub normalize_host : Text → Text
normalize_host raw =
    let host = trim raw in
    if starts_with_char b'[' host then through_bracket host else before b':' host
