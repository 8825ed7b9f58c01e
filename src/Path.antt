-- ===== src/Path.antt =====
-- Canonicalization of request paths, crates/lagos-core/src/path.rs.
-- The crate percent-encoding is a parameter: `decode s` is
-- `percent_decode_str(s).decode_utf8().ok()`, and `encode set s` is `utf8_percent_encode(s, set)`.
pub mod Canonical
pub mod Fixpoint
pub mod Encoding
mod Tests
use lagos.Prelude.{
  ℕ, zero, suc, ◌==◌, leb, ltb, if◌then◌else◌, Bool, true, false, ◌&&◌, ◌||◌, Option, none, some,
  List, [], ◌∷◌, map, any,
}
use lagos.Text.{Text, codes, is_empty, contains, split, before, join, text_eq, trim_matches}

unfoldable pub normalize_proxy_path : Text → Text
normalize_proxy_path path = trim_matches b'/' path

abbrev pub max_decode_passes : ℕ
max_decode_passes = 3

-- The loop over `0..MAX_DECODE_PASSES`: `none` if a pass cannot be decoded.
unfoldable pub decode_passes : (Text → Option Text) → ℕ → Text → Option Text
decode_passes decode zero decoded = some decoded
decode_passes decode (suc passes) decoded = elim (contains b'%' decoded) [
  | false ↦ some decoded
  | true ↦ elim (decode decoded) [
    | none ↦ none
    | some next ↦ elim (text_eq next decoded) [
      | true ↦ some decoded
      | false ↦ decode_passes decode passes next
    ]
  ]
]

-- Control characters, DEL and the backslash.
unfoldable pub is_hostile : ℕ → Bool
is_hostile c = ltb c 0x20 || c == 0x7f || c == 0x5c

-- `.filter(|s| !s.is_empty())`
unfoldable pub non_empty : List Text → List Text
non_empty [] = []
non_empty (s ∷ ss) = let rest = non_empty ss in if is_empty s then rest else s ∷ rest

unfoldable pub is_dot_segment : Text → Bool
is_dot_segment s = text_eq s (codes ".") || text_eq s (codes "..")

-- What follows the decoding.
unfoldable pub check_decoded : Text → Option Text
unfolding is_hostile is_dot_segment
check_decoded decoded =
    let segments = non_empty (split b'/' decoded) in
    if contains b'%' decoded
    then none
    else if any is_hostile decoded
    then none
    else if any is_dot_segment segments
    then none
    else some (join (b'/' ∷ []) segments)

unfoldable pub canonicalize_proxy_path : (Text → Option Text) → Text → Option Text
canonicalize_proxy_path decode raw =
    let without_query = before b'#' (before b'?' raw) in
    elim (decode_passes decode max_decode_passes without_query) [
      | none ↦ none
      | some decoded ↦ check_decoded decoded
    ]

-- `SEGMENT`: the controls, which are those below the space and DEL, and what is added to them.
unfoldable pub in_segment_set : ℕ → Bool
in_segment_set c = ltb c 0x20 || c == 0x7f || contains c (codes " \"#<>?`{}%^|\\[]/")

unfoldable pub encode_path_segments : ((ℕ → Bool) → Text → Text) → Text → Text
encode_path_segments encode path = join (b'/' ∷ []) (map (encode in_segment_set) (split b'/' path))
