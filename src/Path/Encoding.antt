-- ===== src/Path/Encoding.antt =====
-- `encode_path_segments` of path.rs, and the separators of a path.
use lagos.Prelude.{
  ℕ, ◌==◌, ◌≡◌, ◌≢◌, refl, Bool, true, false, ◌&&◌, ◌||◌, leb, List, [], ◌∷◌, map, All, arith,
}
use lagos.Text.{Text, split, join}
use lagos.Text.Splitting.{Lacks, split-ne-nil, split-join, All-join}
use lagos.Path.{in_segment_set, encode_path_segments}

-- The characters of which an escape `%XX` is made.
abbrev pub is_escape_char : ℕ → Bool
is_escape_char c = c == b'%' || leb b'0' c && leb c b'9' || leb b'A' c && leb c b'F'

-- What percent-encoding documents: a character of the set is replaced by an escape.
pub record IsEncoder (encode : (ℕ → Bool) → Text → Text) : Type 0 where
  pub replaces :
      (set : ℕ → Bool) (c : ℕ) (s : Text)
      → set c ≡ true
      → is_escape_char c ≡ false
      → Lacks c (encode set s)

module _ (encode : (ℕ → Bool) → Text → Text) (law : IsEncoder encode) where
  encoded_lack :
      (c : ℕ) (parts : List Text)
      → in_segment_set c ≡ true
      → is_escape_char c ≡ false
      → All (Lacks c) (map (encode in_segment_set) parts)
  encoded_lack c [] h e = tt
  encoded_lack c (part ∷ parts) h e =
      (law.replaces in_segment_set c part h e, encoded_lack c parts h e)

  split_encoded :
      (parts : List Text)
      → parts ≢ []
      → split b'/' (join (b'/' ∷ []) (map (encode in_segment_set) parts))
        ≡ map (encode in_segment_set) parts
  unfolding in_segment_set
  split_encoded [] h = absurd (h refl)
  split_encoded (part ∷ parts) h =
      split-join b'/' (encode in_segment_set part) (map (encode in_segment_set) parts)
        (encoded_lack b'/' (part ∷ parts) refl refl)

  -- With an encoder that replaces what it is told to, the segments of the encoded path are the
  -- encoded segments of the path, one for one.
  pub split-encode_path_segments :
      (path : Text)
      → split b'/' (encode_path_segments encode path)
        ≡ map (encode in_segment_set) (split b'/' path)
  unfolding encode_path_segments
  split-encode_path_segments path = split_encoded (split b'/' path) (split-ne-nil b'/' path)

  -- With such an encoder, no character of the set, but for the slashes that join the segments and
  -- the percent signs of escapes, is left in the encoded path: it holds no space, `?`, `#`,
  -- backslash or control character.
  pub encode_path_segments-Lacks :
      (c : ℕ) (path : Text)
      → in_segment_set c ≡ true
      → is_escape_char c ≡ false
      → c ≢ b'/'
      → Lacks c (encode_path_segments encode path)
  unfolding encode_path_segments
  encode_path_segments-Lacks c path h e n =
      All-join (λ x. x ≢ c) b'/' (map (encode in_segment_set) (split b'/' path)) (ground arith)
        (encoded_lack c (split b'/' path) h e)
