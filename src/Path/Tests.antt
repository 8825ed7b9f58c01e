-- ===== src/Path/Tests.antt =====
-- The canonicalizer on inputs of the tests in path.rs, with a decoder and an encoder that stand
-- for the crate's, and the theorems applied to them.
use lagos.Prelude.{
  ap, ℕ, ◌+◌, ◌-◌, ◌*◌, ◌==◌, ◌≡◌, refl, leb, if◌then◌else◌, Bool, true, false, ◌&&◌, ◌||◌, Option,
  none, some, [], ◌∷◌, map, arith, inl, inr, Bool-cases,
}
use lagos.Text.{Text, codes, split, before, join, text_eq, trim_matches}
use lagos.Text.Splitting.{Lacks}
use lagos.Path.{
  normalize_proxy_path, decode_passes, non_empty, check_decoded, canonicalize_proxy_path,
  in_segment_set, encode_path_segments,
}
use lagos.Path.Canonical.{IsCanonical, canonicalize-IsCanonical}
use lagos.Path.Encoding.{IsEncoder, is_escape_char, split-encode_path_segments}

hex_value : ℕ → ℕ
hex_value c = if leb b'a' c then c - 87 else if leb b'A' c then c - 55 else c - 48

is_hex : ℕ → Bool
is_hex c = leb b'0' c && leb c b'9' || leb b'a' c && leb c b'f' || leb b'A' c && leb c b'F'

-- Escapes of ASCII characters; anything else stands for itself.
decoded_from : Text → Text
unfolding hex_value is_hex
decoded_from [] = []
decoded_from (c ∷ []) = c ∷ []
decoded_from (c ∷ (h ∷ [])) = c ∷ (h ∷ [])
decoded_from (c ∷ (h ∷ (l ∷ rest))) =
    let escaped = decoded_from rest in
    let plain = decoded_from (h ∷ (l ∷ rest)) in
    if c == b'%' && is_hex h && is_hex l
    then (hex_value h * 16 + hex_value l) ∷ escaped
    else c ∷ plain

decode : Text → Option Text
unfolding decoded_from
decode t = some (decoded_from t)

collapses :
    canonicalize_proxy_path decode (codes "/loyalty//settings/?merchantId=4#frag")
    ≡ some (codes "loyalty/settings")
unfolding canonicalize_proxy_path decode_passes check_decoded split before join non_empty decode
    text_eq
collapses = refl

double_encoded : canonicalize_proxy_path decode (codes "loyalty/%252e%252e/legacy") ≡ none
unfolding canonicalize_proxy_path decode_passes check_decoded split before join non_empty decode
    text_eq
double_encoded = refl

surrounding_slashes : normalize_proxy_path (codes "/loyalty/settings/") ≡ codes "loyalty/settings"
unfolding normalize_proxy_path trim_matches
surrounding_slashes = refl

canonicalize-IsCanonical_example : IsCanonical (codes "loyalty/settings")
canonicalize-IsCanonical_example =
    canonicalize-IsCanonical decode (codes "/loyalty//settings/?merchantId=4#frag")
      (codes "loyalty/settings") collapses

-- An encoder that writes `%00` for every character of the set.
encode : (ℕ → Bool) → Text → Text
encode set [] = []
encode set (c ∷ cs) =
    let rest = encode set cs in if set c then b'%' ∷ (b'0' ∷ (b'0' ∷ rest)) else c ∷ rest

encode_replaces :
    (set : ℕ → Bool) (c : ℕ) (s : Text)
    → set c ≡ true
    → is_escape_char c ≡ false
    → Lacks c (encode set s)
unfolding encode
encode_replaces set c [] h e = tt
encode_replaces set c (x ∷ xs) h e = elim (Bool-cases (set x)) [
  | inl y ↦ rw y (ground arith, (ground arith, (ground arith, encode_replaces set c xs h e)))
  | inr n ↦ rw n (λ q. cc (h, n, ap set q), encode_replaces set c xs h e)
]

encode-IsEncoder : IsEncoder encode
encode-IsEncoder = record { replaces = encode_replaces }

split-encode_path_segments_example :
    split b'/' (encode_path_segments encode (codes "a b/c"))
    ≡ map (encode in_segment_set) (split b'/' (codes "a b/c"))
split-encode_path_segments_example =
    split-encode_path_segments encode encode-IsEncoder (codes "a b/c")
