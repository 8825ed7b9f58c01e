-- ===== src/Path/Canonical.antt =====
-- Canonical paths, and the results of `canonicalize_proxy_path` of path.rs.
use lagos.Prelude.{
  Option-cases, ℕ, ◌≤◌, ◌≡◌, ◌≢◌, ◌⊎◌, inl, inr, refl, false, Option, some, List, [], ◌∷◌, any, All,
  arith,
}
use lagos.Text.{Text, codes, contains, split, before, join, text_eq_iff}
use lagos.Text.Splitting.{Lacks, EachChar, EachChar-split, split-Lacks, split-join}
use lagos.Path.{
  decode_passes, is_hostile, non_empty, is_dot_segment, check_decoded, canonicalize_proxy_path,
  max_decode_passes,
}

-- Neither a percent sign, a backslash nor a control character.
abbrev pub IsSafeChar : ℕ → Type 0
IsSafeChar c = (c ≢ b'%') × (c ≢ 0x5c) × (c ≢ 0x7f) × (0x20 ≤ c)

-- A segment that no upstream can read as a way out of its directory.
abbrev pub IsSafeSegment : Text → Type 0
IsSafeSegment s = (s ≢ []) × (s ≢ codes ".") × (s ≢ codes "..") × Lacks b'/' s × All IsSafeChar s

-- The empty path, or one whose segments between slashes are all safe.
abbrev pub IsCanonical : Text → Type 0
IsCanonical p = (p ≡ []) ⊎ All IsSafeSegment (split b'/' p)

safe_chars : (t : Text) → contains b'%' t ≡ false → any is_hostile t ≡ false → All IsSafeChar t
unfolding is_hostile
safe_chars [] h k = tt
safe_chars (x ∷ xs) h k = (ground arith, safe_chars xs (ground arith) (ground arith))

not_dots : (s : Text) → is_dot_segment s ≡ false → (s ≢ codes ".") × (s ≢ codes "..")
unfolding is_dot_segment
not_dots s h = ground (arith, text_eq_iff s (codes "."), text_eq_iff s (codes ".."))

-- What the filter and the test for dot segments leave.
safe_segments :
    (ss : List Text)
    → All (Lacks b'/') ss
    → EachChar IsSafeChar ss
    → any is_dot_segment (non_empty ss) ≡ false
    → All IsSafeSegment (non_empty ss)
unfolding non_empty
safe_segments [] h k d = tt
safe_segments ([] ∷ ss) (_, h) (_, k) d = safe_segments ss h k d
safe_segments ((x ∷ xs) ∷ ss) (l, h) (c, k) d =
    let (one, two) = not_dots (x ∷ xs) (ground arith) in
    ((ground arith, one, two, l, c), safe_segments ss h k (ground arith))

segments_Lacks : (ss : List Text) → All IsSafeSegment ss → All (Lacks b'/') ss
segments_Lacks [] h = tt
segments_Lacks (s ∷ ss) (h, hs) = (h.3, segments_Lacks ss hs)

-- Joining safe segments makes a canonical path.
join-IsCanonical : (ss : List Text) → All IsSafeSegment ss → IsCanonical (join (b'/' ∷ []) ss)
join-IsCanonical [] h = inl (unfold join in refl)
join-IsCanonical (s ∷ ss) h = inr (rw (split-join b'/' s ss (segments_Lacks (s ∷ ss) h)) h)

check_decoded-IsCanonical : (t p : Text) → check_decoded t ≡ some p → IsCanonical p
unfolding check_decoded
check_decoded-IsCanonical t p h =
    let segments = non_empty (split b'/' t) in
    let pct : contains b'%' t ≡ false = ground arith in
    let hostile : any is_hostile t ≡ false = ground arith in
    let dots : any is_dot_segment segments ≡ false = ground arith in
    let joined : join (b'/' ∷ []) segments ≡ p = ground arith in
    rw (← joined) (
      join-IsCanonical segments (
        safe_segments (split b'/' t) (split-Lacks b'/' t)
          (EachChar-split IsSafeChar b'/' t (safe_chars t pct hostile)) dots))

-- Whatever the decoder does and whatever the request path, the path that comes out is canonical:
-- it is empty, or each of its segments between slashes is neither empty nor `.` nor `..`, and holds
-- no percent sign, no backslash and no control character.
pub canonicalize-IsCanonical :
    (decode : Text → Option Text) (raw p : Text)
    → canonicalize_proxy_path decode raw ≡ some p
    → IsCanonical p
unfolding canonicalize_proxy_path
canonicalize-IsCanonical decode raw p h =
    let t = decode_passes decode max_decode_passes (before b'#' (before b'?' raw)) in
    elim (Option-cases t) [
      | inl e ↦ absurd (ground arith)
      | inr (d, e) ↦ check_decoded-IsCanonical d p (ground arith)
    ]
