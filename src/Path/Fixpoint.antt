-- ===== src/Path/Fixpoint.antt =====
-- Canonical paths put through `canonicalize_proxy_path` and `normalize_proxy_path` of path.rs.
use lagos.Prelude.{
  subst, ℕ, zero, suc, ◌≡◌, inl, inr, refl, false, Option, some, List, [], ◌∷◌, any, All, arith,
}
use lagos.Text.{Text, codes, contains, split, join, text_eq_iff, trim_matches}
use lagos.Text.Splitting.{Lacks, contains_of_Lacks, EachChar, All-join, before_of_Lacks, join-split}
use lagos.Path.{
  normalize_proxy_path, decode_passes, is_hostile, non_empty, is_dot_segment, check_decoded,
  canonicalize_proxy_path, max_decode_passes,
}
use lagos.Path.Canonical.{IsSafeChar, IsSafeSegment, IsCanonical}
use lagos.Text.Trimming.{NoneEmpty, trim_matches-eq_self}

none_empty : (ss : List Text) → All IsSafeSegment ss → NoneEmpty ss
none_empty [] h = tt
none_empty (s ∷ ss) (h, hs) = (h.0, none_empty ss hs)

-- Filters that find nothing to do.
non_empty_of_safe : (ss : List Text) → All IsSafeSegment ss → non_empty ss ≡ ss
unfolding non_empty
non_empty_of_safe [] h = refl
non_empty_of_safe ([] ∷ ss) (h, hs) = absurd (h.0 refl)
non_empty_of_safe ((x ∷ xs) ∷ ss) (h, hs) = rw (non_empty_of_safe ss hs)

no_dots : (ss : List Text) → All IsSafeSegment ss → any is_dot_segment ss ≡ false
unfolding is_dot_segment
no_dots [] h = refl
no_dots (s ∷ ss) (h, hs) =
    ground (arith, no_dots ss hs, text_eq_iff s (codes "."), text_eq_iff s (codes ".."))

no_hostile : (t : Text) → All IsSafeChar t → any is_hostile t ≡ false
unfolding is_hostile
no_hostile [] h = refl
no_hostile (x ∷ xs) (h, hs) = ground (arith, no_hostile xs hs)

no_percent : (t : Text) → All IsSafeChar t → Lacks b'%' t
no_percent [] h = tt
no_percent (x ∷ xs) (h, hs) = (h.0, no_percent xs hs)

each_safe : (ss : List Text) → All IsSafeSegment ss → EachChar IsSafeChar ss
each_safe [] h = tt
each_safe (s ∷ ss) (h, hs) = (h.4, each_safe ss hs)

safe_path : (p : Text) → All IsSafeSegment (split b'/' p) → All IsSafeChar p
safe_path p h =
    subst (All IsSafeChar) (join-split b'/' p)
      (All-join IsSafeChar b'/' (split b'/' p) (omega arith) (each_safe (split b'/' p) h))

check_decoded_of_IsCanonical : (p : Text) → IsCanonical p → check_decoded p ≡ some p
unfolding check_decoded
check_decoded_of_IsCanonical p (inl e) = rw e (unfold check_decoded split non_empty join in refl)
check_decoded_of_IsCanonical p (inr h) =
    let chars = safe_path p h in
    ground (
      arith,
      contains_of_Lacks b'%' p (no_percent p chars),
      no_hostile p chars,
      non_empty_of_safe (split b'/' p) h,
      no_dots (split b'/' p) h,
      join-split b'/' p,
    )

no_percent_of_IsCanonical : (p : Text) → IsCanonical p → contains b'%' p ≡ false
no_percent_of_IsCanonical p (inl e) = rw e
no_percent_of_IsCanonical p (inr h) = contains_of_Lacks b'%' p (no_percent p (safe_path p h))

decode_passes_plain :
    (decode : Text → Option Text) (n : ℕ) (t : Text)
    → contains b'%' t ≡ false
    → decode_passes decode n t ≡ some t
unfolding decode_passes
decode_passes_plain decode zero t h = refl
decode_passes_plain decode (suc n) t h = ground arith

-- A canonical path without `?` and `#` is canonicalized to itself, whatever the decoder.
pub canonicalize_of_IsCanonical :
    (decode : Text → Option Text) (p : Text)
    → IsCanonical p
    → Lacks b'?' p
    → Lacks b'#' p
    → canonicalize_proxy_path decode p ≡ some p
unfolding canonicalize_proxy_path
canonicalize_of_IsCanonical decode p h q f = ground (
  arith,
  before_of_Lacks b'?' p q,
  before_of_Lacks b'#' p f,
  decode_passes_plain decode max_decode_passes p (no_percent_of_IsCanonical p h),
  check_decoded_of_IsCanonical p h,
)

-- The trimming of slashes that the route table does changes no canonical path.
pub normalize_of_IsCanonical : (p : Text) → IsCanonical p → normalize_proxy_path p ≡ p
unfolding normalize_proxy_path
normalize_of_IsCanonical p (inl e) = rw e (unfold trim_matches in refl)
normalize_of_IsCanonical p (inr h) = trim_matches-eq_self b'/' p (none_empty (split b'/' p) h)
