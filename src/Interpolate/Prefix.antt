-- ===== src/Interpolate/Prefix.antt =====
-- The search for a prefix that the document does not hold,
-- crates/lagos-core/src/config/interpolate.rs.
use lagos.Prelude.{
  ℕ, zero, suc, ◌+◌, ◌≤◌, ◌<◌, ◌≡◌, refl, true, false, Option, some, [], ◌∷◌, ◌++◌, length,
  length-append, Bool-cases, inl, inr, arith,
}
use lagos.Text.{Text, codes, starts_with, contains_text}
use lagos.Interpolate.Lines.{free_prefix, inspect_with, inspect_from, inspect}

starts_with-length : (t p : Text) → starts_with t p ≡ true → length p ≤ length t
unfolding starts_with
starts_with-length t [] h = omega arith
starts_with-length [] (x ∷ xs) h = absurd (cc)
starts_with-length (y ∷ t) (x ∷ xs) h = ground (arith, starts_with-length t xs)

contains_text-length : (t p : Text) → contains_text t p ≡ true → length p ≤ length t
unfolding contains_text
contains_text-length [] p h = starts_with-length [] p h
contains_text-length (x ∷ xs) p h =
    ground (arith, starts_with-length (x ∷ xs) p, contains_text-length xs p)

free_prefix_found :
    (fuel : ℕ) (text prefix : Text)
    → length text < length prefix + fuel
    → (found : Text) × (free_prefix (suc fuel) text prefix ≡ some found)
      × (contains_text text found ≡ false)
unfolding free_prefix
free_prefix_found zero text prefix h = elim (Bool-cases (contains_text text prefix)) [
  | inl e ↦ absurd (omega (arith, contains_text-length text prefix e))
  | inr e ↦ (prefix, rw (e, free_prefix) refl, e)
]
free_prefix_found (suc fuel) text prefix h = elim (Bool-cases (contains_text text prefix)) [
  | inl e ↦
      rw (e, free_prefix)
        (free_prefix_found fuel text (prefix ++ b'x' ∷ [])
          (omega (arith, length-append prefix (b'x' ∷ []))))
  | inr e ↦ (prefix, rw (e, free_prefix) refl, e)
]

-- With one round more than the document has characters the search for a prefix ends, whatever the
-- document holds, with a prefix that the document does not hold, and the document is inspected
-- with it.
pub inspect_finishes :
    (text : Text) (lookup : Text → Option Text)
    → (prefix : Text) × (contains_text text prefix ≡ false)
      × (inspect (suc (length text)) text lookup ≡ some (inspect_with text lookup prefix))
unfolding inspect
inspect_finishes text lookup =
    let marker = codes "lagos-vars-placeholder-" in
    let (prefix, found, free) = free_prefix_found (length text) text marker (omega arith) in
    (prefix, free, rw found (unfold inspect_from in refl))
