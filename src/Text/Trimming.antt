-- ===== src/Text/Trimming.antt =====
-- Trimming texts.
use lagos.Prelude.{
  ℕ, ◌==◌, ◌≡◌, ◌≢◌, inl, inr, refl, Bool-cases, true, false, List, [], ◌∷◌, All, arith,
}
use lagos.Text.{Text, split, cons_head, trim_start_matches, trim_end_matches, trim_matches}

-- The text is empty or ends with another character than `c`.
abbrev EndsWell : ℕ → Text → Type 0
EndsWell c [] = Unit
EndsWell c (x ∷ []) = x ≢ c
EndsWell c (x ∷ (y ∷ r)) = EndsWell c (y ∷ r)

trim_end_of_EndsWell : (c : ℕ) (t : Text) → EndsWell c t → trim_end_matches c t ≡ t
unfolding trim_end_matches
trim_end_of_EndsWell c [] h = refl
trim_end_of_EndsWell c (x ∷ []) h = ground arith
trim_end_of_EndsWell c (x ∷ (y ∷ r)) h = ground (arith, trim_end_of_EndsWell c (y ∷ r) h)

abbrev pub NoneEmpty : List Text → Type 0
NoneEmpty parts = All (λ part. part ≢ []) parts

NoneEmpty-cons_head :
    (x y : ℕ) (parts : List Text)
    → NoneEmpty (cons_head x (cons_head y parts))
    → NoneEmpty (cons_head y parts)
unfolding cons_head
NoneEmpty-cons_head x y [] h = (ground arith, tt)
NoneEmpty-cons_head x y (part ∷ parts) (_, h) = (ground arith, h)

after_separator :
    (c x y : ℕ) (t : Text)
    → (y == c) ≡ true
    → NoneEmpty (split c (x ∷ (y ∷ t)))
    → NoneEmpty (split c t)
unfolding split cons_head
after_separator c x y t e h = elim (Bool-cases (x == c)) [
  | inl ex ↦ absurd ((rw ex at h).0 refl)
  | inr nx ↦ (rw (nx, e) at h).1
]

within_part :
    (c x y : ℕ) (t : Text)
    → (y == c) ≡ false
    → NoneEmpty (split c (x ∷ (y ∷ t)))
    → NoneEmpty (split c (y ∷ t))
unfolding split
within_part c x y t e h = elim (Bool-cases (x == c)) [
  | inl ex ↦ absurd ((rw ex at h).0 refl)
  | inr nx ↦ rw e (NoneEmpty-cons_head x y (split c t) (rw (nx, e) at h))
]

ends_well : (c x : ℕ) (xs : Text) → NoneEmpty (split c (x ∷ xs)) → EndsWell c (x ∷ xs)
unfolding split cons_head
ends_well c x [] h = ground arith
ends_well c x (y ∷ []) h = ground arith
ends_well c x (y ∷ (z ∷ r)) h = elim (Bool-cases (y == c)) [
  | inl e ↦ ends_well c z r (after_separator c x y (z ∷ r) e h)
  | inr n ↦ ends_well c y (z ∷ r) (within_part c x y (z ∷ r) n h)
]

starts_well :
    (c x : ℕ) (xs : Text) → NoneEmpty (split c (x ∷ xs)) → trim_start_matches c (x ∷ xs) ≡ x ∷ xs
unfolding split trim_start_matches
starts_well c x xs h = ground arith

-- A text whose parts between separators are all non-empty neither starts nor ends with one.
pub trim_matches-eq_self : (c : ℕ) (t : Text) → NoneEmpty (split c t) → trim_matches c t ≡ t
unfolding trim_matches
trim_matches-eq_self c [] h = unfold trim_start_matches trim_end_matches in refl
trim_matches-eq_self c (x ∷ xs) h =
    rw (starts_well c x xs h) (trim_end_of_EndsWell c (x ∷ xs) (ends_well c x xs h))
