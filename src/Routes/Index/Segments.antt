-- ===== src/Routes/Index/Segments.antt =====
-- Prefixes compared by segments, as routes/index.rs does, and by characters, as `under_prefix` does.
use lagos.Prelude.{
  ℕ, ◌==◌, ◌≡◌, ◌≢◌, refl, ◌∙◌, sym, if◌then◌else◌, Bool, true, false, ◌&&◌, ◌||◌, List, [], ◌∷◌,
  Bool-cases, inl, inr, arith,
}
use lagos.Text.{
  Text, is_empty, split, cons_head, text_eq, starts_with_char, strip_prefix, trim_start_matches,
  trim_end_matches, trim_matches,
}
use lagos.Text.Splitting.{split-ne-nil}
use lagos.Path.{normalize_proxy_path}
use lagos.Routes.Table.{under_prefix}
use lagos.Routes.Index.{segments_of}
use lagos.Routes.Index.Descent.{segments_eq}

-- The one list begins the other.
unfoldable pub begins : List Text → List Text → Bool
begins [] ts = true
begins (s ∷ ss) [] = false
begins (s ∷ ss) (t ∷ ts) = text_eq s t && begins ss ts

begins-cons_head :
    (p x : ℕ) (ss ts : List Text)
    → ss ≢ []
    → ts ≢ []
    → begins (cons_head p ss) (cons_head x ts) ≡ (p == x && begins ss ts)
unfolding begins cons_head text_eq
begins-cons_head p x [] ts h k = absurd (h refl)
begins-cons_head p x (s ∷ ss) [] h k = absurd (k refl)
begins-cons_head p x (s ∷ ss) (t ∷ ts) h k = ground arith

begins_nil : (ss : List Text) → ss ≢ [] → begins ss [] ≡ false
unfolding begins
begins_nil [] h = absurd (h refl)
begins_nil (s ∷ ss) h = refl

begins_empty : (p : ℕ) (ss ts : List Text) → begins (cons_head p ss) ([] ∷ ts) ≡ false
unfolding begins cons_head text_eq
begins_empty p [] ts = refl
begins_empty p (s ∷ ss) ts = refl

empty_begins : (x : ℕ) (ss ts : List Text) → begins ([] ∷ ss) (cons_head x ts) ≡ false
unfolding begins cons_head text_eq
empty_begins x ss [] = refl
empty_begins x ss (t ∷ ts) = refl

split_at : (x : ℕ) (xs : Text) → (x == b'/') ≡ true → split b'/' (x ∷ xs) ≡ [] ∷ split b'/' xs
unfolding split
split_at x xs h = rw h

split_past :
    (x : ℕ) (xs : Text) → (x == b'/') ≡ false → split b'/' (x ∷ xs) ≡ cons_head x (split b'/' xs)
unfolding split
split_past x xs h = rw h

under_prefix_cons :
    (x p : ℕ) (xs ps : Text)
    → under_prefix (x ∷ xs) (p ∷ ps) ≡ (if x == p then under_prefix xs ps else false)
unfolding under_prefix strip_prefix
under_prefix_cons x p xs ps = ground arith

begins_slash : (ss ts : List Text) → begins ([] ∷ ss) ([] ∷ ts) ≡ begins ss ts
unfolding begins text_eq
begins_slash ss ts = refl

-- The comparison of characters is one of segments.
pub begins-split :
    (prefix path : Text) → begins (split b'/' prefix) (split b'/' path) ≡ under_prefix path prefix
begins-split [] [] = unfold split under_prefix strip_prefix begins text_eq in refl
begins-split [] (x ∷ xs) = elim (Bool-cases (x == b'/')) [
  | inl e ↦ rw (split_at x xs e) (unfold split under_prefix strip_prefix begins text_eq in sym e)
  | inr e ↦
      rw (split_past x xs e)
        (unfold split under_prefix strip_prefix in empty_begins x [] (split b'/' xs) ∙ sym e)
]
begins-split (p ∷ ps) [] = elim (Bool-cases (p == b'/')) [
  | inl e ↦ rw (split_at p ps e) (
      unfold split under_prefix strip_prefix begins text_eq in
      begins_nil (split b'/' ps) (split-ne-nil b'/' ps))
  | inr e ↦
      rw (split_past p ps e)
        (unfold split under_prefix strip_prefix in begins_empty p (split b'/' ps) [])
]
begins-split (p ∷ ps) (x ∷ xs) = elim (Bool-cases (p == b'/')) [
  | inl e ↦ elim (Bool-cases (x == b'/')) [
    | inl f ↦
        rw (split_at p ps e, split_at x xs f, under_prefix_cons x p xs ps, begins_slash)
          (begins-split ps xs ∙ ground arith)
    | inr f ↦
        rw (split_at p ps e, split_past x xs f, under_prefix_cons x p xs ps)
          (empty_begins x (split b'/' ps) (split b'/' xs) ∙ ground arith)
  ]
  | inr e ↦ elim (Bool-cases (x == b'/')) [
    | inl f ↦
        rw (split_past p ps e, split_at x xs f, under_prefix_cons x p xs ps)
          (begins_empty p (split b'/' ps) (split b'/' xs) ∙ ground arith)
    | inr f ↦
        rw (split_past p ps e, split_past x xs f, under_prefix_cons x p xs ps)
          (begins-cons_head p x (split b'/' ps) (split b'/' xs) (split-ne-nil b'/' ps)
              (split-ne-nil b'/' xs)
            ∙ ground (arith, begins-split ps xs))
  ]
]

trim_start_matches-starts : (c : ℕ) (t : Text) → starts_with_char c (trim_start_matches c t) ≡ false
unfolding trim_start_matches
trim_start_matches-starts c [] = refl
trim_start_matches-starts c (x ∷ xs) = ground (arith, trim_start_matches-starts c xs)

trim_end_matches-starts :
    (c : ℕ) (t : Text)
    → starts_with_char c t ≡ false
    → starts_with_char c (trim_end_matches c t) ≡ false
unfolding trim_end_matches
trim_end_matches-starts c [] h = refl
trim_end_matches-starts c (x ∷ xs) h = ground arith

pub normalize_proxy_path-starts :
    (path : Text) → starts_with_char b'/' (normalize_proxy_path path) ≡ false
unfolding normalize_proxy_path trim_matches
normalize_proxy_path-starts path =
    trim_end_matches-starts b'/' (trim_start_matches b'/' path)
      (trim_start_matches-starts b'/' path)

-- A test passes for some list that begins `ss` and is not empty.
unfoldable pub any_beginning : (List Text → Bool) → List Text → Bool
any_beginning test [] = false
any_beginning test (s ∷ ss) = test (s ∷ []) || any_beginning (λ u. test (s ∷ u)) ss

pub any_beginning_cong :
    (f g : List Text → Bool) (ss : List Text)
    → ((u : List Text) → f u ≡ g u)
    → any_beginning f ss ≡ any_beginning g ss
unfolding any_beginning
any_beginning_cong f g [] h = refl
any_beginning_cong f g (s ∷ ss) h =
    rw (h (s ∷ []), any_beginning_cong (λ u. f (s ∷ u)) (λ u. g (s ∷ u)) ss (λ u. h (s ∷ u)))

pub any_beginning-false : (ss : List Text) → any_beginning (λ u. false) ss ≡ false
unfolding any_beginning
any_beginning-false [] = refl
any_beginning-false (s ∷ ss) = any_beginning-false ss

pub any_beginning_and :
    (m : Bool) (test : List Text → Bool) (ss : List Text)
    → any_beginning (λ u. test u && m) ss ≡ (any_beginning test ss && m)
unfolding any_beginning
any_beginning_and m test [] = refl
any_beginning_and m test (s ∷ ss) = ground (arith, any_beginning_and m (λ u. test (s ∷ u)) ss)

not_longer : (ss : List Text) → any_beginning (λ u. segments_eq [] u) ss ≡ false
unfolding any_beginning segments_eq
not_longer [] = refl
not_longer (s ∷ ss) = any_beginning-false ss

-- A list that is not empty is one of the beginnings exactly when it begins the list.
any_beginning-begins :
    (ss : List Text) (a : Text) (more : List Text)
    → any_beginning (λ u. segments_eq (a ∷ more) u) ss ≡ begins (a ∷ more) ss
unfolding any_beginning segments_eq begins
any_beginning-begins [] a more = refl
any_beginning-begins (s ∷ ss) a [] = elim (Bool-cases (text_eq a s)) [
  | inl e ↦ rw e
  | inr e ↦ rw e (any_beginning-false ss)
]
any_beginning-begins (s ∷ ss) a (b ∷ more) = elim (Bool-cases (text_eq a s)) [
  | inl e ↦ rw e (any_beginning-begins ss b more)
  | inr e ↦ rw e (any_beginning-false ss)
]

-- What the search along a path finds of a prefix is what `under_prefix` says of it.
pub any_beginning-under_prefix :
    (path prefix : Text)
    → starts_with_char b'/' path ≡ false
    → is_empty path ≡ false
    → any_beginning (λ u. segments_eq (segments_of prefix) u) (split b'/' path)
      ≡ under_prefix path prefix
unfolding segments_of
any_beginning-under_prefix path [] h k =
    unfold under_prefix strip_prefix in not_longer (split b'/' path) ∙ ground arith
any_beginning-under_prefix path (p ∷ ps) h k =
    parts (split b'/' (p ∷ ps)) (split-ne-nil b'/' (p ∷ ps)) ∙ begins-split (p ∷ ps) path
  where
    parts :
        (a : List Text)
        → a ≢ []
        → any_beginning (λ u. segments_eq a u) (split b'/' path) ≡ begins a (split b'/' path)
    parts [] n = absurd (n refl)
    parts (a ∷ more) n = any_beginning-begins (split b'/' path) a more
