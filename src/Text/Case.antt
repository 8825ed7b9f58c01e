-- ===== src/Text/Case.antt =====
-- Folding the case of ASCII letters.
use lagos.Prelude.{ℕ, ◌≡◌, refl, [], ◌∷◌, arith}
use lagos.Text.{
  Text, lower_char, upper_char, to_ascii_lowercase, to_ascii_uppercase, eq_ignore_ascii_case,
}

lower_char_idem : (c : ℕ) → lower_char (lower_char c) ≡ lower_char c
unfolding lower_char
lower_char_idem c = ground arith

upper_char_idem : (c : ℕ) → upper_char (upper_char c) ≡ upper_char c
unfolding upper_char
upper_char_idem c = ground arith

lower_char-upper_char : (c : ℕ) → lower_char (upper_char c) ≡ lower_char c
unfolding lower_char upper_char
lower_char-upper_char c = ground arith

pub to_ascii_lowercase_idem :
    (t : Text) → to_ascii_lowercase (to_ascii_lowercase t) ≡ to_ascii_lowercase t
unfolding to_ascii_lowercase
to_ascii_lowercase_idem [] = refl
to_ascii_lowercase_idem (c ∷ cs) = rw (lower_char_idem c, to_ascii_lowercase_idem cs)

pub to_ascii_uppercase_idem :
    (t : Text) → to_ascii_uppercase (to_ascii_uppercase t) ≡ to_ascii_uppercase t
unfolding to_ascii_uppercase
to_ascii_uppercase_idem [] = refl
to_ascii_uppercase_idem (c ∷ cs) = rw (upper_char_idem c, to_ascii_uppercase_idem cs)

pub to_ascii_lowercase-to_ascii_uppercase :
    (t : Text) → to_ascii_lowercase (to_ascii_uppercase t) ≡ to_ascii_lowercase t
unfolding to_ascii_lowercase to_ascii_uppercase
to_ascii_lowercase-to_ascii_uppercase [] = refl
to_ascii_lowercase-to_ascii_uppercase (c ∷ cs) =
    rw (lower_char-upper_char c, to_ascii_lowercase-to_ascii_uppercase cs)

pub eq_ignore_ascii_case-lowercase :
    (s t : Text) → eq_ignore_ascii_case s (to_ascii_lowercase t) ≡ eq_ignore_ascii_case s t
unfolding eq_ignore_ascii_case
eq_ignore_ascii_case-lowercase s t = rw (to_ascii_lowercase_idem t)
