-- ===== src/Text/Suffixes.antt =====
-- What `strip_suffix` and `ends_with` say.
use lagos.Prelude.{
  ℕ, suc, ◌+◌, ◌≡◌, ◌<◌, inl, inr, refl, ap, true, false, some, [], ◌∷◌, ◌++◌, Bool-cases,
  Option-cases, length, length-append, arith,
}
use lagos.Text.{Text, byte_len, ends_with_char, strip_suffix, text_eq, eq_of_text_eq, text_eq_refl}

pub strip_suffix_sound : (s t p : Text) → strip_suffix s t ≡ some p → s ≡ p ++ t
unfolding strip_suffix
strip_suffix_sound [] [] p h = ground arith
strip_suffix_sound [] (y ∷ ys) p h = cc
strip_suffix_sound (x ∷ xs) t p h = elim (Bool-cases (text_eq (x ∷ xs) t)) [
  | inl e ↦ let q : [] ≡ p = ground arith in rw (← q) (eq_of_text_eq (x ∷ xs) t e)
  | inr n ↦ elim (Option-cases (strip_suffix xs t)) [
    | inl e ↦ absurd (ground arith)
    | inr (r, e) ↦
        let q : (x ∷ r) ≡ p = ground arith in
        rw (← q) (ap (λ (u : Text). x ∷ u) (strip_suffix_sound xs t r e))
  ]
]

longer_ne : (x : ℕ) (p t : Text) → text_eq (x ∷ (p ++ t)) t ≡ false
longer_ne x p t = elim (Bool-cases (text_eq (x ∷ (p ++ t)) t)) [
  | inl e ↦
      let q : suc (length (p ++ t)) ≡ length t = ap length (eq_of_text_eq (x ∷ (p ++ t)) t e) in
      absurd (omega (arith, length-append p t))
  | inr n ↦ n
]

pub strip_suffix-append : (p t : Text) → strip_suffix (p ++ t) t ≡ some p
unfolding strip_suffix
strip_suffix-append [] [] = refl
strip_suffix-append [] (y ∷ ys) = rw (text_eq_refl (y ∷ ys))
strip_suffix-append (x ∷ p) t = ground (arith, longer_ne x p t, strip_suffix-append p t)

-- A text that ends with `c` is some text with `c` behind it.
pub ends_with_char_sound :
    (c : ℕ) (t : Text) → ends_with_char c t ≡ true → (p : Text) × (t ≡ p ++ c ∷ [])
unfolding ends_with_char
ends_with_char_sound c [] h = absurd (ground arith)
ends_with_char_sound c (x ∷ []) h = ([], ground arith)
ends_with_char_sound c (x ∷ (y ∷ r)) h =
    let (p, e) = ends_with_char_sound c (y ∷ r) h in (x ∷ p, ap (λ (u : Text). x ∷ u) e)

pub ends_with_char-append : (c : ℕ) (p : Text) → ends_with_char c (p ++ c ∷ []) ≡ true
unfolding ends_with_char
ends_with_char-append c [] = ground arith
ends_with_char-append c (x ∷ []) = ground arith
ends_with_char-append c (x ∷ (y ∷ p)) = ends_with_char-append c (y ∷ p)

-- The end of a text is the end of what stands last in it.
pub ends_with_char-append_last :
    (c x : ℕ) (p q : Text) → ends_with_char c (p ++ (x ∷ q)) ≡ ends_with_char c (x ∷ q)
unfolding ends_with_char
ends_with_char-append_last c x [] q = refl
ends_with_char-append_last c x (y ∷ []) q = refl
ends_with_char-append_last c x (y ∷ (z ∷ p)) q = ends_with_char-append_last c x (z ∷ p) q

pub byte_len-append : (p t : Text) → byte_len (p ++ t) ≡ byte_len p + byte_len t
unfolding byte_len
byte_len-append [] t = omega arith
byte_len-append (x ∷ p) t = omega (arith, byte_len-append p t)

pub byte_len_pos : (x : ℕ) (p : Text) → 0 < byte_len (x ∷ p)
unfolding byte_len
byte_len_pos x p = ground arith
