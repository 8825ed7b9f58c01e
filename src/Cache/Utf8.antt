-- ===== src/Cache/Utf8.antt =====
-- Texts are told apart by their bytes.
use lagos.Prelude.{ℕ, ◌<◌, ◌≡◌, refl, sym, ◌≢◌, List, [], ◌∷◌, All, arith}
use lagos.Text.{Text}
use lagos.Cache.Policy.{Bytes, utf8_char, as_bytes, all_bytes}

-- `char` is at most U+10FFFF.
abbrev pub IsChar : ℕ → Type 0
IsChar c = c < 0x110000

utf8_char_inj :
    (c d : ℕ) (xs ys : Bytes)
    → IsChar c
    → IsChar d
    → utf8_char c xs ≡ utf8_char d ys
    → (c ≡ d) × (xs ≡ ys)
utf8_char_inj c d xs ys v w e = ground arith

-- An empty text has no bytes; another has one at least.
utf8_char-not_empty : (c : ℕ) (xs : Bytes) → [] ≢ utf8_char c xs
utf8_char-not_empty c xs e = ground arith

as_bytes_inj : (s t : Text) → All IsChar s → All IsChar t → as_bytes s ≡ as_bytes t → s ≡ t
unfolding as_bytes
as_bytes_inj [] [] v w e = refl
as_bytes_inj [] (d ∷ t) v w e = absurd (utf8_char-not_empty d (as_bytes t) e)
as_bytes_inj (c ∷ s) [] v w e = absurd (utf8_char-not_empty c (as_bytes s) (sym e))
as_bytes_inj (c ∷ s) (d ∷ t) v w e =
    let same = utf8_char_inj c d (as_bytes s) (as_bytes t) v.0 w.0 e in
    let here = same.0 in let rest = as_bytes_inj s t v.1 w.1 same.1 in cc

pub all_bytes_inj :
    (ss ts : List Text)
    → All (All IsChar) ss
    → All (All IsChar) ts
    → all_bytes ss ≡ all_bytes ts
    → ss ≡ ts
unfolding all_bytes
all_bytes_inj [] [] v w e = refl
all_bytes_inj [] (t ∷ ts) v w e = absurd cc
all_bytes_inj (s ∷ ss) [] v w e = absurd cc
all_bytes_inj (s ∷ ss) (t ∷ ts) v w e =
    let bytes : as_bytes s ≡ as_bytes t = cc in
    let here = as_bytes_inj s t v.0 w.0 bytes in let rest = all_bytes_inj ss ts v.1 w.1 cc in cc
