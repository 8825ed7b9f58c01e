-- ===== src/Text/Cutting.antt =====
-- Cutting a text in two, once.
use lagos.Prelude.{ℕ, ◌≡◌, refl, some, none, [], ◌∷◌, ◌++◌, arith}
use lagos.Text.{Text, split_once, rsplit_once, strip_prefix, split_once_text}
use lagos.Text.Splitting.{Lacks}

-- A text without the separator, the separator, and any text behind it.
pub split_once-append : (c : ℕ) (s t : Text) → Lacks c s → split_once c (s ++ c ∷ t) ≡ some (s, t)
unfolding split_once
split_once-append c [] t h = ground arith
split_once-append c (x ∷ xs) t (n, h) = ground (arith, split_once-append c xs t h)

rsplit_once-Lacks : (c : ℕ) (t : Text) → Lacks c t → rsplit_once c t ≡ none
unfolding rsplit_once
rsplit_once-Lacks c [] h = refl
rsplit_once-Lacks c (x ∷ xs) (n, h) = ground (arith, rsplit_once-Lacks c xs h)

-- Any text, the separator, and a text without it.
pub rsplit_once-append : (c : ℕ) (s t : Text) → Lacks c t → rsplit_once c (s ++ c ∷ t) ≡ some (s, t)
unfolding rsplit_once
rsplit_once-append c [] t h = ground (arith, rsplit_once-Lacks c t h)
rsplit_once-append c (x ∷ xs) t h = ground (arith, rsplit_once-append c xs t h)

strip_prefix-append : (p t : Text) → strip_prefix (p ++ t) p ≡ some t
unfolding strip_prefix
strip_prefix-append [] t = refl
strip_prefix-append (x ∷ p) t = ground (arith, strip_prefix-append p t)

-- A text without the first character of the separator, the separator, and any text.
pub split_once_text-append :
    (c : ℕ) (sep s t : Text)
    → Lacks c s
    → split_once_text (s ++ (c ∷ sep ++ t)) (c ∷ sep) ≡ some (s, t)
unfolding split_once_text strip_prefix
split_once_text-append c sep [] t h = ground (arith, strip_prefix-append sep t)
split_once_text-append c sep (x ∷ xs) t (n, h) = ground (arith, split_once_text-append c sep xs t h)
