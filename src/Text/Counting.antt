-- ===== src/Text/Counting.antt =====
-- Counting a character, and parts that lack one.
use lagos.Prelude.{
  ℕ, zero, suc, ◌+◌, ◌==◌, ◌≡◌, ◌≢◌, refl, if◌then◌else◌, List, [], ◌∷◌, ◌++◌, All, length, take,
  drop, arith,
}
use lagos.Text.{Text, cons_head, split}
use lagos.Text.Splitting.{Lacks, split-ne-nil}

-- How often `c` stands in a text.
abbrev pub count : ℕ → Text → ℕ
count c [] = 0
count c (x ∷ xs) = (if x == c then 1 else 0) + count c xs

pub count-append : (c : ℕ) (xs ys : Text) → count c (xs ++ ys) ≡ count c xs + count c ys
count-append c [] ys = omega arith
count-append c (x ∷ xs) ys = omega (arith, count-append c xs ys)

pub count_of_Lacks : (c : ℕ) (t : Text) → All (λ x. x ≢ c) t → count c t ≡ 0
count_of_Lacks c [] h = refl
count_of_Lacks c (x ∷ xs) (n, h) = ground (arith, count_of_Lacks c xs h)

length-cons_head :
    (x : ℕ) (parts : List Text) → parts ≢ [] → length (cons_head x parts) ≡ length parts
unfolding cons_head
length-cons_head x [] h = absurd (h refl)
length-cons_head x (part ∷ parts) h = refl

pub length-split : (c : ℕ) (t : Text) → length (split c t) ≡ suc (count c t)
unfolding split
length-split c [] = refl
length-split c (x ∷ xs) =
    ground (arith, length-split c xs, length-cons_head x (split c xs) (split-ne-nil c xs))

pub All-take : (c n : ℕ) (t : Text) → Lacks c t → Lacks c (take n t)
All-take c zero t h = tt
All-take c (suc n) [] h = tt
All-take c (suc n) (x ∷ xs) (p, h) = (p, All-take c n xs h)

pub All-drop : (c n : ℕ) (t : Text) → Lacks c t → Lacks c (drop n t)
All-drop c zero t h = h
All-drop c (suc n) [] h = tt
All-drop c (suc n) (x ∷ xs) (p, h) = All-drop c n xs h
