-- ===== src/Text/Splitting.antt =====
-- Splitting and joining texts.
use lagos.Prelude.{
  ℕ, ◌==◌, ◌≡◌, ◌≢◌, refl, false, List, [], ◌∷◌, ◌++◌, arith, All, Bool-cases, inl, inr,
}
use lagos.Text.{Text, contains, cons_head, split, before, join}

-- The text holds no `c`.
abbrev pub Lacks : ℕ → Text → Type 0
Lacks c t = All (λ x. x ≢ c) t

pub Lacks-of_contains : (c : ℕ) (t : Text) → contains c t ≡ false → Lacks c t
Lacks-of_contains c [] h = tt
Lacks-of_contains c (x ∷ xs) h = (ground arith, Lacks-of_contains c xs (ground arith))

pub contains_of_Lacks : (c : ℕ) (t : Text) → Lacks c t → contains c t ≡ false
contains_of_Lacks c [] h = refl
contains_of_Lacks c (x ∷ xs) (n, h) = ground (arith, contains_of_Lacks c xs h)

-- What holds of every character of a text, and of every part of a list of texts.
abbrev pub EachChar : (ℕ → Type 0) → List Text → Type 0
EachChar P parts = All (λ part. All P part) parts

module _ (P : ℕ → Type 0) (c : ℕ) where
  EachChar-cons_head :
      (x : ℕ) (parts : List Text) → P x → EachChar P parts → EachChar P (cons_head x parts)
  unfolding cons_head
  EachChar-cons_head x [] p h = ((p, tt), tt)
  EachChar-cons_head x (part ∷ parts) p (h, hs) = ((p, h), hs)

  pub EachChar-split : (t : Text) → All P t → EachChar P (split c t)
  unfolding split
  EachChar-split [] h = (tt, tt)
  EachChar-split (x ∷ xs) (p, h) = elim (Bool-cases (x == c)) [
    | inl e ↦ rw e (tt, EachChar-split xs h)
    | inr n ↦ rw n (EachChar-cons_head x (split c xs) p (EachChar-split xs h))
  ]

  pub All-append : (xs ys : Text) → All P xs → All P ys → All P (xs ++ ys)
  All-append [] ys h k = k
  All-append (x ∷ xs) ys (p, h) k = (p, All-append xs ys h k)

  pub All-join : (parts : List Text) → P c → EachChar P parts → All P (join (c ∷ []) parts)
  unfolding join
  All-join [] p h = tt
  All-join (part ∷ []) p (h, _) = h
  All-join (part ∷ (next ∷ parts)) p (h, hs) =
      All-append part (c ∷ join (c ∷ []) (next ∷ parts)) h (p, All-join (next ∷ parts) p hs)

Lacks-cons_head :
    (c x : ℕ) (parts : List Text) → x ≢ c → All (Lacks c) parts → All (Lacks c) (cons_head x parts)
unfolding cons_head
Lacks-cons_head c x [] n h = ((n, tt), tt)
Lacks-cons_head c x (part ∷ parts) n (h, hs) = ((n, h), hs)

-- No part of a split text holds the separator.
pub split-Lacks : (c : ℕ) (t : Text) → All (Lacks c) (split c t)
unfolding split
split-Lacks c [] = (tt, tt)
split-Lacks c (x ∷ xs) = elim (Bool-cases (x == c)) [
  | inl e ↦ rw e (tt, split-Lacks c xs)
  | inr n ↦ rw n (Lacks-cons_head c x (split c xs) (ground arith) (split-Lacks c xs))
]

pub split-cons : (c x : ℕ) (xs : Text) → x ≢ c → split c (x ∷ xs) ≡ cons_head x (split c xs)
unfolding split
split-cons c x xs n = ground arith

pub split-Lacks_lem : (c : ℕ) (t : Text) → Lacks c t → split c t ≡ t ∷ []
unfolding split cons_head
split-Lacks_lem c [] h = refl
split-Lacks_lem c (x ∷ xs) (n, h) = ground (arith, split-Lacks_lem c xs h)

pub split-append :
    (c : ℕ) (part rest : Text) → Lacks c part → split c (part ++ (c ∷ rest)) ≡ part ∷ split c rest
unfolding split cons_head
split-append c [] rest h = ground arith
split-append c (x ∷ xs) rest (n, h) = ground (arith, split-append c xs rest h)

-- Splitting what was joined gives back the parts, if there is one and none holds the separator.
pub split-join :
    (c : ℕ) (part : Text) (parts : List Text)
    → All (Lacks c) (part ∷ parts)
    → split c (join (c ∷ []) (part ∷ parts)) ≡ part ∷ parts
unfolding join
split-join c part [] (h, _) = split-Lacks_lem c part h
split-join c part (next ∷ parts) (h, hs) =
    rw (split-append c part (join (c ∷ []) (next ∷ parts)) h) (rw (split-join c next parts hs))

-- A text without the separator has nothing after it.
pub before_of_Lacks : (c : ℕ) (t : Text) → Lacks c t → before c t ≡ t
unfolding before
before_of_Lacks c [] h = refl
before_of_Lacks c (x ∷ xs) (n, h) = ground (arith, before_of_Lacks c xs h)

join-cons_head :
    (c x : ℕ) (parts : List Text) → join (c ∷ []) (cons_head x parts) ≡ x ∷ join (c ∷ []) parts
unfolding join cons_head
join-cons_head c x [] = refl
join-cons_head c x (part ∷ []) = refl
join-cons_head c x (part ∷ (next ∷ parts)) = refl

join-nil_cons :
    (c : ℕ) (parts : List Text) → parts ≢ [] → join (c ∷ []) ([] ∷ parts) ≡ c ∷ join (c ∷ []) parts
unfolding join
join-nil_cons c [] h = absurd (h refl)
join-nil_cons c (next ∷ parts) h = refl

cons_head-ne-nil : (x : ℕ) (parts : List Text) → cons_head x parts ≢ []
unfolding cons_head
cons_head-ne-nil x [] e = cc
cons_head-ne-nil x (part ∷ parts) e = cc

cons_head-append :
    (x : ℕ) (parts more : List Text)
    → parts ≢ []
    → cons_head x (parts ++ more) ≡ cons_head x parts ++ more
unfolding cons_head
cons_head-append x [] more h = absurd (h refl)
cons_head-append x (part ∷ parts) more h = refl

pub split-ne-nil : (c : ℕ) (t : Text) → split c t ≢ []
unfolding split
split-ne-nil c [] e = cc
split-ne-nil c (x ∷ xs) e = ground (arith, cons_head-ne-nil x (split c xs))

-- Joining what was split gives back the text.
pub join-split : (c : ℕ) (t : Text) → join (c ∷ []) (split c t) ≡ t
unfolding split
join-split c [] = unfold join in refl
join-split c (x ∷ xs) = elim (Bool-cases (x == c)) [
  | inl e ↦ rw e (ground (arith, join-nil_cons c (split c xs) (split-ne-nil c xs), join-split c xs))
  | inr n ↦ rw n (ground (arith, join-cons_head c x (split c xs), join-split c xs))
]

-- A separator cuts a text in two, whatever stands before it.
pub split-append_separator :
    (c : ℕ) (xs ys : Text) → split c (xs ++ c ∷ ys) ≡ split c xs ++ split c ys
unfolding split
split-append_separator c [] ys = ground arith
split-append_separator c (x ∷ xs) ys = elim (Bool-cases (x == c)) [
  | inl e ↦ rw (e, split-append_separator c xs ys)
  | inr n ↦
      rw (n, split-append_separator c xs ys)
        (cons_head-append x (split c xs) (split c ys) (split-ne-nil c xs))
]
