-- ===== src/Cookies/Stripping.antt =====
-- The cookies that `strip_cookies` of auth/mod.rs leaves.
use mathlib.Core.List.{append-nil}
use lagos.Prelude.{
  ℕ, ◌≡◌, ◌≢◌, refl, ap, ◌∙◌, if◌then◌else◌, true, false, ◌&&◌, Option, none, some, List, [], ◌∷◌,
  ◌++◌, All, map, any, if_cases, subst, Option-cases, inl, inr, arith,
}
use lagos.Text.{
  Text, codes, is_empty, is_whitespace, cons_head, split, split_once, join, trim, trim_start,
  trim_end, text_eq, text_eq_iff, text_eq_refl,
}
use lagos.Text.Splitting.{Lacks, split-Lacks, split-append, split-cons, split-Lacks_lem}
use lagos.Cookies.{
  name_of_pair, push_pair, cookie_parts, pairs_of, cookie_pairs, find_pair, token_of, cookie_token,
  keeps, kept_pairs, strip_cookies,
}

module _ (P : ℕ → Type 0) where
  All-trim_start : (t : Text) → All P t → All P (trim_start t)
  unfolding trim_start
  All-trim_start [] h = tt
  All-trim_start (x ∷ xs) (p, h) =
      if_cases (All P) (trim_start xs) (x ∷ xs) (is_whitespace x) (λ e. All-trim_start xs h)
        (λ e. (p, h))

  All-trim_end : (t : Text) → All P t → All P (trim_end t)
  unfolding trim_end
  All-trim_end [] h = tt
  All-trim_end (x ∷ xs) (p, h) =
      if_cases (All P) [] (x ∷ trim_end xs) (is_whitespace x && is_empty (trim_end xs)) (λ e. tt)
        (λ e. (p, All-trim_end xs h))

  All-trim : (t : Text) → All P t → All P (trim t)
  unfolding trim
  All-trim t h = All-trim_end (trim_start t) (All-trim_start t h)

All-append : (P : Text → Type 0) (xs ys : List Text) → All P xs → All P ys → All P (xs ++ ys)
All-append P [] ys h k = k
All-append P (x ∷ xs) ys (p, h) k = (p, All-append P xs ys h k)

cookie_parts-Lacks : (headers : List Text) → All (Lacks b';') (cookie_parts headers)
unfolding cookie_parts
cookie_parts-Lacks [] = tt
cookie_parts-Lacks (h ∷ hs) =
    All-append (Lacks b';') (split b';' h) (cookie_parts hs) (split-Lacks b';' h)
      (cookie_parts-Lacks hs)

-- A pair that is kept holds no semicolon, and its filter lets it pass.
abbrev IsKept : List Text → Text → Type 0
IsKept names pair = Lacks b';' pair × (keeps names pair ≡ true)

kept_pairs-IsKept :
    (names parts : List Text) → All (Lacks b';') parts → All (IsKept names) (kept_pairs names parts)
unfolding kept_pairs
kept_pairs-IsKept names [] h = tt
kept_pairs-IsKept names (part ∷ parts) (l, h) =
    if_cases (All (IsKept names)) (trim part ∷ kept_pairs names parts) (kept_pairs names parts)
      (keeps names (trim part))
      (λ e. ((All-trim (λ x. x ≢ b';') part l, e), kept_pairs-IsKept names parts h))
      (λ e. kept_pairs-IsKept names parts h)

abbrev spaced : Text → Text
spaced t = b' ' ∷ t

split-join-spaced :
    (names : List Text) (p : Text) (ps : List Text)
    → All (IsKept names) (p ∷ ps)
    → split b';' (join (codes "; ") (p ∷ ps)) ≡ p ∷ map spaced ps
unfolding join
split-join-spaced names p [] ((l, _), _) = split-Lacks_lem b';' p l
split-join-spaced names p (q ∷ ps) ((l, _), h) =
    split-append b';' p (spaced (join (codes "; ") (q ∷ ps))) l
    ∙ ap (λ (r : List Text). p ∷ r)
        (split-cons b';' b' ' (join (codes "; ") (q ∷ ps)) (omega arith)
          ∙ ap (cons_head b' ') (split-join-spaced names q ps h)
          ∙ (unfold cons_head in refl))

trim-spaced : (t : Text) → trim (spaced t) ≡ trim t
unfolding trim trim_start
trim-spaced t = refl

spaced_pair :
    (p : Text) (o : Option (Text × Text)) (rest : List (Text × Text))
    → split_once b'=' p ≡ o
    → push_pair (split_once b'=' (spaced p)) rest ≡ push_pair (split_once b'=' p) rest
unfolding split_once
spaced_pair p none rest e = rw (e, split_once)
spaced_pair p (some q) rest e =
    rw (e, split_once) (ap (λ (t : Text). (t, trim q.1) ∷ rest) (trim-spaced q.0))

-- A space in front of a part changes no pair.
pairs_of-spaced : (ps : List Text) → pairs_of (map spaced ps) ≡ pairs_of ps
unfolding pairs_of
pairs_of-spaced [] = refl
pairs_of-spaced (p ∷ ps) =
    ap (push_pair (split_once b'=' (spaced p))) (pairs_of-spaced ps)
    ∙ spaced_pair p (split_once b'=' p) (pairs_of ps) refl

-- No kept pair has one of the names.
find_pair-kept :
    (names : List Text) (wanted : Text) (ps : List Text)
    → any (λ n. text_eq n wanted) names ≡ true
    → All (IsKept names) ps
    → find_pair wanted (pairs_of ps) ≡ none
unfolding find_pair pairs_of keeps name_of_pair
find_pair-kept names wanted [] w h = refl
find_pair-kept names wanted (p ∷ ps) w ((_, k), h) = elim (Option-cases (split_once b'=' p)) [
  | inl e ↦ rw (e, push_pair) (find_pair-kept names wanted ps w h)
  | inr (q, e) ↦
      let other : any (λ n. text_eq n (trim q.0)) names ≡ false = ground arith in
      let apart : text_eq (trim q.0) wanted ≡ false = ground (
        arith,
        text_eq_iff (trim q.0) wanted,
        ap (λ (t : Text). any (λ n. text_eq n t) names) {x = trim q.0} {y = wanted},
      ) in
      ground (arith, find_pair-kept names wanted ps w h)
]

-- The name is one of the names.
abbrev IsNamed : List Text → Text → Type 0
IsNamed names wanted = any (λ n. text_eq n wanted) names ≡ true

IsNamed-cons :
    (n : Text) (names ws : List Text) → All (IsNamed names) ws → All (IsNamed (n ∷ names)) ws
IsNamed-cons n names [] h = tt
IsNamed-cons n names (w ∷ ws) (h, hs) = (ground arith, IsNamed-cons n names ws hs)

All-IsNamed : (names : List Text) → All (IsNamed names) names
All-IsNamed [] = tt
All-IsNamed (n ∷ names) =
    (ground (arith, text_eq_refl n), IsNamed-cons n names names (All-IsNamed names))

kept_cookie_pairs :
    (names : List Text) (p : Text) (ps : List Text)
    → All (IsKept names) (p ∷ ps)
    → cookie_pairs (join (codes "; ") (p ∷ ps) ∷ []) ≡ pairs_of (p ∷ ps)
unfolding cookie_pairs cookie_parts
kept_cookie_pairs names p ps h =
    ap pairs_of
      (append-nil (split b';' (join (codes "; ") (p ∷ ps))) ∙ split-join-spaced names p ps h)
    ∙ (unfold pairs_of in ap (push_pair (split_once b'=' p)) (pairs_of-spaced ps))

no_token :
    (names ws : List Text) (p : Text) (ps : List Text)
    → All (IsKept names) (p ∷ ps)
    → All (IsNamed names) ws
    → cookie_token (join (codes "; ") (p ∷ ps) ∷ []) ws ≡ none
unfolding cookie_token token_of
no_token names [] p ps h n = refl
no_token names (w ∷ ws) p ps h (n, ns) =
    let absent : find_pair w (cookie_pairs (join (codes "; ") (p ∷ ps) ∷ [])) ≡ none =
      ap (find_pair w) (kept_cookie_pairs names p ps h) ∙ find_pair-kept names w (p ∷ ps) n h in
    ground (arith, absent, no_token names ws p ps h ns)

joined_carries_no_token :
    (names kept : List Text) (value : Text)
    → All (IsKept names) kept
    → (if is_empty kept then none else some (join (codes "; ") kept)) ≡ some value
    → cookie_token (value ∷ []) names ≡ none
joined_carries_no_token names [] value h e = cc
joined_carries_no_token names (p ∷ ps) value h e =
    let same : join (codes "; ") (p ∷ ps) ≡ value = ground arith in
    subst (λ (v : Text). cookie_token (v ∷ []) names ≡ none) same
      (no_token names names p ps h (All-IsNamed names))

-- After the cookies of a request are stripped of some names, no token is found under any of them in
-- the header that is left.
pub stripped_carries_no_token :
    (headers names : List Text) (value : Text)
    → strip_cookies headers names ≡ some value
    → cookie_token (value ∷ []) names ≡ none
unfolding strip_cookies
stripped_carries_no_token headers names value h =
    joined_carries_no_token names (kept_pairs names (cookie_parts headers)) value
      (kept_pairs-IsKept names (cookie_parts headers) (cookie_parts-Lacks headers)) h
