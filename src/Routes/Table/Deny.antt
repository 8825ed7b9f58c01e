-- ===== src/Routes/Table/Deny.antt =====
-- The deny list, `RouteTable::is_denied` of routes/mod.rs.
use mathlib.Core.List.{Memᴰ}
use lagos.Prelude.{ℕ, ◌==◌, ◌≡◌, refl, ◌∙◌, Bool, true, ◌||◌, List, [], ◌∷◌, map, any, arith}
use lagos.Text.{Text, is_empty, starts_with_char, strip_prefix}
use lagos.Path.{normalize_proxy_path}
use lagos.Routes.Table.{RouteTable, under_prefix, under_prefix_ignore_case, fold_case, is_denied}

-- What upstreams that ignore case may take for the same text.
abbrev pub folded : Text → Text
folded t = map fold_case t

fold_case_slash : (c d : ℕ) → fold_case c ≡ fold_case d → (c == b'/') ≡ (d == b'/')
unfolding fold_case
fold_case_slash c d h = ground arith

rest_folded :
    (s t : Text)
    → folded s ≡ folded t
    → (is_empty s || starts_with_char b'/' s) ≡ (is_empty t || starts_with_char b'/' t)
rest_folded [] [] h = refl
rest_folded [] (d ∷ t) h = cc
rest_folded (c ∷ s) [] h = cc
rest_folded (c ∷ s) (d ∷ t) h = fold_case_slash c d (ground arith)

-- The comparison reads of a path only what folding leaves.
under_prefix_ignore_case-folded :
    (s t prefix : Text)
    → folded s ≡ folded t
    → under_prefix_ignore_case s prefix ≡ under_prefix_ignore_case t prefix
unfolding under_prefix_ignore_case
under_prefix_ignore_case-folded s t [] h = rest_folded s t h
under_prefix_ignore_case-folded [] [] (p ∷ ps) h = refl
under_prefix_ignore_case-folded [] (d ∷ t) (p ∷ ps) h = cc
under_prefix_ignore_case-folded (c ∷ s) [] (p ∷ ps) h = cc
under_prefix_ignore_case-folded (c ∷ s) (d ∷ t) (p ∷ ps) h =
    let head : fold_case c ≡ fold_case d = ground arith in
    let tail : folded s ≡ folded t = ground arith in
    rw (head, under_prefix_ignore_case-folded s t ps tail)

exact_is_covered :
    (path prefix : Text)
    → under_prefix path prefix ≡ true
    → under_prefix_ignore_case path prefix ≡ true
unfolding under_prefix under_prefix_ignore_case strip_prefix
exact_is_covered path [] h = h
exact_is_covered [] (p ∷ ps) h = ground arith
exact_is_covered (c ∷ path) (p ∷ ps) h = ground (arith, exact_is_covered path ps)

any_of_mem :
    (p : Text → Bool) (x : Text) (xs : List Text) → Memᴰ x xs → p x ≡ true → any p xs ≡ true
any_of_mem p x [] m h = elim m [ ]
any_of_mem p x (y ∷ xs) (Memᴰ.head e) h = ground arith
any_of_mem p x (y ∷ xs) (Memᴰ.tail m) h = ground (arith, any_of_mem p x xs m h)

-- A path is denied if it folds to the same letters as some path at or below a prefix of the deny
-- list: whatever the case of its letters, and with the four characters that some upstreams take
-- for ASCII letters.
pub deny_list_covers :
    (table : RouteTable) (d path spelled : Text)
    → Memᴰ d table.deny_prefixes
    → under_prefix spelled d ≡ true
    → folded (normalize_proxy_path path) ≡ folded spelled
    → is_denied table path ≡ true
unfolding is_denied
deny_list_covers table d path spelled m u f =
    any_of_mem (λ q. under_prefix_ignore_case (normalize_proxy_path path) q) d table.deny_prefixes m
      (under_prefix_ignore_case-folded (normalize_proxy_path path) spelled d f
        ∙ exact_is_covered spelled d u)
