-- ===== src/Routes/Table/Prefix.antt =====
-- `under_prefix` of routes/mod.rs.
use mathlib.Core.List.{append-nil}
use lagos.Prelude.{
  ℕ, ◌≡◌, ◌↔◌, ◌⊎◌, inl, inr, refl, ap, sym, ◌∙◌, true, ◌||◌, some, [], ◌∷◌, ◌++◌, arith,
  Option-cases,
}
use lagos.Text.{Text, is_empty, starts_with_char, strip_prefix}
use lagos.Routes.Table.{under_prefix}

pub strip_prefix_sound : (s p rest : Text) → strip_prefix s p ≡ some rest → s ≡ p ++ rest
unfolding strip_prefix
strip_prefix_sound s [] rest h = ground arith
strip_prefix_sound [] (p ∷ ps) rest h = cc
strip_prefix_sound (x ∷ xs) (p ∷ ps) rest h = ground (arith, strip_prefix_sound xs ps rest)

pub strip_prefix-append : (p rest : Text) → strip_prefix (p ++ rest) p ≡ some rest
unfolding strip_prefix
strip_prefix-append [] rest = refl
strip_prefix-append (x ∷ p) rest = ground (arith, strip_prefix-append p rest)

-- The path is the prefix or continues it with a slash.
abbrev pub IsUnder : Text → Text → Type 0
IsUnder path prefix = (path ≡ prefix) ⊎ ((rest : Text) × (path ≡ prefix ++ (b'/' ∷ rest)))

IsUnder-rest :
    (path prefix rest : Text)
    → path ≡ prefix ++ rest
    → (is_empty rest || starts_with_char b'/' rest) ≡ true
    → IsUnder path prefix
IsUnder-rest path prefix [] e h = inl (e ∙ append-nil prefix)
IsUnder-rest path prefix (c ∷ rest) e h =
    let slash : c ≡ b'/' = ground arith in
    inr (rest, e ∙ ap (λ (x : ℕ). prefix ++ (x ∷ rest)) slash)

under_prefix_sound : (path prefix : Text) → under_prefix path prefix ≡ true → IsUnder path prefix
unfolding under_prefix
under_prefix_sound path prefix h = elim (Option-cases (strip_prefix path prefix)) [
  | inl e ↦ absurd (ground arith)
  | inr (rest, e) ↦
      IsUnder-rest path prefix rest (strip_prefix_sound path prefix rest e) (ground arith)
]

under_prefix_complete : (path prefix : Text) → IsUnder path prefix → under_prefix path prefix ≡ true
unfolding under_prefix
under_prefix_complete path prefix (inl e) =
    let whole : strip_prefix path prefix ≡ some [] = rw e (
      ap (λ (u : Text). strip_prefix u prefix) (sym (append-nil prefix))
      ∙ strip_prefix-append prefix []) in
    ground arith
under_prefix_complete path prefix (inr (rest, e)) =
    let whole : strip_prefix path prefix ≡ some (b'/' ∷ rest) =
      rw e (strip_prefix-append prefix (b'/' ∷ rest)) in
    ground arith

-- A path is under a prefix exactly when it is the prefix or continues it with a slash: the
-- equivalence that the comment on `under_prefix` claims.
pub under_prefix_iff :
    (path prefix : Text) → (under_prefix path prefix ≡ true) ↔ IsUnder path prefix
under_prefix_iff path prefix = (under_prefix_sound path prefix, under_prefix_complete path prefix)
