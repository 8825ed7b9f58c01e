-- ===== src/Interpolate/Resolving.antt =====
-- Putting the selected values into a scalar of the masked document,
-- crates/lagos-core/src/config/interpolate.rs.
use lagos.Prelude.{
  ℕ, zero, suc, ◌+◌, ◌<◌, ◌≡◌, ◌≢◌, refl, leb, if◌then◌else◌, Bool, if_cases, Option, none, some,
  List, [], ◌∷◌, ◌++◌, any, All, length, some_inj, Option-cases, inl, inr, arith,
}
use lagos.Text.{Text, strip_prefix, contains_text, split_once_text}
use lagos.Interpolate.{VariableReference}
use lagos.Interpolate.Lines.{Inspection}

unfoldable pub contains_marker : Inspection → Text → Bool
unfolding contains_text
contains_marker i scalar =
    any (λ (r : VariableReference). contains_text scalar r.marker) i.references

-- A marker that was found: the text before it, the text after it, and its reference.
pub record Occurrence : Type 0 where
  pub before : Text
  pub after : Text
  pub reference : VariableReference

unfoldable pub find_marker : Text → VariableReference → Option Occurrence
unfolding split_once_text
find_marker rest r = elim (split_once_text rest r.marker) [
  | none ↦ none
  | some p ↦ some (record { before = p.0; after = p.1; reference = r })
]

-- The first of two with the smallest offset.
unfoldable pub nearer : Option Occurrence → Option Occurrence → Option Occurrence
nearer none b = b
nearer (some a) none = some a
nearer (some a) (some b) = if leb (length a.before) (length b.before) then some a else some b

-- `filter_map` and `min_by_key`
unfoldable pub nearest : List VariableReference → Text → Option Occurrence
unfolding find_marker nearer
nearest [] rest = none
nearest (r ∷ rs) rest = nearer (find_marker rest r) (nearest rs rest)

-- The loop, for at most `fuel` rounds: `none` if they do not suffice.
unfoldable pub resolve_from : ℕ → List VariableReference → Text → Text → Option (Option Text)
unfolding nearest
resolve_from zero references rest out = none
resolve_from (suc fuel) references rest out = elim (nearest references rest) [
  | none ↦ some (some (out ++ rest))
  | some o ↦ elim o.reference.selected [
    | none ↦ some none
    | some value ↦ resolve_from fuel references o.after ((out ++ o.before) ++ value)
  ]
]

unfoldable pub resolve_scalar : ℕ → Inspection → Text → Option (Option Text)
unfolding resolve_from
resolve_scalar fuel i scalar = resolve_from fuel i.references scalar []

strip_prefix-length : (t p r : Text) → strip_prefix t p ≡ some r → length t ≡ length p + length r
unfolding strip_prefix
strip_prefix-length t [] r h = ground arith
strip_prefix-length [] (x ∷ xs) r h = absurd (cc)
strip_prefix-length (y ∷ t) (x ∷ xs) r h = ground (arith, strip_prefix-length t xs r)

split_once_text-length :
    (t p : Text) (q : Text × Text)
    → split_once_text t p ≡ some q
    → length t ≡ length q.0 + (length p + length q.1)
unfolding split_once_text
split_once_text-length [] [] q h = rw (← some_inj h) refl
split_once_text-length [] (x ∷ xs) q h = absurd (cc)
split_once_text-length (y ∷ t) p q h = elim (Option-cases (strip_prefix (y ∷ t) p)) [
  | inr (r, e) ↦
      let f : ([], r) ≡ q = ground arith in
      rw (← f) (omega (arith, strip_prefix-length (y ∷ t) p r e))
  | inl e ↦ elim (Option-cases (split_once_text t p)) [
    | inl f ↦ absurd (ground arith)
    | inr (s, f) ↦
        let g : (y ∷ s.0, s.1) ≡ q = ground arith in
        rw (← g) (omega (arith, split_once_text-length t p s f))
  ]
]

-- The occurrence is shorter than the text by its marker at least, which is not empty.
abbrev IsShorter : Text → Occurrence → Type 0
IsShorter rest o = length o.after < length rest

abbrev Shortens : Text → Option Occurrence → Type 0
Shortens rest found = (o : Occurrence) → found ≡ some o → IsShorter rest o

abbrev pub HasMarker : VariableReference → Type 0
HasMarker r = r.marker ≢ []

length_pos : (t : Text) → t ≢ [] → 0 < length t
length_pos [] h = absurd (h refl)
length_pos (x ∷ xs) h = omega arith

find_marker-Shortens :
    (rest : Text) (r : VariableReference) → HasMarker r → Shortens rest (find_marker rest r)
unfolding find_marker
find_marker-Shortens rest r h o e = elim (Option-cases (split_once_text rest r.marker)) [
  | inl f ↦ absurd (ground arith)
  | inr (p, f) ↦
      let g : o ≡ record { before = p.0; after = p.1; reference = r } = ground arith in
      rw g (omega (arith, split_once_text-length rest r.marker p f, length_pos r.marker h))
]

nearer-Shortens :
    (rest : Text) (a b : Option Occurrence)
    → Shortens rest a
    → Shortens rest b
    → Shortens rest (nearer a b)
unfolding nearer
nearer-Shortens rest none b h k = k
nearer-Shortens rest (some a) none h k = h
nearer-Shortens rest (some a) (some b) h k =
    if_cases (Shortens rest) (some a) (some b) (leb (length a.before) (length b.before)) (λ e. h)
      (λ e. k)

nearest-Shortens :
    (references : List VariableReference) (rest : Text)
    → All HasMarker references
    → Shortens rest (nearest references rest)
unfolding nearest
nearest-Shortens [] rest h o e = absurd (cc)
nearest-Shortens (r ∷ rs) rest (m, h) o e =
    nearer-Shortens rest (find_marker rest r) (nearest rs rest) (find_marker-Shortens rest r m)
      (nearest-Shortens rs rest h) o e

pub resolve_from_finishes :
    (fuel : ℕ) (references : List VariableReference) (rest out : Text)
    → All HasMarker references
    → length rest < fuel
    → (r : Option Text) × (resolve_from fuel references rest out ≡ some r)
unfolding resolve_from
resolve_from_finishes zero references rest out m h = absurd (omega arith)
resolve_from_finishes (suc fuel) references rest out m h =
    elim (Option-cases (nearest references rest)) [
      | inl e ↦ (some (out ++ rest), rw (e, resolve_from) refl)
      | inr (o, e) ↦ elim (Option-cases o.reference.selected) [
        | inl f ↦ (none, ground arith)
        | inr (value, f) ↦
            let (r, g) =
              resolve_from_finishes fuel references o.after ((out ++ o.before) ++ value) m
                (omega (arith, nearest-Shortens references rest m o e)) in
            (r, ground (arith, g))
      ]
    ]
