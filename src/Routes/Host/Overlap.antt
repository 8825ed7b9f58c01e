-- ===== src/Routes/Host/Overlap.antt =====
-- `HostPattern::matches` and `HostPattern::overlaps` of routes/mod.rs.
use mathlib.Core.List.{append_assoc}
use lagos.Prelude.{
  sym, ap, ◌∙◌, ◌+◌, ◌≡◌, ◌≢◌, ◌<◌, ◌↔◌, ◌⊎◌, inl, inr, refl, true, ◌||◌, some, [], ◌∷◌, ◌++◌,
  Bool-cases, Option-cases, arith,
}
use lagos.Text.{
  Text, codes, byte_len, ends_with_char, strip_suffix, text_eq, text_eq_iff, text_eq_refl,
}
use lagos.Text.Suffixes.{
  strip_suffix_sound, strip_suffix-append, ends_with_char_sound, ends_with_char-append,
  ends_with_char-append_last, byte_len-append, byte_len_pos,
}
use lagos.Routes.Host.{HostPattern, exact, suffix, matches, is_under, overlaps}

-- The hosts below a domain: at least one character, a dot, and the domain.
abbrev pub IsBelow : Text → Text → Type 0
IsBelow host s = (sub : Text) × (sub ≢ []) × (host ≡ sub ++ (b'.' ∷ s))

sub_ne_nil : (s sub : Text) → byte_len s + 1 < byte_len ((sub ++ b'.' ∷ []) ++ s) → sub ≢ []
unfolding byte_len
sub_ne_nil s [] h = absurd (omega arith)
sub_ne_nil s (x ∷ sub) h = cc

matches_suffix_sound : (s host : Text) → matches (suffix s) host ≡ true → IsBelow host s
unfolding matches
matches_suffix_sound s host h = elim (Option-cases (strip_suffix host s)) [
  | inl e ↦ absurd (ground arith)
  | inr (p, e) ↦
      let (sub, dot) = ends_with_char_sound b'.' p (ground arith) in
      let whole : host ≡ (sub ++ b'.' ∷ []) ++ s = rw (← dot) (strip_suffix_sound host s p e) in
      let long : byte_len s + 1 < byte_len host = ground arith in
      (sub, sub_ne_nil s sub (rw whole at long), whole ∙ append_assoc sub (b'.' ∷ []) s)
]

longer : (s sub : Text) → sub ≢ [] → byte_len s + 1 < byte_len ((sub ++ b'.' ∷ []) ++ s)
longer s [] h = absurd (h refl)
longer s (x ∷ sub) h = omega (
  arith,
  byte_len-append ((x ∷ sub) ++ b'.' ∷ []) s,
  byte_len-append (x ∷ sub) (b'.' ∷ []),
  byte_len_pos x sub,
  byte_len_pos b'.' [],
)

matches_suffix_complete : (s sub : Text) → sub ≢ [] → matches (suffix s) (sub ++ (b'.' ∷ s)) ≡ true
unfolding matches
matches_suffix_complete s sub h = rw (← append_assoc sub (b'.' ∷ []) s) (
    ground (
      arith,
      strip_suffix-append (sub ++ b'.' ∷ []) s,
      longer s sub h,
      ends_with_char-append b'.' sub,
    ))

-- A wildcard pattern matches exactly the hosts below its domain: never the domain itself, and never
-- a host that merely ends with the domain's characters.
pub matches_suffix_iff : (s host : Text) → (matches (suffix s) host ≡ true) ↔ IsBelow host s
matches_suffix_iff s host =
    (matches_suffix_sound s host, λ below. rw below.2 (matches_suffix_complete s below.0 below.1))

-- Two ways to cut one text: one cut lies behind the other.
two_cuts :
    (u v a b : Text)
    → u ++ a ≡ v ++ b
    → ((w : Text) × (v ≡ u ++ w) × (a ≡ w ++ b)) ⊎ ((w : Text) × (u ≡ v ++ w) × (b ≡ w ++ a))
two_cuts [] v a b e = inl (v, refl, e)
two_cuts (x ∷ u) [] a b e = inr (x ∷ u, refl, sym e)
two_cuts (x ∷ u) (y ∷ v) a b e =
    let same : x ≡ y = ground arith in
    elim (two_cuts u v a b (ground arith)) [
      | inl (w, p, q) ↦ inl (w, ground arith, q)
      | inr (w, p, q) ↦ inr (w, ground arith, q)
    ]

-- What lies between two cuts that both follow a dot is empty or ends with a dot.
between_dots :
    (u v w : Text)
    → v ++ b'.' ∷ [] ≡ (u ++ b'.' ∷ []) ++ w
    → (w ≡ []) ⊎ (ends_with_char b'.' w ≡ true)
between_dots u v [] e = inl refl
between_dots u v (x ∷ w) e = inr (
    sym (ends_with_char-append_last b'.' x (u ++ b'.' ∷ []) w)
    ∙ ap (ends_with_char b'.') (sym e)
    ∙ ends_with_char-append b'.' v)

is_under_of_cut :
    (a b w : Text)
    → a ≡ w ++ b
    → (w ≡ []) ⊎ (ends_with_char b'.' w ≡ true)
    → (text_eq a b || is_under a b) ≡ true
unfolding is_under
is_under_of_cut a b w e (inl n) =
    let same : a ≡ b = e ∙ ap (λ (u : Text). u ++ b) n in ground (arith, text_eq_iff a b, same)
is_under_of_cut a b w e (inr d) =
    let cut : strip_suffix a b ≡ some w = rw e (strip_suffix-append w b) in ground arith

-- A host that both patterns match.
abbrev pub Common : HostPattern → HostPattern → Type 0
Common a b = (host : Text) × (matches a host ≡ true) × (matches b host ≡ true)

cuts_overlap :
    (a b u v : Text) → u ++ (b'.' ∷ a) ≡ v ++ (b'.' ∷ b) → overlaps (suffix a) (suffix b) ≡ true
unfolding overlaps
cuts_overlap a b u v e =
    let whole : (u ++ b'.' ∷ []) ++ a ≡ (v ++ b'.' ∷ []) ++ b =
      append_assoc u (b'.' ∷ []) a ∙ e ∙ sym (append_assoc v (b'.' ∷ []) b) in
    elim (two_cuts (u ++ b'.' ∷ []) (v ++ b'.' ∷ []) a b whole) [
      | inl (w, p, q) ↦ ground (arith, is_under_of_cut a b w q (between_dots u v w p))
      | inr (w, p, q) ↦
          ground (
            arith,
            is_under_of_cut b a w q (between_dots v u w p),
            text_eq_iff a b,
            text_eq_iff b a,
          )
    ]

overlaps_of_Common : (a b : HostPattern) → Common a b → overlaps a b ≡ true
unfolding overlaps
overlaps_of_Common (exact a) (exact b) (host, p, q) =
    unfold matches in (ground (arith, text_eq_iff host a, text_eq_iff host b, text_eq_iff a b))
overlaps_of_Common (exact a) (suffix b) (host, p, q) =
    let same : host ≡ a = (text_eq_iff host a).0 (unfold matches in p) in rw (← same) q
overlaps_of_Common (suffix a) (exact b) (host, p, q) =
    let same : host ≡ b = (text_eq_iff host b).0 (unfold matches in q) in rw (← same) p
overlaps_of_Common (suffix a) (suffix b) (host, p, q) =
    let (u, _, e) = matches_suffix_sound a host p in
    let (v, _, f) = matches_suffix_sound b host q in cuts_overlap a b u v (sym e ∙ f)

-- The host `x.` in front of a domain, which is below that domain and all that it is below.
abbrev witness : Text → Text
witness a = codes "x" ++ (b'.' ∷ a)

witness-matches : (a : Text) → matches (suffix a) (witness a) ≡ true
witness-matches a = matches_suffix_complete a (codes "x") (λ e. cc)

witness_below : (a b : Text) → is_under a b ≡ true → matches (suffix b) (witness a) ≡ true
unfolding is_under
witness_below a b h = elim (Option-cases (strip_suffix a b)) [
  | inl e ↦ absurd (ground arith)
  | inr (p, e) ↦
      let (q, dot) = ends_with_char_sound b'.' p (ground arith) in
      let cut : a ≡ q ++ (b'.' ∷ b) =
        strip_suffix_sound a b p e ∙ ap (λ (u : Text). u ++ b) dot ∙ append_assoc q (b'.' ∷ []) b in
      rw cut (matches_suffix_complete b (codes "x." ++ q) (λ n. cc))
]

overlaps_sound : (a b : HostPattern) → overlaps a b ≡ true → Common a b
unfolding overlaps
overlaps_sound (exact a) (exact b) h = (a, unfold matches in text_eq_refl a, unfold matches in h)
overlaps_sound (exact a) (suffix b) h = (a, unfold matches in text_eq_refl a, h)
overlaps_sound (suffix a) (exact b) h = (b, h, unfold matches in text_eq_refl b)
overlaps_sound (suffix a) (suffix b) h = elim (Bool-cases (text_eq a b)) [
  | inl e ↦
      let same : a ≡ b = (text_eq_iff a b).0 e in
      (witness b, rw same (witness-matches b), witness-matches b)
  | inr n ↦ elim (Bool-cases (is_under a b)) [
    | inl u ↦ (witness a, witness-matches a, witness_below a b u)
    | inr m ↦ (witness b, witness_below b a (rw (n, m) at h), witness-matches b)
  ]
]

-- Two patterns overlap exactly when there is a host that both match.
pub overlaps_iff : (a b : HostPattern) → (overlaps a b ≡ true) ↔ Common a b
overlaps_iff a b = (overlaps_sound a b, overlaps_of_Common a b)
