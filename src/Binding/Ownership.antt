-- ===== src/Binding/Ownership.antt =====
-- What a request must supply for a binding to let it pass.
use lagos.Prelude.{
  ◌≡◌, ◌↔◌, inl, inr, refl, sym, ap, ◌∙◌, true, false, Option, none, some, List, [], ◌∷◌,
  Bool-cases, Option-cases, arith,
}
use lagos.Text.{Text, split, text_eq, text_eq_iff, text_eq_refl}
use lagos.Binding.{
  Identity, Target, Binding, query, percent_decode, key_and_value, query_pairs, query_param,
  supplied, proven, permits, both_equal,
}

abbrev pub BothHave : Option Text → Option Text → Type 0
BothHave s p = (v : Text) × (s ≡ some v) × (p ≡ some v)

both_equal_sound : (s p : Option Text) → both_equal s p ≡ true → BothHave s p
unfolding both_equal
both_equal_sound none p h = cc
both_equal_sound (some s) none h = cc
both_equal_sound (some s) (some p) h =
    let same = (text_eq_iff s p).0 h in (s, refl, ap some (sym same))

both_equal_complete : (s p : Option Text) → BothHave s p → both_equal s p ≡ true
unfolding both_equal
both_equal_complete s p (v, e, f) = rw (e, f) (text_eq_refl v)

-- A binding lets a request pass exactly when the request supplies a value and the verified caller
-- has the same one; a missing parameter and a missing claim both refuse.
pub permits_iff :
    (decode : Text → Option Text) (b : Binding) (identity : Identity) (q : Option Text)
    (header_value : Text → Option Text)
    → (permits decode b identity q header_value ≡ true)
      ↔ BothHave (supplied decode b.source q header_value) (proven b.target identity)
unfolding permits
permits_iff decode b identity q header_value = (both_equal_sound _ _, both_equal_complete _ _)

-- The names of the query's pairs, decoded, with `none` for one that does not decode.
abbrev pub name_of : (Text → Option Text) → Text → Option Text
name_of decode pair = percent_decode decode (key_and_value pair).0

-- The pairs that have the name.
unfoldable pub occurrences : (Text → Option Text) → Text → List Text → List Text
occurrences decode name [] = []
occurrences decode name (pair ∷ pairs) = elim (name_of decode pair) [
  | none ↦ occurrences decode name pairs
  | some key ↦ elim (text_eq key name) [
    | false ↦ occurrences decode name pairs
    | true ↦ pair ∷ occurrences decode name pairs
  ]
]

module _ (decode : Text → Option Text) (name : Text) where
  -- Where the value of a query's parameter is found.
  abbrev pub IsOnly : List Text → Text → Type 0
  IsOnly pairs v =
      (pair : Text) × (occurrences decode name pairs ≡ pair ∷ [])
      × (percent_decode decode (key_and_value pair).1 ≡ some v)

  none_after :
      (pairs : List Text) (w v : Text)
      → query_pairs decode name pairs (some w) ≡ some v
      → (occurrences decode name pairs ≡ []) × (w ≡ v)
  unfolding query_pairs occurrences
  none_after [] w v h = (refl, ground arith)
  none_after (pair ∷ pairs) w v h = elim (Option-cases (name_of decode pair)) [
    | inl e ↦ absurd (ground arith)
    | inr (key, e) ↦ elim (Bool-cases (text_eq key name)) [
      | inl f ↦ absurd (ground arith)
      | inr f ↦
          let further : query_pairs decode name pairs (some w) ≡ some v = ground arith in
          let (n, same) = none_after pairs w v further in (ground arith, same)
    ]
  ]

  pub found_once :
      (pairs : List Text) (v : Text) → query_pairs decode name pairs none ≡ some v → IsOnly pairs v
  unfolding query_pairs occurrences
  found_once [] v h = cc
  found_once (pair ∷ pairs) v h = elim (Option-cases (name_of decode pair)) [
    | inl e ↦ absurd (ground arith)
    | inr (key, e) ↦ elim (Bool-cases (text_eq key name)) [
      | inl f ↦ elim (Option-cases (percent_decode decode (key_and_value pair).1)) [
        | inl g ↦ absurd (ground arith)
        | inr (w, g) ↦
            let further : query_pairs decode name pairs (some w) ≡ some v = ground arith in
            let (n, same) = none_after pairs w v further in (pair, ground arith, g ∙ ap some same)
      ]
      | inr f ↦
          let further : query_pairs decode name pairs none ≡ some v = ground arith in
          let (only, o, d) = found_once pairs v further in (only, ground arith, d)
    ]
  ]

  -- If a binding on a query parameter lets a request pass, then exactly one pair of the query has
  -- the parameter's name, and its value decodes to what the caller's identity holds: a second
  -- occurrence, which an upstream might read instead, is refused.
  pub bound_query_is_owned :
      (target : Target) (identity : Identity) (q : Text) (header_value : Text → Option Text)
      → permits decode
          (record { source = query name; target = target })
          identity
          (some q)
          header_value
        ≡ true
      → (v : Text) × IsOnly (split b'&' q) v × (proven target identity ≡ some v)
  unfolding supplied query_param
  bound_query_is_owned target identity q header_value h =
      let (v, s, p) =
        (permits_iff decode (record { source = query name; target = target }) identity (some q)
            header_value).0
          h in
      (v, found_once (split b'&' q) v s, p)
