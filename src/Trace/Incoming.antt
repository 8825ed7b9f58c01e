-- ===== src/Trace/Incoming.antt =====
-- What any incoming header becomes, crates/lagos-core/src/trace.rs.
use lagos.Prelude.{
  ℕ, zero, suc, ◌==◌, ◌<◌, ◌≡◌, ◌≢◌, refl, ap, sym, if◌then◌else◌, Bool, true, false, not, ◌&&◌,
  Option, none, some, List, [], ◌∷◌, All, length, arith, Bool-cases, inl, inr, some_inj,
}
use lagos.Text.{Text, codes, is_empty, split, trim, text_eq, text_eq_refl}
use lagos.Trace.{
  Bytes, zero_trace, zero_span, is_valid_version, is_hex_of, digit_of, byte_of, parse_byte,
  cons_byte, hex_bytes, parse_flags, same_bytes, nonzero_ids, parse_fields, parse_parts,
  parse_traceparent, continue_parsed, and_then_parse, continue_from,
}
use lagos.Trace.Hex.{IsByte}
use lagos.Trace.Hops.{IsId, IsContext}

digit_of-lt : (c d : ℕ) → digit_of c ≡ some d → d < 16
unfolding digit_of
digit_of-lt c d h = ground arith

byte_of-IsByte :
    (a b : Option ℕ) (n : ℕ)
    → ((d : ℕ) → a ≡ some d → d < 16)
    → ((d : ℕ) → b ≡ some d → d < 16)
    → byte_of a b ≡ some n
    → IsByte n
unfolding byte_of
byte_of-IsByte (some x) (some y) n h k e = ground (arith, h x refl, k y refl)
byte_of-IsByte (some x) none n h k e = absurd (cc)
byte_of-IsByte none b n h k e = absurd (cc)

parse_byte-IsByte : (c d n : ℕ) → parse_byte c d ≡ some n → IsByte n
unfolding parse_byte
parse_byte-IsByte c d n h = elim (Bool-cases (c == b'+')) [
  | inl e ↦ let l = digit_of-lt d n (rw (e, parse_byte) at h) in omega (arith, l)
  | inr e ↦
      byte_of-IsByte (digit_of c) (digit_of d) n (digit_of-lt c) (digit_of-lt d)
        (rw (e, parse_byte) at h)
]

cons_byte-some :
    (a : Option ℕ) (b : Option Bytes) (r : Bytes)
    → cons_byte a b ≡ some r
    → (x : ℕ) × (xs : Bytes) × (a ≡ some x) × (b ≡ some xs) × (r ≡ x ∷ xs)
unfolding cons_byte
cons_byte-some (some x) (some xs) r h = (x, xs, refl, refl, sym (some_inj h))
cons_byte-some (some x) none r h = absurd (cc)
cons_byte-some none b r h = absurd (cc)

hex_bytes_sound :
    (n : ℕ) (s : Text) (bs : Bytes) → hex_bytes n s ≡ some bs → All IsByte bs × (length bs ≡ n)
unfolding hex_bytes
hex_bytes_sound zero s bs h = rw (← some_inj h) (tt, refl)
hex_bytes_sound (suc n) (c ∷ (d ∷ rest)) bs h =
    let (x, xs, ex, exs, e) = cons_byte-some (parse_byte c d) (hex_bytes n rest) bs h in
    let (b, l) = hex_bytes_sound n rest xs exs in rw e ((parse_byte-IsByte c d x ex, b), ap suc l)
hex_bytes_sound (suc n) [] bs h = absurd (cc)
hex_bytes_sound (suc n) (c ∷ []) bs h = absurd (cc)

parse_flags_sound : (s : Text) (n : ℕ) → parse_flags s ≡ some n → IsByte n
unfolding parse_flags
parse_flags_sound (c ∷ (d ∷ [])) n h = parse_byte-IsByte c d n h
parse_flags_sound [] n h = absurd (cc)
parse_flags_sound (c ∷ []) n h = absurd (cc)
parse_flags_sound (c ∷ (d ∷ (e ∷ r))) n h = absurd (cc)

abbrev Parsed : Type 0
Parsed = Bytes × (Bytes × ℕ)

abbrev IsParsed : Parsed → Type 0
IsParsed r = IsId 16 zero_trace r.0 × (IsId 8 zero_span r.1.0 × IsByte r.1.1)

same_bytes_refl : (a b : Bytes) → same_bytes a b ≡ false → a ≢ b
unfolding same_bytes
same_bytes_refl a b h e = let t : text_eq a b ≡ true = rw e (text_eq_refl b) in cc

nonzero_ids_sound :
    (trace parent : Option Bytes) (flags : Option ℕ) (r : Parsed)
    → ((bs : Bytes) → trace ≡ some bs → All IsByte bs × (length bs ≡ 16))
    → ((bs : Bytes) → parent ≡ some bs → All IsByte bs × (length bs ≡ 8))
    → ((n : ℕ) → flags ≡ some n → IsByte n)
    → nonzero_ids trace parent flags ≡ some r
    → IsParsed r
unfolding nonzero_ids
nonzero_ids_sound (some t) (some p) (some f) r ht hp hf e =
    elim (Bool-cases (same_bytes t zero_trace)) [
      | inl a ↦ absurd (ground arith)
      | inr a ↦ elim (Bool-cases (same_bytes p zero_span)) [
        | inl b ↦ absurd (ground arith)
        | inr b ↦
            let made : (t, (p, f)) ≡ r = ground arith in
            let (tb, tl) = ht t refl in
            let (pb, pl) = hp p refl in
            rw (← made) (
              (tb, tl, same_bytes_refl t zero_trace a),
              ((pb, pl, same_bytes_refl p zero_span b), hf f refl),
            )
      ]
    ]
nonzero_ids_sound (some t) (some p) none r ht hp hf e = absurd (cc)
nonzero_ids_sound (some t) none flags r ht hp hf e = absurd (cc)
nonzero_ids_sound none parent flags r ht hp hf e = absurd (cc)

-- A test that refuses has not refused.
passed : (b : Bool) (x : Option Parsed) (r : Parsed) → (if b then none else x) ≡ some r → x ≡ some r
passed true x r h = absurd (cc)
passed false x r h = h

parse_fields_sound :
    (version trace_id parent_id flags : Text) (more : List Text) (r : Parsed)
    → parse_fields version trace_id parent_id flags more ≡ some r
    → IsParsed r
unfolding parse_fields
parse_fields_sound version trace_id parent_id flags more r h =
    nonzero_ids_sound (hex_bytes 16 trace_id) (hex_bytes 8 parent_id) (parse_flags flags) r
      (hex_bytes_sound 16 trace_id) (hex_bytes_sound 8 parent_id) (parse_flags_sound flags)
      (passed (not (is_hex_of 2 flags)) _ r (
        passed (not (is_hex_of 16 parent_id)) _ r (
          passed (not (is_hex_of 32 trace_id)) _ r (
            passed (text_eq version (codes "00") && not (is_empty more)) _ r
              (passed (not (is_valid_version version)) _ r h)))))

parse_parts_sound : (parts : List Text) (r : Parsed) → parse_parts parts ≡ some r → IsParsed r
unfolding parse_parts
parse_parts_sound (version ∷ (trace_id ∷ (parent_id ∷ (flags ∷ more)))) r h =
    parse_fields_sound version trace_id parent_id flags more r h
parse_parts_sound [] r h = absurd (cc)
parse_parts_sound (a ∷ []) r h = absurd (cc)
parse_parts_sound (a ∷ (b ∷ [])) r h = absurd (cc)
parse_parts_sound (a ∷ (b ∷ (c ∷ []))) r h = absurd (cc)

continue_parsed-IsContext :
    (o : Option Parsed) (sampled : Bool) (new_trace new_span : Bytes)
    → ((r : Parsed) → o ≡ some r → IsParsed r)
    → IsId 16 zero_trace new_trace
    → IsId 8 zero_span new_span
    → IsContext (continue_parsed o sampled new_trace new_span)
unfolding continue_parsed
continue_parsed-IsContext (some (t, (p, f))) sampled new_trace new_span h nt ns =
    let (it, rest) = h (t, (p, f)) refl in record { trace = it; span = ns; flags = rest.1 }
continue_parsed-IsContext none true new_trace new_span h nt ns = record {
  trace = nt;
  span = ns;
  flags = omega arith;
}
continue_parsed-IsContext none false new_trace new_span h nt ns = record {
  trace = nt;
  span = ns;
  flags = omega arith;
}

and_then_parse_sound :
    (incoming : Option Text) (r : Parsed) → and_then_parse incoming ≡ some r → IsParsed r
unfolding and_then_parse parse_traceparent
and_then_parse_sound none r h = absurd (cc)
and_then_parse_sound (some raw) r h = parse_parts_sound (split b'-' (trim raw)) r h

-- Whatever a request carries as its trace header, the hop has a context that is valid: ids of the
-- right size that are not all zero, and flags that fit a byte.
pub continue_from-IsContext :
    (incoming : Option Text) (sampled : Bool) (new_trace new_span : Bytes)
    → IsId 16 zero_trace new_trace
    → IsId 8 zero_span new_span
    → IsContext (continue_from incoming sampled new_trace new_span)
unfolding continue_from
continue_from-IsContext incoming sampled new_trace new_span nt ns =
    continue_parsed-IsContext (and_then_parse incoming) sampled new_trace new_span
      (and_then_parse_sound incoming) nt ns
