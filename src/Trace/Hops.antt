-- ===== src/Trace/Hops.antt =====
-- A trace over several gateways, crates/lagos-core/src/trace.rs.
use lagos.Prelude.{
  ℕ, suc, ◌*◌, ◌≡◌, ◌≢◌, refl, sym, subst, Bool, true, false, some, List, [], ◌∷◌, All, length,
  arith, Bool-cases, inl, inr,
}
use lagos.Text.{Text, codes, join, trim, text_eq, eq_of_text_eq}
use lagos.Text.Splitting.{Lacks, split-join, All-append}
use lagos.Trace.{
  Bytes, TraceContext, zero_trace, zero_span, flag_sampled, hex_byte, write_hex, is_valid_version,
  is_hex_of, hex_bytes, parse_flags, same_bytes, nonzero_ids, parse_fields, parse_parts,
  parse_traceparent, continue_parsed, and_then_parse, continue_from, to_header,
}
use lagos.Trace.Hex.{
  IsByte, hex_bytes-write_hex, parse_flags-hex, hex_byte-hex, write_hex-hex, write_hex-append,
  length-write_hex, Lacks-hex, is_hex_of-hex, trim-NoSpace, NoSpace-hex,
}

-- An id of so many bytes that is not all zero.
abbrev pub IsId : ℕ → Bytes → Bytes → Type 0
IsId n zeros id = All IsByte id × (length id ≡ n) × (id ≢ zeros)

pub record IsContext (cx : TraceContext) : Type 0 where
  pub trace : IsId 16 zero_trace cx.trace_id
  pub span : IsId 8 zero_span cx.span_id
  pub flags : IsByte cx.flags

fields : TraceContext → List Text
fields cx = write_hex cx.trace_id [] ∷ (write_hex cx.span_id [] ∷ (hex_byte cx.flags [] ∷ []))

to_header-join : (cx : TraceContext) → to_header cx ≡ join (b'-' ∷ []) (codes "00" ∷ fields cx)
unfolding to_header fields join
to_header-join cx =
    rw
      (
        write_hex-append cx.trace_id (b'-' ∷ write_hex cx.span_id (b'-' ∷ hex_byte cx.flags [])),
        write_hex-append cx.span_id (b'-' ∷ hex_byte cx.flags []),
      )
      refl

fields-Lacks : (cx : TraceContext) → IsContext cx → All (Lacks b'-') (codes "00" ∷ fields cx)
unfolding fields lagos.Trace.is_hex_char
fields-Lacks cx h = (
  Lacks-hex (codes "00") (refl, (refl, tt)),
  (
    Lacks-hex (write_hex cx.trace_id []) (write_hex-hex cx.trace_id h.trace.0),
    (
      Lacks-hex (write_hex cx.span_id []) (write_hex-hex cx.span_id h.span.0),
      (Lacks-hex (hex_byte cx.flags []) (hex_byte-hex cx.flags [] h.flags tt), tt),
    ),
  ),
)

same_bytes-ne : (a b : Bytes) → a ≢ b → same_bytes a b ≡ false
unfolding same_bytes
same_bytes-ne a b n = elim (Bool-cases (text_eq a b)) [
  | inl e ↦ absurd (n (eq_of_text_eq a b e))
  | inr e ↦ e
]

hex_bytes-id :
    (n : ℕ) (id zeros : Bytes) → IsId n zeros id → hex_bytes n (write_hex id []) ≡ some id
hex_bytes-id n id zeros (b, l, z) = rw (← l) (hex_bytes-write_hex id b)

is_hex_of-id :
    (n : ℕ) (id zeros : Bytes)
    → IsId (suc n) zeros id
    → is_hex_of (suc (suc (n * 2))) (write_hex id []) ≡ true
is_hex_of-id n id zeros (b, l, z) =
    is_hex_of-hex (write_hex id []) (suc (n * 2)) (write_hex-hex id b)
      (omega (arith, length-write_hex id, l))

parse_fields-header :
    (cx : TraceContext)
    → IsContext cx
    → parse_parts (codes "00" ∷ fields cx) ≡ some (cx.trace_id, (cx.span_id, cx.flags))
unfolding parse_parts parse_fields fields nonzero_ids write_hex
parse_fields-header cx h =
    let version : is_valid_version (codes "00") ≡ true = unfold is_valid_version in refl in
    let flags : is_hex_of 2 (hex_byte cx.flags []) ≡ true =
      is_hex_of-hex (hex_byte cx.flags []) 1 (hex_byte-hex cx.flags [] h.flags tt)
        (unfold hex_byte in refl) in
    rw
      (
        version,
        is_hex_of-id 15 cx.trace_id zero_trace h.trace,
        is_hex_of-id 7 cx.span_id zero_span h.span,
        flags,
        hex_bytes-id 16 cx.trace_id zero_trace h.trace,
        hex_bytes-id 8 cx.span_id zero_span h.span,
        parse_flags-hex cx.flags h.flags,
        same_bytes-ne cx.trace_id zero_trace h.trace.2,
        same_bytes-ne cx.span_id zero_span h.span.2,
      )
      refl

NoSpace-join :
    (cx : TraceContext)
    → IsContext cx
    → trim (join (b'-' ∷ []) (codes "00" ∷ fields cx)) ≡ join (b'-' ∷ []) (codes "00" ∷ fields cx)
unfolding fields join lagos.Trace.is_hex_char
NoSpace-join cx h = trim-NoSpace _ (
  refl,
  (
    refl,
    (
      refl,
      All-append _ b'-' (write_hex cx.trace_id []) _
          (NoSpace-hex (write_hex cx.trace_id []) (write_hex-hex cx.trace_id h.trace.0))
          (
            refl,
            All-append _ b'-' (write_hex cx.span_id []) _
                (NoSpace-hex (write_hex cx.span_id []) (write_hex-hex cx.span_id h.span.0))
                (refl, NoSpace-hex (hex_byte cx.flags []) (hex_byte-hex cx.flags [] h.flags tt)),
          ),
    ),
  ),
)

-- Reading the header that a hop writes gives back its ids and flags.
pub parse_traceparent-to_header :
    (cx : TraceContext)
    → IsContext cx
    → parse_traceparent (to_header cx) ≡ some (cx.trace_id, (cx.span_id, cx.flags))
unfolding parse_traceparent
parse_traceparent-to_header cx h =
    rw
      (
        to_header-join cx,
        NoSpace-join cx h,
        split-join b'-' (codes "00") (fields cx) (fields-Lacks cx h),
      )
      (parse_fields-header cx h)

-- A chain of gateways: each gets the header of the one before, and draws new ids.
pub hops : Bool → TraceContext → List (Bytes × Bytes) → TraceContext
unfolding continue_from to_header
hops sampled cx [] = cx
hops sampled cx ((new_trace, new_span) ∷ later) =
    hops sampled (continue_from (some (to_header cx)) sampled new_trace new_span) later

pub next_hop :
    (cx : TraceContext) (sampled : Bool) (new_trace new_span : Bytes)
    → IsContext cx
    → continue_from (some (to_header cx)) sampled new_trace new_span ≡ record {
      trace_id = cx.trace_id;
      span_id = new_span;
      parent_span_id = some cx.span_id;
      flags = cx.flags;
    }
unfolding continue_from and_then_parse continue_parsed
next_hop cx sampled new_trace new_span h = rw (parse_traceparent-to_header cx h) refl

abbrev pub SpanIds : List (Bytes × Bytes) → Type 0
SpanIds drawn = All (λ d. IsId 8 zero_span d.1) drawn

-- Over any number of gateways, whatever ids they draw and whatever their own sampling says, a trace
-- keeps its id and the sampling decision of its first hop.
pub trace_survives_hops :
    (sampled : Bool) (cx : TraceContext) (drawn : List (Bytes × Bytes))
    → IsContext cx
    → SpanIds drawn
    → ((hops sampled cx drawn).trace_id ≡ cx.trace_id) × ((hops sampled cx drawn).flags ≡ cx.flags)
unfolding hops
trace_survives_hops sampled cx [] h s = (refl, refl)
trace_survives_hops sampled cx ((new_trace, new_span) ∷ later) h (s, ss) =
    subst
      (λ (c : TraceContext).
        ((hops sampled c later).trace_id ≡ cx.trace_id) × ((hops sampled c later).flags ≡ cx.flags))
      (sym (next_hop cx sampled new_trace new_span h))
      (trace_survives_hops sampled
        (record {
          trace_id = cx.trace_id;
          span_id = new_span;
          parent_span_id = some cx.span_id;
          flags = cx.flags;
        })
        later (record { trace = h.trace; span = s; flags = h.flags }) ss)
