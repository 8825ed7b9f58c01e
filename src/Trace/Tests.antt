-- ===== src/Trace/Tests.antt =====
-- Runs of the trace context, and the properties at concrete headers.
use lagos.Trace.Hex.{IsByte}
use lagos.Prelude.{
  ap, zero, suc, ℕ, ◌≡◌, refl, true, false, none, some, [], ◌∷◌, All, arith, replicate,
}
use lagos.Text.{Text, codes}
use lagos.Trace.{
  Bytes, TraceContext, zero_trace, zero_span, parse_traceparent, continue_from, trace_id_hex,
}
use lagos.Trace.Hops.{IsId, IsContext, hops, trace_survives_hops}
use lagos.Trace.Incoming.{continue_from-IsContext}

abbrev header : Text
header = codes "00-4bf92f3577b34da6a3ce929d0e0e4736-00f067aa0ba902b7-01"

abbrev new_trace : Bytes
new_trace = replicate 16 7

abbrev new_span : Bytes
new_span = replicate 8 9

continued :
    trace_id_hex (continue_from (some header) false new_trace new_span)
    ≡ codes "4bf92f3577b34da6a3ce929d0e0e4736"
unfolding trace_id_hex continue_from
continued = refl

forbidden_version :
    parse_traceparent (codes "ff-4bf92f3577b34da6a3ce929d0e0e4736-00f067aa0ba902b7-01") ≡ none
unfolding parse_traceparent
forbidden_version = refl

All-replicate : (n b : ℕ) → IsByte b → All IsByte (replicate n b)
All-replicate zero b h = tt
All-replicate (suc n) b h = (h, All-replicate n b h)

abbrev first_byte : Bytes → ℕ
first_byte [] = 0
first_byte (b ∷ bs) = b

new_trace-IsId : IsId 16 zero_trace new_trace
new_trace-IsId = (
  All-replicate 16 7 (omega arith),
  refl,
  λ e. let h : first_byte new_trace ≡ 0 = ap first_byte e in absurd (omega (arith, h)),
)

new_span-IsId : IsId 8 zero_span new_span
new_span-IsId = (
  All-replicate 8 9 (omega arith),
  refl,
  λ e. let h : first_byte new_span ≡ 0 = ap first_byte e in absurd (omega (arith, h)),
)

continue_from-IsContext_example : IsContext (continue_from (some header) true new_trace new_span)
continue_from-IsContext_example =
    continue_from-IsContext (some header) true new_trace new_span new_trace-IsId new_span-IsId

abbrev first_hop : TraceContext
first_hop = record { trace_id = new_trace; span_id = new_span; parent_span_id = none; flags = 1 }

trace_survives_hops_example :
    ((hops false first_hop ((new_trace, new_span) ∷ [])).trace_id ≡ new_trace)
    × ((hops false first_hop ((new_trace, new_span) ∷ [])).flags ≡ 1)
trace_survives_hops_example =
    trace_survives_hops false first_hop ((new_trace, new_span) ∷ [])
      (record { trace = new_trace-IsId; span = new_span-IsId; flags = omega arith })
      (new_span-IsId, tt)
