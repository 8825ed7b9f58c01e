-- ===== src/Trace.antt =====
-- W3C trace context, crates/lagos-core/src/trace.rs.
-- An id is the list of its bytes; the ids that the generator of the crate uuid gives are arguments.
pub mod Hex
pub mod Hops
pub mod Incoming
mod Tests
use lagos.Prelude.{
  ℕ, zero, suc, ◌+◌, ◌-◌, ◌*◌, ◌/◌, ◌%◌, ◌==◌, ltb, leb, if◌then◌else◌, Bool, true, false, not,
  ◌&&◌, ◌||◌, Option, none, some, List, [], ◌∷◌, ◌++◌, all, take, replicate,
}
use lagos.Text.{Text, codes, is_empty, split, trim, byte_len, text_eq, is_ascii_digit}

abbrev pub Bytes : Type 0
Bytes = List ℕ

abbrev pub flag_sampled : ℕ
flag_sampled = 1

abbrev pub zero_trace : Bytes
zero_trace = replicate 16 0

abbrev pub zero_span : Bytes
zero_span = replicate 8 0

pub record TraceContext : Type 0 where
  pub trace_id : Bytes
  pub span_id : Bytes
  pub parent_span_id : Option Bytes
  pub flags : ℕ

-- `{:02x}`
unfoldable pub hex_char : ℕ → ℕ
hex_char d = if ltb d 10 then d + b'0' else d + 87

unfoldable pub hex_byte : ℕ → Text → Text
unfolding hex_char
hex_byte b rest = hex_char (b / 16) ∷ (hex_char (b % 16) ∷ rest)

-- `write_hex`, with `rest` behind it
unfoldable pub write_hex : Bytes → Text → Text
unfolding hex_byte
write_hex [] rest = rest
write_hex (b ∷ bs) rest = hex_byte b (write_hex bs rest)

unfoldable pub is_hex_char : ℕ → Bool
is_hex_char c = is_ascii_digit c || leb b'a' c && leb c b'f' || leb b'A' c && leb c b'F'

unfoldable pub is_hex : Text → Bool
unfolding is_hex_char
is_hex s = not (is_empty s) && all is_hex_char s

-- A digit of `from_str_radix(_, 16)`
unfoldable pub digit_of : ℕ → Option ℕ
digit_of c =
    if is_ascii_digit c
    then some (c - b'0')
    else if leb b'a' c && leb c b'f'
    then some (c - 87)
    else if leb b'A' c && leb c b'F'
    then some (c - 55)
    else none

unfoldable pub byte_of : Option ℕ → Option ℕ → Option ℕ
byte_of (some high) (some low) = some (high * 16 + low)
byte_of (some high) none = none
byte_of none low = none

-- `u8::from_str_radix(s, 16).ok()` of two characters, of which the first may be a sign.
unfoldable pub parse_byte : ℕ → ℕ → Option ℕ
unfolding digit_of byte_of
parse_byte c d = if c == b'+' then digit_of d else byte_of (digit_of c) (digit_of d)

unfoldable pub cons_byte : Option ℕ → Option Bytes → Option Bytes
cons_byte (some b) (some bs) = some (b ∷ bs)
cons_byte (some b) none = none
cons_byte none bs = none

-- `hex16` and `hex8`: the loop over so many slots.
unfoldable pub hex_bytes : ℕ → Text → Option Bytes
unfolding parse_byte cons_byte
hex_bytes zero s = some []
hex_bytes (suc n) (c ∷ (d ∷ rest)) = cons_byte (parse_byte c d) (hex_bytes n rest)
hex_bytes (suc n) [] = none
hex_bytes (suc n) (c ∷ []) = none

unfoldable pub is_valid_version : Text → Bool
unfolding is_hex text_eq byte_len
is_valid_version version =
    byte_len version == 2 && is_hex version && not (text_eq version (codes "ff"))

unfoldable pub is_hex_of : ℕ → Text → Bool
unfolding is_hex byte_len
is_hex_of n s = byte_len s == n && is_hex s

-- `u8::from_str_radix(flags, 16).ok()`, once `flags` is two hexadecimal digits.
unfoldable pub parse_flags : Text → Option ℕ
unfolding parse_byte
parse_flags (c ∷ (d ∷ [])) = parse_byte c d
parse_flags s = none

unfoldable pub same_bytes : Bytes → Bytes → Bool
unfolding text_eq
same_bytes a b = text_eq a b

-- The end of `parse_traceparent`.
unfoldable pub nonzero_ids : Option Bytes → Option Bytes → Option ℕ → Option (Bytes × (Bytes × ℕ))
unfolding same_bytes
nonzero_ids (some trace) (some parent) (some flags) =
    if same_bytes trace zero_trace || same_bytes parent zero_span
    then none
    else some (trace, (parent, flags))
nonzero_ids (some trace) (some parent) none = none
nonzero_ids (some trace) none flags = none
nonzero_ids none parent flags = none

unfoldable pub parse_fields : Text → Text → Text → Text → List Text → Option (Bytes × (Bytes × ℕ))
unfolding is_valid_version is_hex_of nonzero_ids hex_bytes parse_flags
parse_fields version trace_id parent_id flags more =
    if not (is_valid_version version)
    then none
    else if text_eq version (codes "00") && not (is_empty more)
    then none
    else if not (is_hex_of 32 trace_id)
    then none
    else if not (is_hex_of 16 parent_id)
    then none
    else if not (is_hex_of 2 flags)
    then none
    else nonzero_ids (hex_bytes 16 trace_id) (hex_bytes 8 parent_id) (parse_flags flags)

unfoldable pub parse_parts : List Text → Option (Bytes × (Bytes × ℕ))
unfolding parse_fields
parse_parts (version ∷ (trace_id ∷ (parent_id ∷ (flags ∷ more)))) =
    parse_fields version trace_id parent_id flags more
parse_parts [] = none
parse_parts (a ∷ []) = none
parse_parts (a ∷ (b ∷ [])) = none
parse_parts (a ∷ (b ∷ (c ∷ []))) = none

unfoldable pub parse_traceparent : Text → Option (Bytes × (Bytes × ℕ))
unfolding parse_parts trim split
parse_traceparent raw = parse_parts (split b'-' (trim raw))

unfoldable pub continue_parsed : Option (Bytes × (Bytes × ℕ)) → Bool → Bytes → Bytes → TraceContext
continue_parsed (some (trace_id, (parent, flags))) sampled new_trace new_span = record {
  trace_id = trace_id;
  span_id = new_span;
  parent_span_id = some parent;
  flags = flags;
}
continue_parsed none sampled new_trace new_span = record {
  trace_id = new_trace;
  span_id = new_span;
  parent_span_id = none;
  flags = if sampled then flag_sampled else 0;
}

unfoldable pub and_then_parse : Option Text → Option (Bytes × (Bytes × ℕ))
unfolding parse_traceparent
and_then_parse none = none
and_then_parse (some raw) = parse_traceparent raw

-- `TraceContext::continue_from`, where the random ids are `new_trace` and `new_span`.
unfoldable pub continue_from : Option Text → Bool → Bytes → Bytes → TraceContext
unfolding continue_parsed and_then_parse
continue_from incoming sampled new_trace new_span =
    continue_parsed (and_then_parse incoming) sampled new_trace new_span

unfoldable pub is_sampled : TraceContext → Bool
is_sampled cx = cx.flags % 2 == 1

unfoldable pub to_header : TraceContext → Text
unfolding write_hex
to_header cx =
    codes "00-" ++ write_hex cx.trace_id (b'-' ∷ write_hex cx.span_id (b'-' ∷ hex_byte cx.flags []))

unfoldable pub trace_id_hex : TraceContext → Text
unfolding write_hex
trace_id_hex cx = write_hex cx.trace_id []

unfoldable pub span_id_hex : TraceContext → Text
unfolding write_hex
span_id_hex cx = write_hex cx.span_id []
