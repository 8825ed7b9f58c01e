-- ===== src/Trace/Hex.antt =====
-- Hexadecimal digits, crates/lagos-core/src/trace.rs.
use lagos.Prelude.{
  ℕ, suc, ◌+◌, ◌*◌, ◌/◌, ◌%◌, ◌==◌, ◌<◌, ◌≡◌, refl, ap, true, false, some, [], ◌∷◌, ◌++◌, All, all,
  length, arith,
}
use lagos.Text.{Text, byte_len, trim, trim_start, trim_end, is_whitespace}
use lagos.Text.Splitting.{Lacks}
use lagos.Trace.{
  Bytes, hex_char, hex_byte, write_hex, is_hex_char, is_hex, digit_of, byte_of, parse_byte,
  cons_byte, hex_bytes, parse_flags, is_hex_of,
}

abbrev pub IsByte : ℕ → Type 0
IsByte b = b < 256

abbrev pub IsHexChar : ℕ → Type 0
IsHexChar c = is_hex_char c ≡ true

digit_of-hex_char : (d : ℕ) → d < 16 → digit_of (hex_char d) ≡ some d
unfolding digit_of hex_char
digit_of-hex_char d h = ground arith

hex_char-IsHexChar : (d : ℕ) → d < 16 → IsHexChar (hex_char d)
unfolding is_hex_char hex_char
hex_char-IsHexChar d h = ground arith

hex_char-ne : (d : ℕ) → d < 16 → (hex_char d == b'+') ≡ false
unfolding hex_char
hex_char-ne d h = ground arith

byte_parts : (b : ℕ) → b < 256 → b / 16 * 16 + b % 16 ≡ b
byte_parts b h = omega arith

parse_byte-hex : (b : ℕ) → IsByte b → parse_byte (hex_char (b / 16)) (hex_char (b % 16)) ≡ some b
unfolding parse_byte byte_of
parse_byte-hex b h =
    let high : b / 16 < 16 = omega arith in
    let low : b % 16 < 16 = omega arith in
    rw (hex_char-ne (b / 16) high, digit_of-hex_char (b / 16) high, digit_of-hex_char (b % 16) low)
      (ap (λ (n : ℕ). some n) (byte_parts b h))

pub hex_bytes-write_hex :
    (bs : Bytes) → All IsByte bs → hex_bytes (length bs) (write_hex bs []) ≡ some bs
unfolding hex_bytes write_hex hex_byte cons_byte
hex_bytes-write_hex [] h = refl
hex_bytes-write_hex (b ∷ bs) (p, h) = rw (parse_byte-hex b p, hex_bytes-write_hex bs h) refl

pub parse_flags-hex : (b : ℕ) → IsByte b → parse_flags (hex_byte b []) ≡ some b
unfolding parse_flags hex_byte
parse_flags-hex b h = parse_byte-hex b h

pub hex_byte-hex :
    (b : ℕ) (rest : Text) → IsByte b → All IsHexChar rest → All IsHexChar (hex_byte b rest)
unfolding hex_byte
hex_byte-hex b rest p h =
    (hex_char-IsHexChar (b / 16) (omega arith), (hex_char-IsHexChar (b % 16) (omega arith), h))

pub write_hex-hex : (bs : Bytes) → All IsByte bs → All IsHexChar (write_hex bs [])
unfolding write_hex
write_hex-hex [] h = tt
write_hex-hex (b ∷ bs) (p, h) = hex_byte-hex b (write_hex bs []) p (write_hex-hex bs h)

pub write_hex-append : (bs : Bytes) (rest : Text) → write_hex bs rest ≡ write_hex bs [] ++ rest
unfolding write_hex hex_byte
write_hex-append [] rest = refl
write_hex-append (b ∷ bs) rest =
    ap (λ (t : Text). hex_char (b / 16) ∷ (hex_char (b % 16) ∷ t)) (write_hex-append bs rest)

pub length-write_hex : (bs : Bytes) → length (write_hex bs []) ≡ length bs * 2
unfolding write_hex hex_byte
length-write_hex [] = refl
length-write_hex (b ∷ bs) = omega (arith, length-write_hex bs)

-- Hexadecimal digits are ASCII, no dash and no white space.
pub byte_len-hex : (t : Text) → All IsHexChar t → byte_len t ≡ length t
unfolding byte_len is_hex_char
byte_len-hex [] h = refl
byte_len-hex (c ∷ cs) (p, h) = ground (arith, byte_len-hex cs h)

pub Lacks-hex : (t : Text) → All IsHexChar t → Lacks b'-' t
unfolding is_hex_char
Lacks-hex [] h = tt
Lacks-hex (c ∷ cs) (p, h) = (ground arith, Lacks-hex cs h)

all-hex : (t : Text) → All IsHexChar t → all is_hex_char t ≡ true
all-hex [] h = refl
all-hex (c ∷ cs) (p, h) = ground (arith, all-hex cs h)

pub is_hex_of-hex :
    (t : Text) (n : ℕ) → All IsHexChar t → length t ≡ suc n → is_hex_of (suc n) t ≡ true
unfolding is_hex_of is_hex
is_hex_of-hex [] n h e = absurd (omega (arith, e))
is_hex_of-hex (c ∷ cs) n h e = ground (arith, byte_len-hex (c ∷ cs) h, all-hex (c ∷ cs) h)

-- A text that neither starts nor ends with white space.
abbrev NoSpace : Text → Type 0
NoSpace t = All (λ c. is_whitespace c ≡ false) t

trim_end-NoSpace : (t : Text) → NoSpace t → trim_end t ≡ t
unfolding trim_end
trim_end-NoSpace [] h = refl
trim_end-NoSpace (c ∷ cs) (p, h) = rw (p, trim_end-NoSpace cs h) refl

pub trim-NoSpace : (t : Text) → NoSpace t → trim t ≡ t
unfolding trim trim_start
trim-NoSpace [] h = unfold trim_end in refl
trim-NoSpace (c ∷ cs) (p, h) = rw p (trim_end-NoSpace (c ∷ cs) (p, h))

pub NoSpace-hex : (t : Text) → All IsHexChar t → NoSpace t
unfolding is_hex_char
NoSpace-hex [] h = tt
NoSpace-hex (c ∷ cs) (p, h) = (ground arith, NoSpace-hex cs h)
