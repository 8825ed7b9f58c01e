-- ===== src/Text.antt =====
-- Rust's `str`, as the list of its characters' code points, with the methods of the standard
-- library that the gateway calls.
mod Equality
pub mod Splitting
pub mod Trimming
pub mod Case
pub mod Suffixes
pub mod Decimal
pub mod Counting
pub mod Cutting
unfoldable pub use Equality.*
use Prim.Native.Char.{code}
use Prim.Native.String
use Prim.Native.String.{String}
use lagos.Prelude.{
  ℕ, zero, suc, ◌+◌, ◌-◌, ◌==◌, leb, ltb, if◌then◌else◌, Bool, true, false, not, ◌&&◌, ◌||◌, Option,
  none, some, List, [], ◌∷◌, ◌++◌, any,
}

abbrev pub Text : Type 0
Text = List ℕ

-- A literal.
abbrev pub codes : String → Text
codes String.[] = []
codes (String.◌∷◌ c s) = code c ∷ codes s

-- `s.is_empty()`
abbrev pub is_empty {ℓ} : {A : Type ℓ} → List A → Bool
is_empty [] = true
is_empty (_ ∷ _) = false

-- `s.contains(c)`
abbrev pub contains : ℕ → Text → Bool
contains c [] = false
contains c (x ∷ xs) = x == c || contains c xs

unfoldable pub cons_head : ℕ → List Text → List Text
cons_head x [] = (x ∷ []) ∷ []
cons_head x (part ∷ parts) = (x ∷ part) ∷ parts

-- `s.split(c)`: never empty.
unfoldable pub split : ℕ → Text → List Text
unfolding cons_head
split c [] = [] ∷ []
split c (x ∷ xs) = let rest = split c xs in if x == c then [] ∷ rest else cons_head x rest

-- `s.split(c).next()`, which is always there.
unfoldable pub before : ℕ → Text → Text
before c [] = []
before c (x ∷ xs) = let rest = before c xs in if x == c then [] else x ∷ rest

-- `parts.join(sep)`
unfoldable pub join : Text → List Text → Text
join sep [] = []
join sep (part ∷ []) = part
join sep (part ∷ (next ∷ parts)) = part ++ (sep ++ join sep (next ∷ parts))

-- `s.strip_prefix(p)`
unfoldable pub strip_prefix : Text → Text → Option Text
strip_prefix s [] = some s
strip_prefix [] (p ∷ ps) = none
strip_prefix (x ∷ xs) (p ∷ ps) = let rest = strip_prefix xs ps in if x == p then rest else none

-- `s.trim_start_matches(c)`
unfoldable pub trim_start_matches : ℕ → Text → Text
trim_start_matches c [] = []
trim_start_matches c (x ∷ xs) =
    let rest = trim_start_matches c xs in if x == c then rest else x ∷ xs

-- `s.trim_end_matches(c)`
unfoldable pub trim_end_matches : ℕ → Text → Text
trim_end_matches c [] = []
trim_end_matches c (x ∷ xs) =
    let rest = trim_end_matches c xs in if x == c && is_empty rest then [] else x ∷ rest

-- `s.trim_matches(c)`
unfoldable pub trim_matches : ℕ → Text → Text
unfolding trim_start_matches trim_end_matches
trim_matches c s = trim_end_matches c (trim_start_matches c s)

abbrev pub is_upper : ℕ → Bool
is_upper c = leb b'A' c && leb c b'Z'

abbrev pub is_lower : ℕ → Bool
is_lower c = leb b'a' c && leb c b'z'

-- `char::to_ascii_lowercase` and `char::to_ascii_uppercase`
unfoldable pub lower_char : ℕ → ℕ
lower_char c = if is_upper c then c + 32 else c

unfoldable pub upper_char : ℕ → ℕ
upper_char c = if is_lower c then c - 32 else c

unfoldable pub to_ascii_lowercase : Text → Text
unfolding lower_char
to_ascii_lowercase [] = []
to_ascii_lowercase (c ∷ cs) = lower_char c ∷ to_ascii_lowercase cs

unfoldable pub to_ascii_uppercase : Text → Text
unfolding upper_char
to_ascii_uppercase [] = []
to_ascii_uppercase (c ∷ cs) = upper_char c ∷ to_ascii_uppercase cs

-- The bytes that a character takes in UTF-8, and `s.len()`.
abbrev pub utf8_width : ℕ → ℕ
utf8_width c = if ltb c 0x80 then 1 else if ltb c 0x800 then 2 else if ltb c 0x10000 then 3 else 4

unfoldable pub byte_len : Text → ℕ
byte_len [] = 0
byte_len (c ∷ cs) = utf8_width c + byte_len cs

-- `s.eq_ignore_ascii_case(t)`
unfoldable pub eq_ignore_ascii_case : Text → Text → Bool
unfolding to_ascii_lowercase text_eq
eq_ignore_ascii_case s t = text_eq (to_ascii_lowercase s) (to_ascii_lowercase t)

-- `s.starts_with(p)` and `s.contains(p)` for a text `p`
unfoldable pub starts_with : Text → Text → Bool
starts_with s [] = true
starts_with [] (p ∷ ps) = false
starts_with (x ∷ xs) (p ∷ ps) = x == p && starts_with xs ps

unfoldable pub contains_text : Text → Text → Bool
unfolding starts_with
contains_text [] p = starts_with [] p
contains_text (x ∷ xs) p = starts_with (x ∷ xs) p || contains_text xs p

-- The characters of the property White_Space.
abbrev pub is_whitespace : ℕ → Bool
is_whitespace c =
    leb 0x9 c && leb c 0xd
    || c == 0x20
    || c == 0x85
    || c == 0xa0
    || c == 0x1680
    || leb 0x2000 c && leb c 0x200a
    || c == 0x2028
    || c == 0x2029
    || c == 0x202f
    || c == 0x205f
    || c == 0x3000

unfoldable pub trim_start : Text → Text
trim_start [] = []
trim_start (x ∷ xs) = let rest = trim_start xs in if is_whitespace x then rest else x ∷ xs

unfoldable pub trim_end : Text → Text
trim_end [] = []
trim_end (x ∷ xs) =
    let rest = trim_end xs in if is_whitespace x && is_empty rest then [] else x ∷ rest

-- `s.trim()`
unfoldable pub trim : Text → Text
unfolding trim_start trim_end
trim s = trim_end (trim_start s)

-- `s.strip_suffix(t)`: what stands before, which is there if and only if `s.ends_with(t)`.
unfoldable pub strip_suffix : Text → Text → Option Text
strip_suffix [] t = if is_empty t then some [] else none
strip_suffix (x ∷ xs) t =
    let rest = strip_suffix xs t in
    if text_eq (x ∷ xs) t then some [] else elim rest [ none ↦ none | some p ↦ some (x ∷ p) ]

-- `s.ends_with(c)` and `s.starts_with(c)` for a character
unfoldable pub ends_with_char : ℕ → Text → Bool
ends_with_char c [] = false
ends_with_char c (x ∷ []) = x == c
ends_with_char c (x ∷ (y ∷ r)) = ends_with_char c (y ∷ r)

abbrev pub starts_with_char : ℕ → Text → Bool
starts_with_char c [] = false
starts_with_char c (x ∷ xs) = x == c

-- `s.split_once(c)`
unfoldable pub split_once : ℕ → Text → Option (Text × Text)
split_once c [] = none
split_once c (x ∷ xs) =
    let rest = split_once c xs in
    if x == c then some ([], xs) else elim rest [ none ↦ none | some p ↦ some (x ∷ p.0, p.1) ]

-- `s.rsplit_once(c)`
unfoldable pub rsplit_once : ℕ → Text → Option (Text × Text)
rsplit_once c [] = none
rsplit_once c (x ∷ xs) = elim (rsplit_once c xs) [
  | some p ↦ some (x ∷ p.0, p.1)
  | none ↦ if x == c then some ([], xs) else none
]

-- `s.split_once(p)` for a text `p`
unfoldable pub split_once_text : Text → Text → Option (Text × Text)
unfolding strip_prefix
split_once_text [] p = if is_empty p then some ([], []) else none
split_once_text (x ∷ xs) p =
    let rest = split_once_text xs p in
    elim (strip_prefix (x ∷ xs) p) [
      | some after ↦ some ([], after)
      | none ↦ elim rest [ none ↦ none | some q ↦ some (x ∷ q.0, q.1) ]
    ]

-- `char::is_control`: the category Cc.
abbrev pub is_control : ℕ → Bool
is_control c = ltb c 0x20 || leb 0x7f c && leb c 0x9f

abbrev pub is_ascii_digit : ℕ → Bool
is_ascii_digit c = leb b'0' c && leb c b'9'

abbrev pub is_ascii_alphabetic : ℕ → Bool
is_ascii_alphabetic c = is_upper c || is_lower c

abbrev pub is_ascii_alphanumeric : ℕ → Bool
is_ascii_alphanumeric c = is_ascii_alphabetic c || is_ascii_digit c

-- `s.lines()`: the parts before line feeds, less a carriage return at the end of each, and the part
-- behind the last unless it is empty.
unfoldable pub strip_return : Text → Text
strip_return [] = []
strip_return (c ∷ []) = if c == b'\r' then [] else c ∷ []
strip_return (c ∷ (d ∷ r)) = c ∷ strip_return (d ∷ r)

unfoldable pub lines_of : List Text → List Text
unfolding strip_return
lines_of [] = []
lines_of (part ∷ []) = if is_empty part then [] else part ∷ []
lines_of (part ∷ (next ∷ parts)) = strip_return part ∷ lines_of (next ∷ parts)

unfoldable pub lines : Text → List Text
unfolding split lines_of
lines s = lines_of (split b'\n' s)
