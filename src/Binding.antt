-- ===== src/Binding.antt =====
-- Binding a request value to the verified caller, crates/lagos-core/src/binding.rs, and the claims
-- that it reads, crates/lagos-core/src/auth/mod.rs.
-- `decode s` is `percent_decode_str(s).decode_utf8().ok()`.
pub mod Ownership
mod Tests
use lagos.Prelude.{
  ℕ, ◌==◌, if◌then◌else◌, Bool, true, false, not, ◌&&◌, ◌||◌, Option, none, some, List, [], ◌∷◌,
  ◌++◌,
}
use lagos.Text.{
  Text, codes, is_empty, split, split_once, text_eq, to_ascii_lowercase, strip_prefix, is_upper,
  lower_char,
}

-- `serde_json::Value`. A number is kept as the text that it prints as.
mutual
  pub data Value : Type 0 where
    null : Value
    boolean : Bool → Value
    number : Text → Value
    string : Text → Value
    array : Items → Value
    object : Fields → Value

  pub data Items : Type 0 where
    nil : Items
    cons : Value → Items → Items

  pub data Fields : Type 0 where
    end : Fields
    field : Text → Value → Fields → Fields

pub record Identity : Type 0 where
  pub subject : Text
  pub issuer : Text
  pub audience : Text
  pub claims : Fields

unfoldable pub get : Text → Fields → Option Value
get name end = none
get name (field k v rest) = let more = get name rest in if text_eq k name then some v else more

unfoldable pub to_snake_case : Text → Text
to_snake_case [] = []
to_snake_case (c ∷ cs) =
    let rest = to_snake_case cs in if is_upper c then b'_' ∷ (lower_char c ∷ rest) else c ∷ rest

-- A field in either spelling.
unfoldable pub get_either : Text → Fields → Option Value
get_either name fields = elim (get name fields) [
  | none ↦ get (to_snake_case name) fields
  | some v ↦ some v
]

abbrev as_object : Value → Option Fields
as_object (object fields) = some fields
as_object _ = none

-- The loop of `claim_at` over the further segments.
descend : List Text → Value → Option Value
descend [] current = some current
descend (segment ∷ segments) current = elim (as_object current) [
  | none ↦ none
  | some fields ↦ elim (get_either segment fields) [ none ↦ none | some v ↦ descend segments v ]
]

claim_segments : List Text → Fields → Option Value
claim_segments [] claims = none
claim_segments (first ∷ segments) claims = elim (get_either first claims) [
  | none ↦ none
  | some v ↦ descend segments v
]

unfoldable pub claim_at : Identity → Text → Option Value
unfolding claim_segments descend
claim_at identity path = claim_segments (split b'.' path) identity.claims

pub data Source : Type 0 where
  query header : Text → Source

pub data Target : Type 0 where
  subject : Target
  claim : Text → Target

pub record Binding : Type 0 where
  pub source : Source
  pub target : Target

parse_source : Option (Text × Text) → Option Source
parse_source none = none
parse_source (some (kind, name)) =
    if is_empty name
    then none
    else if text_eq kind (codes "query")
    then some (query name)
    else if text_eq kind (codes "header")
    then some (header (to_ascii_lowercase name))
    else none

parse_target : Text → Option Target
parse_target target =
    if text_eq target (codes "identity.subject") || text_eq target (codes "identity.sub")
    then some subject
    else elim (strip_prefix target (codes "identity.")) [
      | none ↦ none
      | some name ↦ if is_empty name then none else some (claim name)
    ]

-- `Binding::parse`; the messages of its errors are left out.
unfoldable pub parse : Text → Text → Option Binding
unfolding parse_source parse_target
parse source target = elim (parse_source (split_once b'.' source)) [
  | none ↦ none
  | some s ↦ elim (parse_target target) [
    | none ↦ none
    | some t ↦ some (record { source = s; target = t })
  ]
]

unfoldable pub scalar_to_string : Value → Option Text
scalar_to_string (string s) = some s
scalar_to_string (number n) = some n
scalar_to_string (boolean true) = some (codes "true")
scalar_to_string (boolean false) = some (codes "false")
scalar_to_string _ = none

-- `s.replace('+', " ")`
unfoldable pub plus_to_space : Text → Text
plus_to_space [] = []
plus_to_space (c ∷ cs) = let rest = plus_to_space cs in if c == b'+' then b' ' ∷ rest else c ∷ rest

-- `pair.split_once('=').unwrap_or((pair, ""))`
unfoldable pub key_and_value : Text → Text × Text
key_and_value pair = elim (split_once b'=' pair) [ none ↦ (pair, []) | some kv ↦ kv ]

module _ (decode : Text → Option Text) where
  unfoldable pub percent_decode : Text → Option Text
  unfolding plus_to_space
  percent_decode s = decode (plus_to_space s)

  -- The loop of `query_param`, over the pairs, with the value found so far.
  unfoldable pub query_pairs : Text → List Text → Option Text → Option Text
  query_pairs name [] value = value
  query_pairs name (pair ∷ pairs) value = elim (percent_decode (key_and_value pair).0) [
    | none ↦ none
    | some key ↦ elim (text_eq key name) [
      | false ↦ query_pairs name pairs value
      | true ↦ elim value [
        | some _ ↦ none
        | none ↦ elim (percent_decode (key_and_value pair).1) [
          | none ↦ none
          | some v ↦ query_pairs name pairs (some v)
        ]
      ]
    ]
  ]

  unfoldable pub query_param : Text → Text → Option Text
  unfolding query_pairs
  query_param q name = query_pairs name (split b'&' q) none

  unfoldable pub supplied : Source → Option Text → (Text → Option Text) → Option Text
  supplied (query name) none header_value = none
  supplied (query name) (some q) header_value = query_param q name
  supplied (header name) q header_value = header_value name

unfoldable pub proven : Target → Identity → Option Text
proven subject identity = some identity.subject
proven (claim path) identity = elim (claim_at identity path) [
  | none ↦ none
  | some v ↦ scalar_to_string v
]

both_equal : Option Text → Option Text → Bool
both_equal (some s) (some p) = text_eq s p
both_equal (some s) none = false
both_equal none p = false

unfoldable pub permits :
    (Text → Option Text) → Binding → Identity → Option Text → (Text → Option Text) → Bool
unfolding both_equal
permits decode b identity q header_value =
    both_equal (supplied decode b.source q header_value) (proven b.target identity)
