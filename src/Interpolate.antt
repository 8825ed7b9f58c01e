-- ===== src/Interpolate.antt =====
-- `${VAR}` expansion of configuration text, crates/lagos-core/src/config/interpolate.rs.
-- The environment is a parameter: `lookup name` is the value of the variable, if it is set.
pub mod Lines
pub mod Steps
pub mod Invariants
pub mod Masking
pub mod Inspecting
pub mod Newlines
mod Tests
pub mod Markers
pub mod Resolving
pub mod Escaping
pub mod Prefix
pub mod Supplied
use lagos.Prelude.{
  ℕ, suc, ◌+◌, ◌==◌, if◌then◌else◌, Bool, true, false, not, ◌&&◌, ◌||◌, Option, none, some, List,
  [], ◌∷◌, ◌++◌, any, all, length, Result, ok, err, ◌>>=◌,
}
use lagos.Text.{
  Text, codes, is_empty, text_eq, trim, split_once_text, is_control, is_ascii_alphabetic,
  is_ascii_alphanumeric,
}
use lagos.Text.Decimal.{decimal}

unfoldable pub is_structurally_safe : Text → Bool
is_structurally_safe value = not (any is_control value)

unfoldable pub is_valid_name : Text → Bool
is_valid_name [] = false
is_valid_name (c ∷ cs) =
    (is_ascii_alphabetic c || c == b'_') && all (λ d. is_ascii_alphanumeric d || d == b'_') cs

pub data InterpolateError : Type 0 where
  unset : Text → ℕ → InterpolateError
  unterminated : ℕ → InterpolateError
  empty_name : ℕ → InterpolateError
  bad_name : Text → ℕ → InterpolateError
  control_character : Text → ℕ → InterpolateError

pub record Interpolated : Type 0 where
  pub text : Text
  pub referenced : List Text
  pub defaulted : List Text
  pub placeheld : List Text

pub data VariableState : Type 0 where
  set defaulted required invalid : VariableState

pub record VariableReference : Type 0 where
  pub name : Text
  pub line : ℕ
  pub column : ℕ
  pub has_default : Bool
  pub state : VariableState
  pub marker : Text
  pub selected : Option Text

pub record Expansion : Type 0 where
  pub fallback : Option (Text → Text)
  pub referenced : List Text
  pub defaulted : List Text
  pub placeheld : List Text
  pub inspection_prefix : Option Text
  pub occurrences : List VariableReference

-- The text written so far, and what was noted on the way.
pub record Progress : Type 0 where
  pub out : Text
  pub exp : Expansion

-- `Expansion::note`
unfoldable pub note : List Text → Text → List Text
unfolding text_eq
note names name = if any (λ n. text_eq n name) names then names else names ++ (name ∷ [])

-- The name and the default of a reference, from what stands between the braces.
unfoldable pub name_and_default : Text → Text × Option Text
unfolding split_once_text trim
name_and_default body = elim (split_once_text body (codes ":-")) [
  | some p ↦ (trim p.0, some p.1)
  | none ↦ (trim body, none)
]

-- What the environment has, where a blank value counts as none.
unfoldable pub non_blank : Option Text → Option Text
unfolding trim
non_blank none = none
non_blank (some v) = if is_empty (trim v) then none else some (trim v)

unfoldable pub or_default : Option Text → Option Text → Option Text
or_default (some v) default = some v
or_default none default = default

unfoldable pub variable_state : Option Text → Option Text → VariableState
variable_state (some v) default = set
variable_state none (some d) = defaulted
variable_state none none = required

unfoldable pub is_some : Option Text → Bool
is_some none = false
is_some (some v) = true

-- `selected.is_some_and(|v| !is_structurally_safe(v))`
unfoldable pub is_unsafe : Option Text → Bool
unfolding is_structurally_safe
is_unsafe none = false
is_unsafe (some v) = not (is_structurally_safe v)

unfoldable pub marker_of : Text → ℕ → Text
unfolding decimal
marker_of prefix n = prefix ++ (decimal n ++ codes "-end")

-- What inspection does at a reference: a marker for the text, and a record of it.
unfoldable pub mask : Text → Text → ℕ → ℕ → Option Text → Option Text → Progress → Progress
unfolding variable_state is_some is_unsafe marker_of or_default
mask prefix name line column default resolved p =
    let selected = or_default resolved default in
    let invalid_value = is_unsafe selected in
    let marker = marker_of prefix (length p.exp.occurrences) in
    record {
      out = p.out ++ marker;
      exp = record p.exp {
        occurrences =
            p.exp.occurrences
            ++ (record {
              name = name;
              line = line;
              column = column;
              has_default = is_some default;
              state = if invalid_value then invalid else variable_state resolved default;
              marker = marker;
              selected = if invalid_value then none else selected;
            }
                ∷ []);
      };
    }

-- The value for a reference: the environment's, the default, the fallback's, or an error.
unfoldable pub choose_fallback :
    Option (Text → Text) → Text → ℕ → Expansion → Result (Text × Expansion) InterpolateError
unfolding note
choose_fallback (some f) name line exp =
    ok (f name, record exp { placeheld = note exp.placeheld name })
choose_fallback none name line exp = err (unset name line)

unfoldable pub choose :
    Text → ℕ → Option Text → Option Text → Expansion → Result (Text × Expansion) InterpolateError
unfolding choose_fallback
choose name line (some v) default exp = ok (v, exp)
choose name line none (some d) exp = ok (d, record exp { defaulted = note exp.defaulted name })
choose name line none none exp = choose_fallback exp.fallback name line exp

unfoldable pub write_value : Text → ℕ → Text → Text × Expansion → Result Progress InterpolateError
unfolding is_structurally_safe
write_value name line out (value, exp) =
    if not (is_structurally_safe value)
    then err (control_character name line)
    else ok (record { out = out ++ value; exp = exp })

unfoldable pub substitute :
    Option Text
    → Text
    → ℕ
    → ℕ
    → Option Text
    → Option Text
    → Progress
    → Result Progress InterpolateError
unfolding mask choose write_value
substitute (some prefix) name line column default resolved p =
    ok (mask prefix name line column default resolved p)
substitute none name line column default resolved p =
    choose name line resolved default p.exp >>= write_value name line p.out

-- A reference, from its closing brace on.
unfoldable pub reference :
    (Text → Option Text) → ℕ → ℕ → Text × Option Text → Progress → Result Progress InterpolateError
unfolding is_valid_name note non_blank substitute
reference lookup line column (name, default) p =
    if is_empty name
    then err (empty_name line)
    else if not (is_valid_name name)
    then err (bad_name name line)
    else substitute p.exp.inspection_prefix name line column default (non_blank (lookup name))
        (record p { exp = record p.exp { referenced = note p.exp.referenced name } })

abbrev pub push : ℕ → Progress → Progress
push c p = record p { out = p.out ++ c ∷ [] }

-- `expand_into`: the loop over the fragment, at the character `offset`, and the loop that reads up
-- to the closing brace of a reference that starts at `start`.
unfoldable mutual
  unfolding name_and_default reference

  pub expand_from :
      (Text → Option Text) → ℕ → ℕ → Text → Progress → Result Progress InterpolateError
  expand_from lookup line offset [] p = ok p
  expand_from lookup line offset (c ∷ []) p = ok (push c p)
  expand_from lookup line offset (c ∷ (d ∷ rest)) p = elim (c == b'$') [
    | false ↦ expand_from lookup line (suc offset) (d ∷ rest) (push c p)
    | true ↦ elim (d == b'$') [
      | true ↦ expand_from lookup line (suc (suc offset)) rest (push b'$' p)
      | false ↦ elim (d == b'{') [
        | true ↦ expand_body lookup line offset (suc (suc offset)) [] rest p
        | false ↦ expand_from lookup line (suc offset) (d ∷ rest) (push b'$' p)
      ]
    ]
  ]

  pub expand_body :
      (Text → Option Text) → ℕ → ℕ → ℕ → Text → Text → Progress → Result Progress InterpolateError
  expand_body lookup line start offset body [] p = err (unterminated line)
  expand_body lookup line start offset body (c ∷ rest) p = elim (c == b'}') [
    | false ↦ expand_body lookup line start (suc offset) (body ++ c ∷ []) rest p
    | true ↦ reference lookup line (suc start) (name_and_default body) p >>= λ q.
        expand_from lookup line (suc offset) rest q
  ]

unfoldable pub expand_into :
    (Text → Option Text) → Text → ℕ → Progress → Result Progress InterpolateError
unfolding expand_from
expand_into lookup fragment line p = expand_from lookup line 0 fragment p
