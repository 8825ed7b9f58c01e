-- ===== src/Cache/Policy.antt =====
-- What may be shared from the cache, and under which key, crates/lagos-core/src/cache/policy.rs.
-- The parsers of http and of pingora-cache are parameters: `header_name` is
-- `HeaderName::from_bytes(_).ok()`, and `CacheControl` holds what is asked of that type. The values of a
-- field are given in their order, `none` where `to_str` fails.
use lagos.Prelude.{
  ℕ, zero, suc, ◌+◌, ◌/◌, ◌%◌, ◌==◌, ltb, if◌then◌else◌, Bool, true, false, not, ◌&&◌, ◌||◌, Option,
  none, some, List, [], ◌∷◌, ◌++◌, any, length,
}
use lagos.Text.{Text, codes, is_empty, split, trim, text_eq}
use lagos.Headers.{HeaderPlan}

abbrev pub Bytes : Type 0
Bytes = List ℕ

pub record CacheControl : Type 0 where
  pub private : Bool
  pub no_store : Bool
  pub allow_caching_authorized_req : Bool

-- The order of `str`.
unfoldable pub text_lt : Text → Text → Bool
text_lt [] [] = false
text_lt [] (y ∷ ys) = true
text_lt (x ∷ xs) [] = false
text_lt (x ∷ xs) (y ∷ ys) = ltb x y || x == y && text_lt xs ys

-- `BTreeSet::insert`
unfoldable pub insert_name : List Text → Text → List Text
unfolding text_lt text_eq
insert_name [] name = name ∷ []
insert_name (n ∷ names) name =
    let more = insert_name names name in
    if text_eq n name then n ∷ names else if text_lt name n then name ∷ (n ∷ names) else n ∷ more

unfoldable pub add_name : Option Text → List Text → Option (List Text)
unfolding insert_name
add_name none fields = none
add_name (some name) fields = some (insert_name fields name)

module _ (header_name : Text → Option Text) where
  unfoldable pub vary_name : Text → List Text → Option (List Text)
  unfolding add_name
  vary_name name fields =
      if is_empty name
      then some fields
      else if text_eq name (codes "*")
      then none
      else add_name (header_name name) fields

  unfoldable pub vary_parts : List Text → List Text → Option (List Text)
  unfolding vary_name
  vary_parts [] fields = some fields
  vary_parts (part ∷ parts) fields = elim (vary_name (trim part) fields) [
    | none ↦ none
    | some more ↦ vary_parts parts more
  ]

  unfoldable pub vary_values : List (Option Text) → List Text → Option (List Text)
  unfolding vary_parts
  vary_values [] fields = some fields
  vary_values (none ∷ values) fields = none
  vary_values (some value ∷ values) fields = elim (vary_parts (split b',' value) fields) [
    | none ↦ none
    | some more ↦ vary_values values more
  ]

  unfoldable pub vary_fields : List (Option Text) → Option (List Text)
  unfolding vary_values
  vary_fields values = vary_values values []

unfoldable pub refuses_sharing : Option CacheControl → Bool
refuses_sharing none = false
refuses_sharing (some cc) = cc.private || cc.no_store

unfoldable pub allows_authorized : Option CacheControl → Bool
allows_authorized none = false
allows_authorized (some cc) = cc.allow_caching_authorized_req

unfoldable pub is_none {ℓ} : {A : Type ℓ} → Option A → Bool
is_none none = true
is_none (some a) = false

-- `eligible`, on a response with the `Vary` values and the cache control given.
unfoldable pub eligible :
    (Text → Option Text) → Bool → List (Option Text) → Option CacheControl → Bool → Bool
unfolding vary_fields refuses_sharing allows_authorized is_none
eligible header_name sets_cookie vary cc authorized =
    if sets_cookie || is_none (vary_fields header_name vary)
    then false
    else if refuses_sharing cc
    then false
    else not authorized || allows_authorized cc

-- `n.to_be_bytes()`, in so many bytes.
unfoldable pub to_be_bytes : ℕ → ℕ → Bytes
to_be_bytes zero n = []
to_be_bytes (suc k) n = to_be_bytes k (n / 256) ++ n % 256 ∷ []

-- `frame`, with what was written before in front.
unfoldable pub frame : Bytes → Bytes → Bytes
unfolding to_be_bytes
frame out value = out ++ (to_be_bytes 8 (length value) ++ value)

unfoldable pub frame_all : Bytes → List Bytes → Bytes
unfolding frame
frame_all out [] = out
frame_all out (value ∷ values) = frame_all (frame out value) values

-- The bytes of a text in UTF-8.
abbrev pub utf8_char : ℕ → Bytes → Bytes
utf8_char c rest =
    if ltb c 0x80
    then c ∷ rest
    else if ltb c 0x800
    then (0xc0 + c / 64) ∷ ((0x80 + c % 64) ∷ rest)
    else if ltb c 0x10000
    then (0xe0 + c / 4096) ∷ ((0x80 + c / 64 % 64) ∷ ((0x80 + c % 64) ∷ rest))
    else (0xf0 + c / 262144)
      ∷ ((0x80 + c / 4096 % 64) ∷ ((0x80 + c / 64 % 64) ∷ ((0x80 + c % 64) ∷ rest)))

unfoldable pub as_bytes : Text → Bytes
as_bytes [] = []
as_bytes (c ∷ cs) = utf8_char c (as_bytes cs)

unfoldable pub all_bytes : List Text → List Bytes
unfolding as_bytes
all_bytes [] = []
all_bytes (t ∷ ts) = as_bytes t ∷ all_bytes ts

-- The primary key of `key`.
unfoldable pub primary_key : List Text → Bytes
unfolding frame_all all_bytes
primary_key parts = frame_all [] (all_bytes parts)

-- `plan.additions().find(|(n, _)| n == &name)`
unfoldable pub find_addition : List (Text × Text) → Text → Option Text
unfolding text_eq
find_addition [] name = none
find_addition ((n, value) ∷ more) name =
    let found = find_addition more name in if text_eq n name then some value else found

-- What the upstream sees of a field: `values` are those of the request, as bytes.
unfoldable pub seen_bytes : HeaderPlan → Text → Bool → List Bytes → Option Text → Bytes
unfolding frame frame_all as_bytes
seen_bytes plan name forwardable values (some value) = frame [] (as_bytes value)
seen_bytes plan name forwardable values none =
    if not (any (λ n. text_eq n name) plan.remove) && forwardable then frame_all [] values else []

unfoldable pub variance_bytes :
    List Text → HeaderPlan → (Text → Bool) → (Text → List Bytes) → List (Text × Bytes)
unfolding seen_bytes find_addition
variance_bytes [] plan forwardable request = []
variance_bytes (name ∷ names) plan forwardable request =
    (name, seen_bytes plan name (forwardable name) (request name) (find_addition plan.set name))
    ∷ variance_bytes names plan forwardable request

unfoldable pub finalize_option :
    {H : Type 0} → (List (Text × Bytes) → Option H) → Option (List (Text × Bytes)) → Option H
finalize_option finalize none = none
finalize_option finalize (some pairs) = finalize pairs

unfoldable pub variance_pairs :
    Option (List Text)
    → HeaderPlan
    → (Text → Bool)
    → (Text → List Bytes)
    → Option (List (Text × Bytes))
unfolding variance_bytes
variance_pairs none plan forwardable request = none
variance_pairs (some names) plan forwardable request =
    some (variance_bytes names plan forwardable request)

-- `variance`, where `finalize` is the builder of pingora-cache on what it was given.
unfoldable pub variance :
    {H : Type 0}
    → (Text → Option Text)
    → (List (Text × Bytes) → Option H)
    → List (Option Text)
    → HeaderPlan
    → (Text → Bool)
    → (Text → List Bytes)
    → Option H
unfolding vary_fields variance_pairs finalize_option
variance header_name finalize vary plan forwardable request =
    finalize_option finalize
      (variance_pairs (vary_fields header_name vary) plan forwardable request)
