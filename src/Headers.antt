-- ===== src/Headers.antt =====
-- Outbound header construction, crates/lagos-core/src/headers.rs.
-- Header maps are the crate http's: a function here takes what the code reads from one, the values
-- of a field in their order, `none` where `to_str` fails.
pub mod Plan
pub mod Forwarded
mod Tests
use lagos.Prelude.{
  ℕ, zero, suc, ◌+◌, ◌-◌, ◌==◌, leb, ltb, if◌then◌else◌, Bool, true, false, not, ◌&&◌, ◌||◌, Option,
  none, some, List, [], ◌∷◌, ◌++◌, map, any, all, length, drop, saturating_add, u64_max,
}
use lagos.Text.{
  Text, codes, contains_text, is_empty, split, join, trim, starts_with, text_eq, to_ascii_lowercase,
}

-- `set` keeps its order; `remove` is a set, and is read only by membership.
pub record HeaderPlan : Type 0 where
  pub set : List (Text × Text)
  pub remove : List Text

unfoldable pub new : HeaderPlan
new = record { set = []; remove = [] }

-- `self.set.retain(|(n, _)| *n != name)`
unfoldable pub retain_others : Text → List (Text × Text) → List (Text × Text)
retain_others name [] = []
retain_others name ((n, v) ∷ rest) =
    let kept = retain_others name rest in if text_eq n name then kept else (n, v) ∷ kept

-- `HeaderPlan::set`
unfoldable pub set_header : HeaderPlan → Text → Text → HeaderPlan
set_header plan name value =
    let name = to_ascii_lowercase name in
    record { set = retain_others name plan.set ++ (name, value) ∷ []; remove = name ∷ plan.remove }

-- `HeaderPlan::strip`
unfoldable pub strip : HeaderPlan → Text → HeaderPlan
strip plan name = record plan { remove = to_ascii_lowercase name ∷ plan.remove }

-- What `upstream_request_filter` of proxy.rs does with a plan, to the header lines of a request in
-- lower case: every removal, then every addition by `insert_header`, which replaces.
unfoldable pub remove_header : Text → List (Text × Text) → List (Text × Text)
remove_header name headers = retain_others name headers

unfoldable pub apply_removals : List Text → List (Text × Text) → List (Text × Text)
apply_removals [] headers = headers
apply_removals (name ∷ names) headers = apply_removals names (remove_header name headers)

unfoldable pub apply_additions : List (Text × Text) → List (Text × Text) → List (Text × Text)
apply_additions [] headers = headers
apply_additions ((name, value) ∷ more) headers =
    apply_additions more (retain_others name headers ++ (name, value) ∷ [])

unfoldable pub apply_plan : HeaderPlan → List (Text × Text) → List (Text × Text)
unfolding apply_removals apply_additions
apply_plan plan headers = apply_additions plan.set (apply_removals plan.remove headers)

-- The entries of the chain, without their white space.
unfoldable pub chain_entries : Option Text → List Text
chain_entries none = []
chain_entries (some value) = map trim (split b',' value)

-- `trusted_suffix`. `is_ip` is `entry.parse::<IpAddr>().is_ok()`.
trusted_entries : (Text → Bool) → List Text → Text → ℕ → List Text
trusted_entries is_ip entries peer trusted_proxies =
    let suffix = drop (length entries - trusted_proxies) entries in
    if trusted_proxies == 0 || ltb (length entries) trusted_proxies
    then peer ∷ []
    else if not (all is_ip suffix)
    then peer ∷ []
    else suffix ++ peer ∷ []

unfoldable pub trusted_suffix : (Text → Bool) → Option Text → Option Text → ℕ → List Text
unfolding trusted_entries
trusted_suffix is_ip forwarded_for none trusted_proxies = []
trusted_suffix is_ip forwarded_for (some peer) trusted_proxies =
    trusted_entries is_ip (chain_entries forwarded_for) peer trusted_proxies

abbrev pub first : List Text → Option Text
first [] = none
first (s ∷ _) = some s

unfoldable pub client_address : (Text → Bool) → Option Text → Option Text → ℕ → Option Text
client_address is_ip forwarded_for peer trusted_proxies =
    first (trusted_suffix is_ip forwarded_for peer trusted_proxies)

-- `values` of the field, or `none` if one of them is no text.
unfoldable pub collect_texts : List (Option Text) → Option (List Text)
collect_texts [] = some []
collect_texts (none ∷ rest) = none
collect_texts (some v ∷ rest) = elim (collect_texts rest) [ none ↦ none | some vs ↦ some (v ∷ vs) ]

unfoldable pub forwarded_for_chain : List (Option Text) → Option Text
unfolding collect_texts
forwarded_for_chain headers = elim (collect_texts headers) [
  | none ↦ none
  | some values ↦ if is_empty values then none else some (join (codes ", ") values)
]

unfoldable pub forwarded_for :
    (Text → Bool) → List (Option Text) → Option Text → ℕ → Option Text × Option Text
forwarded_for is_ip client_headers peer trusted_proxies =
    let prior = if ltb 0 trusted_proxies then forwarded_for_chain client_headers else none in
    let chain = trusted_suffix is_ip prior peer trusted_proxies in
    (if is_empty chain then none else some (join (codes ", ") chain), first chain)

-- `content_length_over_limit`: the field, if it is there as a text, and its reading as a u64.
unfoldable pub content_length_over_limit : (Text → Option ℕ) → Option Text → ℕ → Bool
content_length_over_limit parse_u64 none max = false
content_length_over_limit parse_u64 (some raw) max = elim (parse_u64 raw) [
  | none ↦ true
  | some n ↦ ltb max n
]

unfoldable pub add_body_chunk : ℕ → ℕ → ℕ → Option ℕ
add_body_chunk already chunk_len max =
    let next = saturating_add u64_max already chunk_len in if leb next max then some next else none

unfoldable pub is_upload_content_type : Option Text → Bool
is_upload_content_type content_type =
    let v = to_ascii_lowercase (elim content_type [ none ↦ [] | some t ↦ t ]) in
    contains_text v (codes "multipart/")
    || contains_text v (codes "application/octet-stream")
    || starts_with v (codes "image/")
    || starts_with v (codes "application/pdf")
    || starts_with v (codes "video/")
    || starts_with v (codes "audio/")
