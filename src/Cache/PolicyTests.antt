-- ===== src/Cache/PolicyTests.antt =====
-- A response that varies by the language, and keys of a route.
use lagos.Prelude.{
  ◌≡◌, ◌↔◌, refl, Bool, true, false, Option, some, List, [], ◌∷◌, true, false, none, All, arith,
  if◌then◌else◌,
}
use lagos.Text.{Text, codes, text_eq, split, trim}
use lagos.Headers.{HeaderPlan}
use lagos.Cache.Policy.{
  find_addition, eligible, CacheControl, CacheControl, as_bytes, all_bytes, vary_fields, variance,
}
use lagos.Cache.Sharing.{Seen, sent_values, Agree, keys_keep_parts_apart, same_variance_iff}

abbrev parts : List Text
parts = codes "ab" ∷ (codes "é" ∷ [])

keys_keep_parts_apart_example : parts ≡ parts
unfolding as_bytes all_bytes
keys_keep_parts_apart_example =
    keys_keep_parts_apart parts parts ((omega arith, (omega arith, tt)), ((omega arith, tt), tt))
      ((omega arith, (omega arith, tt)), ((omega arith, tt), tt)) (omega arith, (omega arith, tt))
      (omega arith, (omega arith, tt)) refl

abbrev plan : HeaderPlan
plan = record { set = (codes "x-user", codes "7") ∷ []; remove = codes "cookie" ∷ [] }

abbrev vary : List (Option Text)
vary = some (codes "lang, x-user") ∷ []

abbrev pass : Text → Bool
pass name = true

-- Two callers with the same language; the second sends an identity of its own.
abbrev asked : Seen
asked = record {
  plan = plan;
  forwardable = pass;
  request = λ name. if text_eq name (codes "lang") then as_bytes (codes "de") ∷ [] else [];
}

abbrev claimed : Seen
claimed = record {
  plan = record { set = (codes "x-user", codes "8") ∷ []; remove = [] };
  forwardable = pass;
  request = λ name. as_bytes (codes "de") ∷ [];
}

same_variance_iff_example :
    (variance some some vary asked.plan pass asked.request
      ≡ variance some some vary claimed.plan pass claimed.request)
    ↔ All (Agree asked claimed) (codes "lang" ∷ (codes "x-user" ∷ []))
unfolding as_bytes vary_fields text_eq split trim sent_values find_addition
same_variance_iff_example =
    same_variance_iff asked claimed some vary (codes "lang" ∷ (codes "x-user" ∷ [])) refl
      (((omega arith, tt), (omega arith, tt)), (((omega arith, tt), (omega arith, tt)), tt))

abbrev control : Bool → CacheControl
control private = record {
  private = private;
  no_store = false;
  allow_caching_authorized_req = true;
}

allowed : eligible some false vary (some (control false)) true ≡ true
unfolding eligible vary_fields split trim
allowed = refl

private_is_refused : eligible some false vary (some (control true)) false ≡ false
unfolding eligible vary_fields split trim
private_is_refused = refl

star_is_refused : eligible some false (some (codes "lang, *") ∷ []) none false ≡ false
unfolding eligible vary_fields split trim
star_is_refused = refl
