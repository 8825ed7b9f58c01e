-- ===== src/Cache/Sharing.antt =====
-- Which requests share an entry of the cache, crates/lagos-core/src/cache/policy.rs.
use lagos.Prelude.{
  if◌then◌else◌, some_inj, not, ◌||◌, ◌≡◌, ◌↔◌, refl, sym, ap, ◌∙◌, Bool, true, false, Bool-cases,
  Option, none, some, List, [], ◌∷◌, any, All, inl, inr,
}
use lagos.Text.{Text, text_eq}
use lagos.Headers.{HeaderPlan}
use lagos.Cache.Policy.{
  as_bytes, Bytes, frame_all, all_bytes, primary_key, find_addition, seen_bytes, variance_bytes,
  variance_pairs, variance, finalize_option, vary_fields,
}
use lagos.Cache.Framing.{IsSized, frame_all_inj}
use lagos.Cache.Utf8.{IsChar, all_bytes_inj}

-- Keys made of different parts are different: if the texts `ps` and `qs` are of characters, and the
-- bytes of each are fewer than 2^64, the same primary key means the same parts.
pub keys_keep_parts_apart :
    (ps qs : List Text)
    → All (All IsChar) ps
    → All (All IsChar) qs
    → All IsSized (all_bytes ps)
    → All IsSized (all_bytes qs)
    → primary_key ps ≡ primary_key qs
    → ps ≡ qs
unfolding primary_key
keys_keep_parts_apart ps qs v w p q e =
    all_bytes_inj ps qs v w (frame_all_inj (all_bytes ps) (all_bytes qs) p q e)

-- The values of a field that the upstream is sent, for a request with these values: the one that the
-- plan adds, or the client's, unless the field is removed or not forwarded.
sent_by : Option Text → Bool → List Bytes → List Bytes
sent_by (some added) dropped values = as_bytes added ∷ []
sent_by none dropped values = if dropped then [] else values

unfoldable pub sent_values : HeaderPlan → (Text → Bool) → (Text → List Bytes) → Text → List Bytes
unfolding sent_by
sent_values plan forwardable request name =
    sent_by (find_addition plan.set name)
      (any (λ n. text_eq n name) plan.remove || not (forwardable name)) (request name)

-- A request as the cache sees it: its plan, the fields that are forwarded, and its own values.
pub record Seen : Type 0 where
  pub plan : HeaderPlan
  pub forwardable : Text → Bool
  pub request : Text → List Bytes

abbrev pub sent : Seen → Text → List Bytes
sent r name = sent_values r.plan r.forwardable r.request name

abbrev pub hashed : Seen → List Text → List (Text × Bytes)
hashed r names = variance_bytes names r.plan r.forwardable r.request

sent_by-framed :
    (plan : HeaderPlan) (name : Text) (found : Option Text) (may_pass : Bool) (values : List Bytes)
    → seen_bytes plan name may_pass values found
      ≡ frame_all [] (sent_by found (any (λ n. text_eq n name) plan.remove || not may_pass) values)
unfolding seen_bytes frame_all sent_by
sent_by-framed plan name (some v) may_pass values = refl
sent_by-framed plan name none true values =
    elim (Bool-cases (any (λ n. text_eq n name) plan.remove)) [
      | inl removed ↦ rw removed refl
      | inr kept ↦ rw kept refl
    ]
sent_by-framed plan name none false values =
    elim (Bool-cases (any (λ n. text_eq n name) plan.remove)) [
      | inl removed ↦ rw removed refl
      | inr kept ↦ rw kept refl
    ]

seen_bytes-framed :
    (r : Seen) (name : Text)
    → seen_bytes r.plan name (r.forwardable name) (r.request name) (find_addition r.plan.set name)
      ≡ frame_all [] (sent r name)
unfolding sent_values
seen_bytes-framed r name =
    sent_by-framed r.plan name (find_addition r.plan.set name) (r.forwardable name) (r.request name)

abbrev pub Agree : Seen → Seen → Text → Type 0
Agree r s name = sent r name ≡ sent s name

abbrev pub IsMeasured : Seen → Seen → Text → Type 0
IsMeasured r s name = All IsSized (sent r name) × All IsSized (sent s name)

module _ (r s : Seen) where
  hashed-Agree :
      (names : List Text)
      → All (IsMeasured r s) names
      → hashed r names ≡ hashed s names
      → All (Agree r s) names
  unfolding variance_bytes
  hashed-Agree [] m e = tt
  hashed-Agree (name ∷ names) (m, ms) e =
      let here : seen_bytes r.plan name (r.forwardable name) (r.request name)
            (find_addition r.plan.set name)
          ≡ seen_bytes s.plan name (s.forwardable name) (s.request name)
              (find_addition s.plan.set name) =
        cc in
      (
        frame_all_inj (sent r name) (sent s name) m.0 m.1
            (sym (seen_bytes-framed r name) ∙ here ∙ seen_bytes-framed s name),
        hashed-Agree names ms cc,
      )

  hashed_of_Agree : (names : List Text) → All (Agree r s) names → hashed r names ≡ hashed s names
  unfolding variance_bytes
  hashed_of_Agree [] a = refl
  hashed_of_Agree (name ∷ names) (a, as_rest) =
      let here =
        seen_bytes-framed r name
        ∙ ap (λ (vs : List Bytes). frame_all [] vs) a
        ∙ sym (seen_bytes-framed s name) in
      let rest = hashed_of_Agree names as_rest in cc

  -- For a response whose `Vary` has the fields `names`, what is hashed for two requests is the same
  -- exactly if the upstream is sent the same values of each of these fields: with the additions of
  -- each request's own plan, and less what it removes or does not forward. Each value sent has fewer
  -- than 2^64 bytes.
  pub same_variance_iff :
      (header_name : Text → Option Text) (vary : List (Option Text)) (names : List Text)
      → vary_fields header_name vary ≡ some names
      → All (IsMeasured r s) names
      → (variance header_name some vary r.plan r.forwardable r.request
          ≡ variance header_name some vary s.plan s.forwardable s.request)
        ↔ All (Agree r s) names
  unfolding variance variance_pairs finalize_option
  same_variance_iff header_name vary names e m = rw e (
    λ same. hashed-Agree names m (some_inj same),
    λ agree. ap (λ (pairs : List (Text × Bytes)). some pairs) (hashed_of_Agree names agree),
  )
