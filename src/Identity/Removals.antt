-- ===== src/Identity/Removals.antt =====
-- Identity headers that a client sends.
use lagos.Prelude.{
  ◌≡◌, sym, ap, ◌∙◌, if◌then◌else◌, true, false, Bool-cases, inl, inr, Option, none, some, List, [],
  ◌∷◌, ok, bind-eq-ok, arith,
}
use lagos.Text.{Text, is_empty, text_eq, text_eq_iff, eq_of_text_eq, to_ascii_lowercase}
use lagos.Binding.{Value, Identity, claim_at}
use lagos.Headers.{HeaderPlan, set_header, strip}
use lagos.Headers.Plan.{has}
use lagos.Identity.{
  ClaimMapping, IdentityTokenConfig, put_text, put_encoded, render, put_rendered, put_claim,
  claim_header, apply_claim_headers, strip_named, keys, strip_token,
}

-- The plan removes what the client sent under the name.
abbrev pub Removes : Text → HeaderPlan → Type 0
Removes k plan = has k plan.remove ≡ true

module _ (k : Text) where
  pub set-Removes :
      (plan : HeaderPlan) (name value : Text)
      → Removes k plan
      → Removes k (set_header plan name value)
  unfolding set_header has
  set-Removes plan name value h = ground arith

  pub strip-Removes :
      (plan : HeaderPlan) (name : Text) → Removes k plan → Removes k (strip plan name)
  unfolding strip has
  strip-Removes plan name h = ground arith

  pub set-Removes_own :
      (plan : HeaderPlan) (name value : Text)
      → k ≡ to_ascii_lowercase name
      → Removes k (set_header plan name value)
  unfolding set_header has
  set-Removes_own plan name value h = ground (arith, text_eq_iff (to_ascii_lowercase name) k)

  pub strip-Removes_own :
      (plan : HeaderPlan) (name : Text) → k ≡ to_ascii_lowercase name → Removes k (strip plan name)
  unfolding strip has
  strip-Removes_own plan name h = ground (arith, text_eq_iff (to_ascii_lowercase name) k)

  pub put_text-Removes :
      (name header value : Text) (plan out : HeaderPlan)
      → put_text name header value plan ≡ ok out
      → Removes k plan
      → Removes k out
  unfolding put_text
  put_text-Removes name header value plan out e h = ground (arith, set-Removes plan header value h)

  pub put_text-Removes_own :
      (name header value : Text) (plan out : HeaderPlan)
      → put_text name header value plan ≡ ok out
      → is_empty header ≡ false
      → k ≡ to_ascii_lowercase header
      → Removes k out
  unfolding put_text
  put_text-Removes_own name header value plan out e n h =
      ground (arith, set-Removes_own plan header value h)

  put_rendered-Removes :
      (header : Text) (mapping : ClaimMapping) (plan out : HeaderPlan) (rendered : Option Text)
      → put_rendered header mapping plan rendered ≡ ok out
      → Removes k plan
      → Removes k out
  unfolding put_rendered
  put_rendered-Removes header mapping plan out none e h = ground arith
  put_rendered-Removes header mapping plan out (some r) e h =
      ground (arith, set-Removes plan header r h)

  put_claim-Removes :
      (header : Text) (mapping : ClaimMapping) (plan out : HeaderPlan) (value : Option Value)
      → put_claim header mapping plan value ≡ ok out
      → Removes k plan
      → Removes k out
  unfolding put_claim
  put_claim-Removes header mapping plan out none e h = ground arith
  put_claim-Removes header mapping plan out (some v) e h =
      let b = bind-eq-ok (render header mapping v) (λ r. put_rendered header mapping plan r) e in
      put_rendered-Removes header mapping plan out b.0 b.2 h

  claim_header-Removes :
      (identity : Identity) (header : Text) (mapping : ClaimMapping) (plan out : HeaderPlan)
      → claim_header identity header mapping plan ≡ ok out
      → Removes k plan
      → Removes k out
  unfolding claim_header
  claim_header-Removes identity header mapping plan out e h = elim (Bool-cases (is_empty header)) [
    | inl empty ↦ ground arith
    | inr full ↦
        put_claim-Removes header mapping (strip plan header) out (claim_at identity mapping.claim)
          (ground arith) (strip-Removes plan header h)
  ]

  claim_header-Removes_own :
      (identity : Identity) (header : Text) (mapping : ClaimMapping) (plan out : HeaderPlan)
      → claim_header identity header mapping plan ≡ ok out
      → is_empty header ≡ false
      → k ≡ to_ascii_lowercase header
      → Removes k out
  unfolding claim_header
  claim_header-Removes_own identity header mapping plan out e full h =
      put_claim-Removes header mapping (strip plan header) out (claim_at identity mapping.claim)
        (ground arith) (strip-Removes_own plan header h)

  pub apply_claim_headers-Removes :
      (identity : Identity) (claims : List (Text × ClaimMapping)) (plan out : HeaderPlan)
      → apply_claim_headers identity claims plan ≡ ok out
      → Removes k plan
      → Removes k out
  unfolding apply_claim_headers
  apply_claim_headers-Removes identity [] plan out e h = ground arith
  apply_claim_headers-Removes identity ((header, mapping) ∷ more) plan out e h =
      let b =
        bind-eq-ok (claim_header identity header mapping plan)
          (λ p. apply_claim_headers identity more p) e in
      apply_claim_headers-Removes identity more b.0 out b.2
        (claim_header-Removes identity header mapping plan b.0 b.1 h)

  pub apply_claim_headers-Removes_own :
      (identity : Identity) (claims : List (Text × ClaimMapping)) (plan out : HeaderPlan) (h : Text)
      → apply_claim_headers identity claims plan ≡ ok out
      → has h (keys claims) ≡ true
      → is_empty h ≡ false
      → k ≡ to_ascii_lowercase h
      → Removes k out
  unfolding apply_claim_headers has
  apply_claim_headers-Removes_own identity [] plan out h e m full l = absurd cc
  apply_claim_headers-Removes_own identity ((header, mapping) ∷ more) plan out h e m full l =
      let b =
        bind-eq-ok (claim_header identity header mapping plan)
          (λ p. apply_claim_headers identity more p) e in
      elim (Bool-cases (text_eq header h)) [
        | inl here ↦
            let same = eq_of_text_eq header h here in
            apply_claim_headers-Removes identity more b.0 out b.2 (
              claim_header-Removes_own identity header mapping plan b.0 b.1
                (ap is_empty same ∙ full) (l ∙ sym (ap to_ascii_lowercase same)))
        | inr there ↦
            apply_claim_headers-Removes_own identity more b.0 out h b.2 (ground arith) full l
      ]

  pub put_encoded-Removes :
      (header : Text) (value : Option Text) (plan : HeaderPlan)
      → Removes k plan
      → Removes k (put_encoded header value plan)
  unfolding put_encoded
  put_encoded-Removes header none plan h = h
  put_encoded-Removes header (some v) plan h = ground (arith, set-Removes plan header v h)

  pub put_encoded-Removes_own :
      (header v : Text) (plan : HeaderPlan)
      → is_empty header ≡ false
      → k ≡ to_ascii_lowercase header
      → Removes k (put_encoded header (some v) plan)
  unfolding put_encoded
  put_encoded-Removes_own header v plan full h = rw full (set-Removes_own plan header v h)

  pub strip_named-Removes :
      (names : List Text) (plan : HeaderPlan) → Removes k plan → Removes k (strip_named names plan)
  unfolding strip_named
  strip_named-Removes [] plan h = h
  strip_named-Removes (n ∷ names) plan h =
      strip_named-Removes names (if is_empty n then plan else strip plan n)
        (ground (arith, strip-Removes plan n h))

  pub strip_named-Removes_own :
      (names : List Text) (plan : HeaderPlan) (h : Text)
      → has h names ≡ true
      → is_empty h ≡ false
      → k ≡ to_ascii_lowercase h
      → Removes k (strip_named names plan)
  unfolding strip_named has
  strip_named-Removes_own [] plan h m full l = absurd cc
  strip_named-Removes_own (n ∷ names) plan h m full l = elim (Bool-cases (text_eq n h)) [
    | inl here ↦
        let same = eq_of_text_eq n h here in
        let own = strip-Removes_own plan n (l ∙ sym (ap to_ascii_lowercase same)) in
        let shown : is_empty n ≡ false = ap is_empty same ∙ full in
        strip_named-Removes names (if is_empty n then plan else strip plan n) (rw shown own)
    | inr there ↦
        strip_named-Removes_own names (if is_empty n then plan else strip plan n) h (ground arith)
          full l
  ]

  pub strip_token-Removes :
      (token : Option IdentityTokenConfig) (plan : HeaderPlan)
      → Removes k plan
      → Removes k (strip_token token plan)
  unfolding strip_token
  strip_token-Removes none plan h = h
  strip_token-Removes (some t) plan h = strip-Removes plan t.header h
