-- ===== src/Identity/Safe.antt =====
-- The values that identity headers are given, and the errors, crates/lagos-core/src/identity.rs.
use lagos.Prelude.{
  ◌≡◌, refl, subst, if◌then◌else◌, Bool, true, false, Bool-cases, Option-cases, inl, inr, Option,
  none, some, List, [], ◌∷◌, ◌++◌, ℕ, All, Result, ok, err, ◌>>=◌, bind-eq-ok, result_inj, arith,
}
use lagos.Text.{Text, codes, is_empty, text_eq, to_ascii_lowercase}
use lagos.Binding.{Value, Fields, Identity, claim_at}
use lagos.Headers.{HeaderPlan, set_header, strip, retain_others}
use lagos.Identity.{
  ClaimMapping, IdentityTokenConfig, IdentityConfig, IdentityClaims, is_header_safe, put_text,
  put_encoded, render, put_rendered, put_claim, claim_header, apply_claim_headers, mint_token,
  put_token, apply_token, apply, strip_named, keys, strip_token, strip_all, describe_caller,
}

abbrev pub IsSafe : Text → Type 0
IsSafe value = is_header_safe value ≡ true

-- Every addition has a value that fits in a header: no line end, for one.
abbrev pub SetsSafe : HeaderPlan → Type 0
SetsSafe plan = All (λ (a : Text × Text). IsSafe a.1) plan.set

retain-Safe :
    (name : Text) (xs : List (Text × Text))
    → All (λ (a : Text × Text). IsSafe a.1) xs
    → All (λ (a : Text × Text). IsSafe a.1) (retain_others name xs)
unfolding retain_others
retain-Safe name [] h = tt
retain-Safe name ((n, v) ∷ xs) (h, hs) = elim (Bool-cases (text_eq n name)) [
  | inl same ↦ rw same (retain-Safe name xs hs)
  | inr other ↦ rw other (h, retain-Safe name xs hs)
]

snoc-Safe :
    (n v : Text) (xs : List (Text × Text))
    → All (λ (a : Text × Text). IsSafe a.1) xs
    → IsSafe v
    → All (λ (a : Text × Text). IsSafe a.1) (xs ++ (n, v) ∷ [])
snoc-Safe n v [] h s = (s, tt)
snoc-Safe n v (x ∷ xs) (h, hs) s = (h, snoc-Safe n v xs hs s)

set-Safe :
    (plan : HeaderPlan) (name value : Text)
    → SetsSafe plan
    → IsSafe value
    → SetsSafe (set_header plan name value)
unfolding set_header
set-Safe plan name value h s =
    snoc-Safe (to_ascii_lowercase name) value (retain_others (to_ascii_lowercase name) plan.set)
      (retain-Safe (to_ascii_lowercase name) plan.set h) s

strip-Safe : (plan : HeaderPlan) (name : Text) → SetsSafe plan → SetsSafe (strip plan name)
unfolding strip
strip-Safe plan name h = h

carried-Safe : (p q : HeaderPlan) → p ≡ q → SetsSafe p → SetsSafe q
carried-Safe p q e h = subst SetsSafe e h

put_text-Safe :
    (name header value : Text) (plan out : HeaderPlan)
    → put_text name header value plan ≡ ok out
    → SetsSafe plan
    → SetsSafe out
unfolding put_text
put_text-Safe name header value plan out e h = elim (Bool-cases (is_empty header)) [
  | inl empty ↦ carried-Safe plan out (ground arith) h
  | inr full ↦
      let safe : IsSafe value = ground arith in
      carried-Safe (set_header plan header value) out (ground arith)
        (set-Safe plan header value h safe)
]

put_rendered-Safe :
    (header : Text) (mapping : ClaimMapping) (plan out : HeaderPlan) (rendered : Option Text)
    → put_rendered header mapping plan rendered ≡ ok out
    → SetsSafe plan
    → SetsSafe out
unfolding put_rendered
put_rendered-Safe header mapping plan out none e h = carried-Safe plan out (ground arith) h
put_rendered-Safe header mapping plan out (some r) e h =
    let safe : IsSafe r = ground arith in
    carried-Safe (set_header plan header r) out (ground arith) (set-Safe plan header r h safe)

put_claim-Safe :
    (header : Text) (mapping : ClaimMapping) (plan out : HeaderPlan) (value : Option Value)
    → put_claim header mapping plan value ≡ ok out
    → SetsSafe plan
    → SetsSafe out
unfolding put_claim
put_claim-Safe header mapping plan out none e h = subst SetsSafe (result_inj e) h
put_claim-Safe header mapping plan out (some v) e h =
    let b = bind-eq-ok (render header mapping v) (λ r. put_rendered header mapping plan r) e in
    put_rendered-Safe header mapping plan out b.0 b.2 h

claim_header-Safe :
    (identity : Identity) (header : Text) (mapping : ClaimMapping) (plan out : HeaderPlan)
    → claim_header identity header mapping plan ≡ ok out
    → SetsSafe plan
    → SetsSafe out
unfolding claim_header
claim_header-Safe identity header mapping plan out e h = elim (Bool-cases (is_empty header)) [
  | inl empty ↦ carried-Safe plan out (ground arith) h
  | inr full ↦
      put_claim-Safe header mapping (strip plan header) out (claim_at identity mapping.claim)
        (ground arith) (strip-Safe plan header h)
]

apply_claim_headers-Safe :
    (identity : Identity) (claims : List (Text × ClaimMapping)) (plan out : HeaderPlan)
    → apply_claim_headers identity claims plan ≡ ok out
    → SetsSafe plan
    → SetsSafe out
unfolding apply_claim_headers
apply_claim_headers-Safe identity [] plan out e h = subst SetsSafe (result_inj e) h
apply_claim_headers-Safe identity ((header, mapping) ∷ more) plan out e h =
    let b =
      bind-eq-ok (claim_header identity header mapping plan)
        (λ p. apply_claim_headers identity more p) e in
    apply_claim_headers-Safe identity more b.0 out b.2
      (claim_header-Safe identity header mapping plan b.0 b.1 h)

either-Safe :
    (plan : HeaderPlan) (n : Text) (b : Bool)
    → SetsSafe plan
    → SetsSafe (if b then plan else strip plan n)
either-Safe plan n true h = h
either-Safe plan n false h = strip-Safe plan n h

strip_named-Safe :
    (names : List Text) (plan : HeaderPlan) → SetsSafe plan → SetsSafe (strip_named names plan)
unfolding strip_named
strip_named-Safe [] plan h = h
strip_named-Safe (n ∷ names) plan h =
    strip_named-Safe names (if is_empty n then plan else strip plan n)
      (either-Safe plan n (is_empty n) h)

strip_token-Safe :
    (token : Option IdentityTokenConfig) (plan : HeaderPlan)
    → SetsSafe plan
    → SetsSafe (strip_token token plan)
unfolding strip_token
strip_token-Safe none plan h = h
strip_token-Safe (some t) plan h = strip-Safe plan t.header h

strip_all-Safe :
    (plan : HeaderPlan) (cfg : IdentityConfig) → SetsSafe plan → SetsSafe (strip_all plan cfg)
unfolding strip_all
strip_all-Safe plan cfg h =
    let fixed : List Text = cfg.subject_header ∷ (cfg.issuer_header ∷ (cfg.claims_header ∷ [])) in
    strip_token-Safe cfg.token (strip_named (keys cfg.claims) (strip_named fixed plan))
      (strip_named-Safe (keys cfg.claims) (strip_named fixed plan) (strip_named-Safe fixed plan h))

module _ (encode_claims : Fields → Option Text)
    (encoded_safe : (claims : Fields) (json : Text)
      → encode_claims claims ≡ some json
      → IsSafe json)
    (sign : IdentityClaims → Text → Result Text Text)
    (signed_safe : (claims : IdentityClaims) (secret token : Text)
      → sign claims secret ≡ ok token
      → IsSafe token)
    (now : ℕ) where
  encoded-Safe :
      (header : Text) (claims : Fields) (plan : HeaderPlan)
      → SetsSafe plan
      → SetsSafe (put_encoded header (encode_claims claims) plan)
  unfolding put_encoded
  encoded-Safe header claims plan h = elim (Option-cases (encode_claims claims)) [
    | inl e ↦ rw e h
    | inr (json, e) ↦ rw e (elim (Bool-cases (is_empty header)) [
      | inl empty ↦ rw empty h
      | inr full ↦ rw full (set-Safe plan header json h (encoded_safe claims json e))
    ])
  ]

  put_token-Safe :
      (header : Text) (plan out : HeaderPlan) (minted : Result Text Text)
      → ((token : Text) → minted ≡ ok token → IsSafe token)
      → put_token encode_claims sign now header plan minted ≡ ok out
      → SetsSafe plan
      → SetsSafe out
  unfolding put_token
  put_token-Safe header plan out (ok t) s e h =
      carried-Safe (set_header plan header t) out (result_inj e)
        (set-Safe plan header t h (s t refl))
  put_token-Safe header plan out (err m) s e h = absurd cc

  apply_token-Safe :
      (token : Option IdentityTokenConfig) (secret : Option Text) (identity : Identity)
      (plan out : HeaderPlan)
      → apply_token encode_claims sign now token secret identity plan ≡ ok out
      → SetsSafe plan
      → SetsSafe out
  unfolding apply_token mint_token
  apply_token-Safe none secret identity plan out e h = carried-Safe plan out (result_inj e) h
  apply_token-Safe (some t) none identity plan out e h =
      carried-Safe (strip plan t.header) out (result_inj e) (strip-Safe plan t.header h)
  apply_token-Safe (some t) (some s) identity plan out e h =
      put_token-Safe t.header plan out (mint_token encode_claims sign now t s identity)
        (λ token m. signed_safe _ s token m) e h

  apply-Safe :
      (plan out : HeaderPlan) (cfg : IdentityConfig) (secret : Option Text) (identity : Identity)
      → apply encode_claims sign now plan cfg secret identity ≡ ok out
      → SetsSafe plan
      → SetsSafe out
  unfolding apply
  apply-Safe plan out cfg secret identity e h =
      let subject = put_text (codes "sub") cfg.subject_header identity.subject plan in
      let issuer = λ (p : HeaderPlan). put_text (codes "iss") cfg.issuer_header identity.issuer p in
      let encoded =
        λ (p : HeaderPlan). put_encoded cfg.claims_header (encode_claims identity.claims) p in
      let mapped = λ (p : HeaderPlan). apply_claim_headers identity cfg.claims (encoded p) in
      let token =
        λ (p : HeaderPlan). apply_token encode_claims sign now cfg.token secret identity p in
      let c = bind-eq-ok (subject >>= issuer >>= mapped) token e in
      let b = bind-eq-ok (subject >>= issuer) mapped c.1 in
      let a = bind-eq-ok subject issuer b.1 in
      apply_token-Safe cfg.token secret identity c.0 out c.2 (
        apply_claim_headers-Safe identity cfg.claims (encoded b.0) c.0 b.2 (
          encoded-Safe cfg.claims_header identity.claims b.0 (
            put_text-Safe (codes "iss") cfg.issuer_header identity.issuer a.0 b.0 a.2
              (put_text-Safe (codes "sub") cfg.subject_header identity.subject plan a.0 a.1 h))))

  -- No claim splits the header block: if the plan sets values of visible characters, blanks and tabs
  -- only, and so do the encoding of the claims and the signer, then so does the plan that describes a
  -- caller, whatever the claims hold.
  pub described_values-IsSafe :
      (plan out : HeaderPlan) (cfg : IdentityConfig) (secret : Option Text)
      (caller : Option Identity)
      → describe_caller encode_claims sign now plan cfg secret caller ≡ ok out
      → SetsSafe plan
      → SetsSafe out
  unfolding describe_caller
  described_values-IsSafe plan out cfg secret none e h =
      carried-Safe (strip_all plan cfg) out (result_inj e) (strip_all-Safe plan cfg h)
  described_values-IsSafe plan out cfg secret (some identity) e h =
      apply-Safe plan out cfg secret identity e h
