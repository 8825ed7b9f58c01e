-- ===== src/Identity/Blame.antt =====
-- Whose fault a failed description is, crates/lagos-core/src/identity.rs.
use lagos.Prelude.{
  ◌≡◌, refl, true, false, Bool-cases, inl, inr, Option, none, some, List, [], ◌∷◌, ℕ, Result, ok,
  err, ◌>>=◌,
}
use lagos.Text.{Text, codes, is_empty}
use lagos.Binding.{Value, Fields, Identity, claim_at}
use lagos.Headers.{HeaderPlan, strip}
use lagos.Identity.{
  ClaimMapping, IdentityTokenConfig, IdentityConfig, IdentityError, IdentityClaims, is_header_safe,
  put_text, put_encoded, render, put_rendered, put_claim, claim_header, apply_claim_headers,
  mint_token, put_token, apply_token, apply, describe_caller, unrepresentable,
}

-- The error is about a claim.
IsClaim : {T : Type 0} → Result T IdentityError → Type 0
IsClaim (ok t) = Unit
IsClaim (err (IdentityError.claim m)) = Unit
IsClaim (err (IdentityError.mint m)) = ⊥

bind-IsClaim :
    {T U : Type 0} (r : Result T IdentityError) (next : T → Result U IdentityError)
    → IsClaim r
    → ((t : T) → IsClaim (next t))
    → IsClaim (r >>= next)
unfolding IsClaim
bind-IsClaim (ok t) next r n = n t
bind-IsClaim (err (IdentityError.claim m)) next r n = tt
bind-IsClaim (err (IdentityError.mint m)) next r n = r

put_text-IsClaim :
    (name header value : Text) (plan : HeaderPlan) → IsClaim (put_text name header value plan)
unfolding put_text IsClaim unrepresentable
put_text-IsClaim name header value plan = elim (Bool-cases (is_empty header)) [
  | inl empty ↦ rw empty tt
  | inr full ↦
      rw full (elim (Bool-cases (is_header_safe value)) [
        | inl safe ↦ rw safe tt
        | inr other ↦ rw other tt
      ])
]

render-IsClaim :
    (header : Text) (mapping : ClaimMapping) (value : Value) → IsClaim (render header mapping value)
unfolding render IsClaim
render-IsClaim header mapping Value.null = tt
render-IsClaim header mapping (Value.boolean true) = tt
render-IsClaim header mapping (Value.boolean false) = tt
render-IsClaim header mapping (Value.number n) = tt
render-IsClaim header mapping (Value.string v) = tt
render-IsClaim header mapping (Value.array items) = tt
render-IsClaim header mapping (Value.object fields) = tt

put_rendered-IsClaim :
    (header : Text) (mapping : ClaimMapping) (plan : HeaderPlan) (rendered : Option Text)
    → IsClaim (put_rendered header mapping plan rendered)
unfolding put_rendered IsClaim
put_rendered-IsClaim header mapping plan none = tt
put_rendered-IsClaim header mapping plan (some r) = elim (Bool-cases (is_header_safe r)) [
  | inl safe ↦ rw safe tt
  | inr other ↦ rw other tt
]

put_claim-IsClaim :
    (header : Text) (mapping : ClaimMapping) (plan : HeaderPlan) (value : Option Value)
    → IsClaim (put_claim header mapping plan value)
unfolding put_claim IsClaim
put_claim-IsClaim header mapping plan none = tt
put_claim-IsClaim header mapping plan (some v) =
    bind-IsClaim (render header mapping v) (λ r. put_rendered header mapping plan r)
      (render-IsClaim header mapping v) (λ r. put_rendered-IsClaim header mapping plan r)

apply_claim_headers-IsClaim :
    (identity : Identity) (claims : List (Text × ClaimMapping)) (plan : HeaderPlan)
    → IsClaim (apply_claim_headers identity claims plan)
unfolding apply_claim_headers claim_header IsClaim
apply_claim_headers-IsClaim identity [] plan = tt
apply_claim_headers-IsClaim identity ((header, mapping) ∷ more) plan =
    bind-IsClaim (claim_header identity header mapping plan)
      (λ p. apply_claim_headers identity more p)
      (elim (Bool-cases (is_empty header)) [
        | inl empty ↦ rw empty tt
        | inr full ↦
            rw full (
              put_claim-IsClaim header mapping (strip plan header)
                (claim_at identity mapping.claim))
      ])
      (λ p. apply_claim_headers-IsClaim identity more p)

-- A failure after claims alone that is about signing comes from the last stage.
last_mints :
    {T U : Type 0} (r : Result T IdentityError) (next : T → Result U IdentityError) (m : Text)
    → IsClaim r
    → r >>= next ≡ err (IdentityError.mint m)
    → (t : T) × (next t ≡ err (IdentityError.mint m))
unfolding IsClaim
last_mints (ok t) next m c e = (t, e)
last_mints (err (IdentityError.claim x)) next m c e = absurd cc
last_mints (err (IdentityError.mint x)) next m c e = absurd c

module _ (encode_claims : Fields → Option Text) (sign : IdentityClaims → Text → Result Text Text)
    (now : ℕ) where
  -- Some configured secret does not sign.
  abbrev pub Unsigned : IdentityConfig → Option Text → Identity → Text → Type 0
  Unsigned cfg secret identity m =
      (t : IdentityTokenConfig) × (s : Text) × (cfg.token ≡ some t)
      × (secret ≡ some s)
      × (mint_token encode_claims sign now t s identity ≡ err m)

  unsigned :
      (header : Text) (plan : HeaderPlan) (minted : Result Text Text) (m : Text)
      → put_token encode_claims sign now header plan minted ≡ err (IdentityError.mint m)
      → minted ≡ err m
  unfolding put_token
  unsigned header plan (ok t) m e = absurd cc
  unsigned header plan (err x) m e = cc

  token_mints :
      (token : Option IdentityTokenConfig) (secret : Option Text) (identity : Identity)
      (plan : HeaderPlan) (m : Text)
      → apply_token encode_claims sign now token secret identity plan ≡ err (IdentityError.mint m)
      → (t : IdentityTokenConfig) × (s : Text) × (token ≡ some t)
        × (secret ≡ some s)
        × (mint_token encode_claims sign now t s identity ≡ err m)
  unfolding apply_token put_token
  token_mints none secret identity plan m e = absurd cc
  token_mints (some t) none identity plan m e = absurd cc
  token_mints (some t) (some s) identity plan m e = (
    t,
    s,
    refl,
    refl,
    unsigned t.header plan (mint_token encode_claims sign now t s identity) m e,
  )

  -- A failure to sign is reported only for a verified caller, where a token and its secret are
  -- configured, and with the signer's own error: no claim of a caller, whatever it holds, is answered as
  -- a fault of the gateway.
  pub mint_error_is_ours :
      (plan : HeaderPlan) (cfg : IdentityConfig) (secret : Option Text) (caller : Option Identity)
      (m : Text)
      → describe_caller encode_claims sign now plan cfg secret caller ≡ err (IdentityError.mint m)
      → (identity : Identity) × (caller ≡ some identity) × Unsigned cfg secret identity m
  unfolding describe_caller apply
  mint_error_is_ours plan cfg secret none m e = absurd cc
  mint_error_is_ours plan cfg secret (some identity) m e =
      let subject = put_text (codes "sub") cfg.subject_header identity.subject plan in
      let issuer = λ (p : HeaderPlan). put_text (codes "iss") cfg.issuer_header identity.issuer p in
      let encoded =
        λ (p : HeaderPlan). put_encoded cfg.claims_header (encode_claims identity.claims) p in
      let mapped = λ (p : HeaderPlan). apply_claim_headers identity cfg.claims (encoded p) in
      let token =
        λ (p : HeaderPlan). apply_token encode_claims sign now cfg.token secret identity p in
      let named =
        bind-IsClaim subject issuer
          (put_text-IsClaim (codes "sub") cfg.subject_header identity.subject plan)
          (λ p. put_text-IsClaim (codes "iss") cfg.issuer_header identity.issuer p) in
      let described =
        bind-IsClaim (subject >>= issuer) mapped named
          (λ p. apply_claim_headers-IsClaim identity cfg.claims (encoded p)) in
      let last = last_mints (subject >>= issuer >>= mapped) token m described e in
      (identity, refl, token_mints cfg.token secret identity last.0 m last.1)
