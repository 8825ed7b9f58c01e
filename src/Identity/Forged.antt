-- ===== src/Identity/Forged.antt =====
-- What a client says of its own identity, crates/lagos-core/src/identity.rs.
use lagos.Prelude.{
  ◌≡◌, refl, sym, ap, ◌∙◌, subst, true, false, Option, none, some, List, [], ◌∷◌, ℕ, Result, ok,
  err, ◌>>=◌, bind-eq-ok, result_inj, arith,
}
use lagos.Text.{Text, codes, is_empty, text_eq_iff, to_ascii_lowercase}
use lagos.Binding.{Fields, Identity}
use lagos.Headers.{HeaderPlan, apply_plan}
use lagos.Headers.Plan.{has, values, values-apply_plan}
use lagos.Identity.{
  IdentityTokenConfig, IdentityConfig, IdentityClaims, put_text, put_encoded, apply_claim_headers,
  mint_token, put_token, apply_token, apply, strip_named, keys, strip_token, strip_all,
  describe_caller,
}
use lagos.Identity.Removals.{
  Removes, set-Removes, set-Removes_own, strip-Removes, strip-Removes_own, put_text-Removes,
  put_text-Removes_own, apply_claim_headers-Removes, apply_claim_headers-Removes_own,
  put_encoded-Removes, put_encoded-Removes_own, strip_named-Removes, strip_named-Removes_own,
  strip_token-Removes,
}

-- The headers that say who the caller is.
pub data IdentityHeader (cfg : IdentityConfig) (h : Text) : Type 0 where
  subject : h ≡ cfg.subject_header → is_empty h ≡ false → IdentityHeader cfg h
  issuer : h ≡ cfg.issuer_header → is_empty h ≡ false → IdentityHeader cfg h
  claims : h ≡ cfg.claims_header → is_empty h ≡ false → IdentityHeader cfg h
  mapped : has h (keys cfg.claims) ≡ true → is_empty h ≡ false → IdentityHeader cfg h
  token : (t : IdentityTokenConfig) → cfg.token ≡ some t → h ≡ t.header → IdentityHeader cfg h

module _ (encode_claims : Fields → Option Text) (sign : IdentityClaims → Text → Result Text Text)
    (now : ℕ) (k : Text) where
  put_token-Removes :
      (header : Text) (plan out : HeaderPlan) (minted : Result Text Text)
      → put_token encode_claims sign now header plan minted ≡ ok out
      → Removes k plan
      → Removes k out
  unfolding put_token
  put_token-Removes header plan out (ok t) e h =
      subst (Removes k) (result_inj e) (set-Removes k plan header t h)
  put_token-Removes header plan out (err m) e h = absurd cc

  put_token-Removes_own :
      (header : Text) (plan out : HeaderPlan) (minted : Result Text Text)
      → put_token encode_claims sign now header plan minted ≡ ok out
      → k ≡ to_ascii_lowercase header
      → Removes k out
  unfolding put_token
  put_token-Removes_own header plan out (ok t) e h =
      subst (Removes k) (result_inj e) (set-Removes_own k plan header t h)
  put_token-Removes_own header plan out (err m) e h = absurd cc

  apply_token-Removes :
      (token : Option IdentityTokenConfig) (secret : Option Text) (identity : Identity)
      (plan out : HeaderPlan)
      → apply_token encode_claims sign now token secret identity plan ≡ ok out
      → Removes k plan
      → Removes k out
  unfolding apply_token
  apply_token-Removes none secret identity plan out e h = subst (Removes k) (result_inj e) h
  apply_token-Removes (some t) none identity plan out e h =
      subst (Removes k) (result_inj e) (strip-Removes k plan t.header h)
  apply_token-Removes (some t) (some s) identity plan out e h =
      put_token-Removes t.header plan out (mint_token encode_claims sign now t s identity) e h

  apply_token-Removes_own :
      (t : IdentityTokenConfig) (secret : Option Text) (identity : Identity) (plan out : HeaderPlan)
      → apply_token encode_claims sign now (some t) secret identity plan ≡ ok out
      → k ≡ to_ascii_lowercase t.header
      → Removes k out
  unfolding apply_token
  apply_token-Removes_own t none identity plan out e h =
      subst (Removes k) (result_inj e) (strip-Removes_own k plan t.header h)
  apply_token-Removes_own t (some s) identity plan out e h =
      put_token-Removes_own t.header plan out (mint_token encode_claims sign now t s identity) e h

module _ (encode_claims : Fields → Option Text)
    (encodes : (claims : Fields) → (json : Text) × (encode_claims claims ≡ some json))
    (sign : IdentityClaims → Text → Result Text Text) (now : ℕ) where
  apply-Removes :
      (plan out : HeaderPlan) (cfg : IdentityConfig) (secret : Option Text) (identity : Identity)
      (h : Text)
      → apply encode_claims sign now plan cfg secret identity ≡ ok out
      → IdentityHeader cfg h
      → Removes (to_ascii_lowercase h) out
  unfolding apply
  apply-Removes plan out cfg secret identity h e kind =
      let k = to_ascii_lowercase h in
      let named = λ (p : HeaderPlan). put_text (codes "iss") cfg.issuer_header identity.issuer p in
      let encoded =
        λ (p : HeaderPlan). put_encoded cfg.claims_header (encode_claims identity.claims) p in
      let c =
        bind-eq-ok
          (put_text (codes "sub") cfg.subject_header identity.subject plan
            >>= named
            >>= (λ p. apply_claim_headers identity cfg.claims (encoded p)))
          (λ p. apply_token encode_claims sign now cfg.token secret identity p) e in
      let b =
        bind-eq-ok (put_text (codes "sub") cfg.subject_header identity.subject plan >>= named)
          (λ p. apply_claim_headers identity cfg.claims (encoded p)) c.1 in
      let a =
        bind-eq-ok (put_text (codes "sub") cfg.subject_header identity.subject plan) named b.1 in
      let last =
        apply_token-Removes encode_claims sign now k cfg.token secret identity c.0 out c.2 in
      let middle = λ (m : Removes k (encoded b.0)).
        last (apply_claim_headers-Removes k identity cfg.claims (encoded b.0) c.0 b.2 m) in
      let first = λ (m : Removes k b.0).
        middle (put_encoded-Removes k cfg.claims_header (encode_claims identity.claims) b.0 m) in
      elim kind [
        | IdentityHeader.subject same full ↦ first (
            put_text-Removes k (codes "iss") cfg.issuer_header identity.issuer a.0 b.0 a.2 (
              put_text-Removes_own k (codes "sub") cfg.subject_header identity.subject plan a.0 a.1
                (ap is_empty (sym same) ∙ full) (ap to_ascii_lowercase same)))
        | IdentityHeader.issuer same full ↦ first (
            put_text-Removes_own k (codes "iss") cfg.issuer_header identity.issuer a.0 b.0 a.2
              (ap is_empty (sym same) ∙ full) (ap to_ascii_lowercase same))
        | IdentityHeader.claims same full ↦ middle (
            rw (encodes identity.claims).1 (
              put_encoded-Removes_own k cfg.claims_header (encodes identity.claims).0 b.0
                (ap is_empty (sym same) ∙ full) (ap to_ascii_lowercase same)))
        | IdentityHeader.mapped m full ↦ last (
            apply_claim_headers-Removes_own k identity cfg.claims (encoded b.0) c.0 h b.2 m full
              refl)
        | IdentityHeader.token t some_t same ↦
            apply_token-Removes_own encode_claims sign now k t secret identity c.0 out
              (subst
                (λ token. apply_token encode_claims sign now token secret identity c.0 ≡ ok out)
                some_t c.2)
              (ap to_ascii_lowercase same)
      ]

strip_all-Removes :
    (plan : HeaderPlan) (cfg : IdentityConfig) (h : Text)
    → IdentityHeader cfg h
    → Removes (to_ascii_lowercase h) (strip_all plan cfg)
unfolding strip_all strip_token has
strip_all-Removes plan cfg h kind =
    let k = to_ascii_lowercase h in
    let fixed : List Text = cfg.subject_header ∷ (cfg.issuer_header ∷ (cfg.claims_header ∷ [])) in
    let last = λ (p : HeaderPlan) (m : Removes k p). strip_token-Removes k cfg.token p m in
    let plain = λ (m : has h fixed ≡ true) (full : is_empty h ≡ false).
      last (strip_named (keys cfg.claims) (strip_named fixed plan)) (
        strip_named-Removes k (keys cfg.claims) (strip_named fixed plan)
          (strip_named-Removes_own k fixed plan h m full refl)) in
    elim kind [
      | IdentityHeader.subject same full ↦
          plain (ground (arith, text_eq_iff cfg.subject_header h)) full
      | IdentityHeader.issuer same full ↦
          plain (ground (arith, text_eq_iff cfg.issuer_header h)) full
      | IdentityHeader.claims same full ↦
          plain (ground (arith, text_eq_iff cfg.claims_header h)) full
      | IdentityHeader.mapped m full ↦
          last (strip_named (keys cfg.claims) (strip_named fixed plan))
            (strip_named-Removes_own k (keys cfg.claims) (strip_named fixed plan) h m full refl)
      | IdentityHeader.token t some_t same ↦
          subst
            (λ token.
              Removes k
                (strip_token token (strip_named (keys cfg.claims) (strip_named fixed plan))))
            (sym some_t)
            (strip-Removes_own k (strip_named (keys cfg.claims) (strip_named fixed plan)) t.header
              (ap to_ascii_lowercase same))
    ]

describe_caller-Removes :
    (encode_claims : Fields → Option Text)
    (encodes : (claims : Fields) → (json : Text) × (encode_claims claims ≡ some json))
    (sign : IdentityClaims → Text → Result Text Text) (now : ℕ) (plan out : HeaderPlan)
    (cfg : IdentityConfig) (secret : Option Text) (caller : Option Identity) (h : Text)
    → describe_caller encode_claims sign now plan cfg secret caller ≡ ok out
    → IdentityHeader cfg h
    → Removes (to_ascii_lowercase h) out
unfolding describe_caller
describe_caller-Removes encode_claims encodes sign now plan out cfg secret none h e kind =
    subst (Removes (to_ascii_lowercase h)) (result_inj e) (strip_all-Removes plan cfg h kind)
describe_caller-Removes encode_claims encodes sign now plan out cfg secret (some caller) h e kind =
    apply-Removes encode_claims encodes sign now plan out cfg secret caller h e kind

-- Nothing that a client sends says who the caller is: on a described request, with or without a
-- verified caller, what the upstream reads in an identity header is what it would read if the client
-- had sent no headers at all. Claims are assumed to have an encoding as JSON.
pub forged_identity_ignored :
    (encode_claims : Fields → Option Text)
    (encodes : (claims : Fields) → (json : Text) × (encode_claims claims ≡ some json))
    (sign : IdentityClaims → Text → Result Text Text) (now : ℕ) (plan out : HeaderPlan)
    (cfg : IdentityConfig) (secret : Option Text) (caller : Option Identity) (h : Text)
    (headers : List (Text × Text))
    → describe_caller encode_claims sign now plan cfg secret caller ≡ ok out
    → IdentityHeader cfg h
    → values (to_ascii_lowercase h) (apply_plan out headers)
      ≡ values (to_ascii_lowercase h) (apply_plan out [])
forged_identity_ignored encode_claims encodes sign now plan out cfg secret caller h headers e kind =
    let k = to_ascii_lowercase h in
    let removed =
      describe_caller-Removes encode_claims encodes sign now plan out cfg secret caller h e kind in
    rw (values-apply_plan k out headers, values-apply_plan k out [], removed) refl
