-- ===== src/Identity/Tests.antt =====
-- A caller described to an upstream, and the properties at that caller.
use lagos.Prelude.{
  ◌≡◌, refl, sym, ap, Option, none, some, some_inj, [], ◌∷◌, Result, ok, err, result_inj,
}
use lagos.Text.{Text, codes, is_empty, text_eq, to_ascii_lowercase}
use lagos.Binding.{Value, Fields, Identity, claim_at}
use lagos.Headers.{HeaderPlan, set_header, strip, apply_plan}
use lagos.Headers.Plan.{values}
use lagos.Identity.{IdentityConfig, IdentityError, IdentityClaims, is_header_safe, describe_caller}
use lagos.Identity.Forged.{IdentityHeader, forged_identity_ignored}
use lagos.Identity.Safe.{SetsSafe, described_values-IsSafe}
use lagos.Identity.Blame.{Unsigned, mint_error_is_ours}

abbrev caller : Identity
caller = record {
  subject = codes "u1";
  issuer = codes "i";
  audience = codes "shop";
  claims = Fields.field (codes "team") Value.null Fields.end;
}

abbrev cfg : IdentityConfig
cfg = record {
  subject_header = codes "X-User";
  issuer_header = [];
  claims_header = [];
  claims = (codes "x-team", record { claim = codes "team"; when_null = some (codes "none") }) ∷ [];
  token =
      some
        (record { header = codes "x-token"; secret = []; ttl = 60_000_000_000; audience = none });
}

abbrev encode : Fields → Option Text
encode claims = some (codes "e30")

abbrev signed : IdentityClaims → Text → Result Text Text
signed claims secret = ok (codes "jwt")

abbrev broken : IdentityClaims → Text → Result Text Text
broken claims secret = err (codes "bad key")

abbrev empty : HeaderPlan
empty = record { set = []; remove = [] }

abbrev described : HeaderPlan
described = record {
  set =
      (codes "x-user", codes "u1")
      ∷ ((codes "x-team", codes "none") ∷ ((codes "x-token", codes "jwt") ∷ []));
  remove = codes "x-token" ∷ (codes "x-team" ∷ (codes "x-team" ∷ (codes "x-user" ∷ [])));
}

is_described :
    describe_caller encode signed 7 empty cfg (some (codes "k")) (some caller) ≡ ok described
unfolding describe_caller claim_at lagos.Text.split lagos.Binding.get_either lagos.Binding.get
    text_eq lagos.Headers.retain_others to_ascii_lowercase
is_described = refl

forged_identity_ignored_example :
    values (codes "x-user") (apply_plan described ((codes "x-user", codes "admin") ∷ []))
    ≡ values (codes "x-user") (apply_plan described [])
unfolding to_ascii_lowercase
forged_identity_ignored_example =
    forged_identity_ignored encode (λ claims. (codes "e30", refl)) signed 7 empty described cfg
      (some (codes "k")) (some caller) (codes "X-User") ((codes "x-user", codes "admin") ∷ [])
      is_described (IdentityHeader.subject refl refl)

described_values-IsSafe_example : SetsSafe described
unfolding is_header_safe
described_values-IsSafe_example =
    described_values-IsSafe encode (λ claims json e. ap is_header_safe (sym (some_inj e))) signed
      (λ claims secret token e. ap is_header_safe (sym (result_inj e))) 7 empty described cfg
      (some (codes "k")) (some caller) is_described tt

is_broken :
    describe_caller encode broken 7 empty cfg (some (codes "k")) (some caller)
    ≡ err (IdentityError.mint (codes "bad key"))
unfolding describe_caller claim_at lagos.Text.split lagos.Binding.get_either lagos.Binding.get
    text_eq
is_broken = refl

mint_error_is_ours_example :
    (identity : Identity) × (some caller ≡ some identity)
    × Unsigned encode broken 7 cfg (some (codes "k")) identity (codes "bad key")
mint_error_is_ours_example =
    mint_error_is_ours encode broken 7 empty cfg (some (codes "k")) (some caller) (codes "bad key")
      is_broken
