-- ===== src/Retry/Tests.antt =====
-- Requests at the policy of the tests in retry.rs, with the theorems applied to them.
use lagos.Prelude.{◌≡◌, ◌≤◌, refl, Bool, true, false, some, [], ◌∷◌, arith}
use lagos.Text.{codes, eq_ignore_ascii_case}
use lagos.Retry.{Policy, connection_failure, transport_error, from_config, Ctx, is_idempotent}
use lagos.Retry.Attempts.{Attempts, no_connection, handle, repeats, repeats_bounded}

abbrev policy : Policy
policy = record { attempts = 2; on_connect = true; on_transport = true; non_idempotent = false }

policy-from_config :
    from_config (record {
      attempts = 2;
      on = connection_failure ∷ transport_error ∷ [];
      non_idempotent = false;
    })
    ≡ policy
unfolding from_config
policy-from_config = refl

abbrev post : Ctx
post = record {
  attempts = 0;
  dns_failovers = 0;
  dns_attempts = 0;
  dns_candidates = 0;
  retry = some policy;
  method = codes "POST";
}

put_is_idempotent : is_idempotent (codes "put") ≡ true
unfolding is_idempotent eq_ignore_ascii_case
put_is_idempotent = refl

post_is_not : is_idempotent (codes "POST") ≡ false
unfolding is_idempotent eq_ignore_ascii_case
post_is_not = refl

abbrev keep_mark : Bool → Bool
keep_mark reused = reused

-- The name has two addresses at first, and three from the third attempt on.
abbrev attempts : Attempts
attempts =
    (2, no_connection true false)
    ∷ ((2, no_connection true false)
        ∷ ((3, no_connection true false)
            ∷ ((3, no_connection true false) ∷ ((3, no_connection true false) ∷ []))))

-- Two further addresses and two retries: four repeats, and the fifth failure is final.
four_repeats : repeats keep_mark post attempts ≡ 4
unfolding repeats handle
four_repeats = refl

repeats_bounded_example : repeats keep_mark post attempts ≤ 4
repeats_bounded_example =
    repeats_bounded keep_mark post policy 3 attempts refl (omega arith) (omega arith)
      (omega arith, (omega arith, (omega arith, (omega arith, (omega arith, tt))))) refl refl
