-- ===== src/Breaker/Tests.antt =====
-- Runs of the circuit breaker at the configuration of the tests in breaker.rs, with the theorems
-- applied to them.
use lagos.Prelude.{ℕ, ◌*◌, ◌^◌, ◌≡◌, refl, [], ◌∷◌, map, arith, false}
use lagos.Breaker.{
  CircuitBreakerConfig, CircuitBreaker, closed, open_state, half_open, allow, succeed, fail,
  release, new, perform, run,
}
use lagos.Breaker.Invariant.{IsValidConfig, Inv, new-Inv, reachable-Inv}
use lagos.Breaker.Cooldown.{admitted, open_sheds_load}
use lagos.Breaker.Threshold.{burst_opens_at_threshold}
use lagos.Breaker.Trials.{half_open_closes}

abbrev secs : ℕ → ℕ
secs n = n * 10 ^ 9

abbrev cfg : CircuitBreakerConfig
cfg = record {
  failures = 3;
  window = secs 30;
  cooldown = secs 10;
  successes_to_close = 2;
  max_trials = 1;
}

abbrev fresh : CircuitBreaker
fresh = new cfg 0

cfg_valid : IsValidConfig cfg
cfg_valid = omega arith

abbrev tripped : CircuitBreaker
tripped = run fresh (fail 0 ∷ fail 1 ∷ fail 2 ∷ [])

abbrev probing : CircuitBreaker
probing = run fresh (fail 0 ∷ fail 1 ∷ fail 2 ∷ allow (secs 11) ∷ [])

tripped_open : tripped.inner.state ≡ open_state
unfolding run perform new
tripped_open = refl

start_Inv : Inv (new cfg 0)
start_Inv = new-Inv cfg 0 cfg_valid

reachable-Inv_example : Inv (run (new cfg 0) (fail 0 ∷ allow 4 ∷ succeed ∷ []))
reachable-Inv_example = reachable-Inv cfg 0 (fail 0 ∷ allow 4 ∷ succeed ∷ []) cfg_valid

open_sheds_load_example :
    (run tripped (allow (secs 9) ∷ succeed ∷ []) ≡ tripped)
    × (admitted tripped (allow (secs 9) ∷ succeed ∷ []) ≡ 0)
unfolding run perform new
open_sheds_load_example =
    open_sheds_load tripped (allow (secs 9) ∷ succeed ∷ []) refl (omega arith) (omega arith)

burst_opens_at_threshold_example :
    (run (new cfg 0) (map fail (1 ∷ 2 ∷ 3 ∷ []))).inner.state ≡ open_state
unfolding new
burst_opens_at_threshold_example =
    burst_opens_at_threshold (new cfg 0) (1 ∷ 2 ∷ 3 ∷ []) start_Inv refl (omega arith) (omega arith)

half_open_closes_example : (run probing (succeed ∷ succeed ∷ [])).inner.state ≡ closed
unfolding run perform new
half_open_closes_example = half_open_closes 1 probing refl (omega arith) refl

-- A cancelled trial gives its slot back and is no success.
cancelled_trial :
    ((perform probing (allow (secs 11))).1 ≡ false)
    × ((run probing (release ∷ allow (secs 11) ∷ succeed ∷ [])).inner.state ≡ half_open)
unfolding run perform new
cancelled_trial = (refl, refl)
