-- ===== src/Breaker/Trials.antt =====
-- A half-open circuit: how many trials it lets out, and what closes it.
use lagos.Prelude.{
  ℕ, zero, suc, ◌+◌, ◌-◌, ◌≡◌, ◌≤◌, min, u32_max, List, [], ◌∷◌, map, length, replicate, arith,
}
use lagos.Breaker.{CircuitBreaker, closed, half_open, allow, succeed, perform, run}
use lagos.Breaker.Cooldown.{admitted}

-- A half-open circuit that is asked again and again, with no outcome in between, admits exactly the
-- requests that `max_trials`, which fits a u32, leaves room for beside the trials in flight.
pub trials_bounded :
    (b : CircuitBreaker) (ts : List ℕ)
    → b.inner.state ≡ half_open
    → b.cfg.max_trials ≤ u32_max
    → admitted b (map allow ts) ≡ min (length ts) (b.cfg.max_trials - b.inner.trials_in_flight)
unfolding admitted perform
trials_bounded b [] h m = omega arith
trials_bounded b (t ∷ ts) h m =
    let ih = trials_bounded (perform b (allow t)).0 ts (ground arith) m in ground (arith, ih)

-- In a half-open circuit every success counts, whoever reports it: after as many as are missing,
-- one or more, the circuit is closed, although no request was admitted in between.
pub half_open_closes :
    (missing : ℕ) (b : CircuitBreaker)
    → b.inner.state ≡ half_open
    → b.cfg.successes_to_close ≤ u32_max
    → b.cfg.successes_to_close ≡ b.inner.trial_successes + suc missing
    → (run b (replicate (suc missing) succeed)).inner.state ≡ closed
unfolding run perform
half_open_closes zero b h m e = ground arith
half_open_closes (suc missing) b h m e =
    half_open_closes missing (perform b succeed).0 (ground arith) m (ground arith)
