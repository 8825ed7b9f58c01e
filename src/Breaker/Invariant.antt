-- ===== src/Breaker/Invariant.antt =====
-- The invariant of the circuit breaker, over every sequence of calls.
use lagos.Prelude.{ℕ, ◌≡◌, ◌≤◌, ◌<◌, List, [], ◌∷◌, arith, refl, ◌∙◌}
use lagos.Breaker.{CircuitBreakerConfig, CircuitBreaker, Call, closed, half_open, new, perform, run}

-- What `Config::validate` demands of a `circuit_breaker` section.
pub record IsValidConfig (cfg : CircuitBreakerConfig) : Type 0 where
  pub failures_pos : 0 < cfg.failures
  pub successes_pos : 0 < cfg.successes_to_close
  pub trials_pos : 0 < cfg.max_trials

pub record Inv (b : CircuitBreaker) : Type 0 where
  pub config : IsValidConfig b.cfg
  pub below_threshold : b.inner.state ≡ closed → b.inner.failures < b.cfg.failures
  pub below_close : b.inner.state ≡ half_open → b.inner.trial_successes < b.cfg.successes_to_close
  pub trials_capped : b.inner.state ≡ half_open → b.inner.trials_in_flight ≤ b.cfg.max_trials
  pub no_trials_closed : b.inner.state ≡ closed → b.inner.trials_in_flight ≡ 0

pub new-Inv : (cfg : CircuitBreakerConfig) (now : ℕ) → IsValidConfig cfg → Inv (new cfg now)
unfolding new
new-Inv cfg now v = ground arith

pub cfg-perform : (b : CircuitBreaker) (c : Call) → (perform b c).0.cfg ≡ b.cfg
unfolding perform
cfg-perform b (Call.allow now) = refl
cfg-perform b _ = refl

pub perform-Inv : (b : CircuitBreaker) (c : Call) → Inv b → Inv (perform b c).0
unfolding perform
perform-Inv b (Call.allow now) v = ground arith
perform-Inv b _ v = ground arith

pub cfg-run : (b : CircuitBreaker) (cs : List Call) → (run b cs).cfg ≡ b.cfg
unfolding run
cfg-run b [] = refl
cfg-run b (c ∷ cs) = cfg-run (perform b c).0 cs ∙ cfg-perform b c

pub run-Inv : (b : CircuitBreaker) (cs : List Call) → Inv b → Inv (run b cs)
unfolding run
run-Inv b [] v = v
run-Inv b (c ∷ cs) v = run-Inv (perform b c).0 cs (perform-Inv b c v)

-- Whatever calls are made of a new breaker whose configuration validates, in whatever order: a
-- closed circuit counts fewer failures than its threshold, and a half-open one has fewer than
-- `successes_to_close` successes and at most `max_trials` trials in flight.
pub reachable-Inv :
    (cfg : CircuitBreakerConfig) (start : ℕ) (cs : List Call)
    → IsValidConfig cfg
    → Inv (run (new cfg start) cs)
reachable-Inv cfg start cs v = run-Inv (new cfg start) cs (new-Inv cfg start v)
