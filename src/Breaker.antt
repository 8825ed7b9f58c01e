-- ===== src/Breaker.antt =====
-- The circuit breaker, crates/lagos-core/src/breaker.rs.
-- An `Instant` and a `Duration` are numbers of nanoseconds, and `now` is an argument, as it is in
-- the `_at` methods. A method that locks `inner` returns the new breaker.
pub mod Invariant
pub mod Diagram
pub mod Cooldown
pub mod Threshold
pub mod Trials
mod Tests
use lagos.Prelude.{
  ℕ, ◌-◌, Bool, true, false, ltb, leb, if◌then◌else◌, saturating_add, u32_max, List, [], ◌∷◌,
}

pub data State : Type 0 where
  closed open_state half_open : State

pub record Inner : Type 0 where
  pub state : State
  pub failures : ℕ  -- u32
  pub window_started : ℕ
  pub opened_at : ℕ
  pub trial_successes : ℕ  -- u32
  pub trials_in_flight : ℕ  -- u32

pub record CircuitBreakerConfig : Type 0 where
  pub failures : ℕ
  pub window : ℕ
  pub cooldown : ℕ
  pub successes_to_close : ℕ
  pub max_trials : ℕ

-- The settings that `new` copies are kept as the configuration they come from.
pub record CircuitBreaker : Type 0 where
  pub inner : Inner
  pub cfg : CircuitBreakerConfig

unfoldable pub new : CircuitBreakerConfig → ℕ → CircuitBreaker
new cfg now = record {
  inner = record {
    state = closed;
    failures = 0;
    window_started = now;
    opened_at = now;
    trial_successes = 0;
    trials_in_flight = 0;
  };
  cfg = cfg;
}

-- One clause for each arm of the `match` in `allow_at`.
allow_inner : CircuitBreakerConfig → State → Inner → ℕ → Inner × Bool
allow_inner cfg closed inner now = (inner, true)
allow_inner cfg open_state inner now =
    if ltb (now - inner.opened_at) cfg.cooldown
    then (inner, false)
    else (record inner { state = half_open; trial_successes = 0; trials_in_flight = 1 }, true)
allow_inner cfg half_open inner now =
    if leb cfg.max_trials inner.trials_in_flight
    then (inner, false)
    else (record inner { trials_in_flight = saturating_add u32_max inner.trials_in_flight 1 }, true)

unfoldable pub allow_at : CircuitBreaker → ℕ → CircuitBreaker × Bool
unfolding allow_inner
allow_at b now =
    let (inner, allowed) = allow_inner b.cfg b.inner.state b.inner now in
    (record b { inner = inner }, allowed)

cancel_inner : State → Inner → Inner
cancel_inner half_open inner = record inner { trials_in_flight = inner.trials_in_flight - 1 }
cancel_inner _ inner = inner

unfoldable pub cancel : CircuitBreaker → CircuitBreaker
unfolding cancel_inner
cancel b = record b { inner = cancel_inner b.inner.state b.inner }

success_inner : CircuitBreakerConfig → State → Inner → Inner
success_inner cfg closed inner = record inner { failures = 0 }
success_inner cfg half_open inner =
    let successes = saturating_add u32_max inner.trial_successes 1 in
    if leb cfg.successes_to_close successes
    then record inner { state = closed; failures = 0; trial_successes = 0; trials_in_flight = 0 }
    else record inner { trials_in_flight = inner.trials_in_flight - 1; trial_successes = successes }
success_inner cfg open_state inner = inner

unfoldable pub record_success : CircuitBreaker → CircuitBreaker
unfolding success_inner
record_success b = record b { inner = success_inner b.cfg b.inner.state b.inner }

-- The window of failures restarts once it is older than `window`.
roll_window : CircuitBreakerConfig → Inner → ℕ → Inner
roll_window cfg inner now =
    if ltb cfg.window (now - inner.window_started)
    then record inner { window_started = now; failures = 0 }
    else inner

count_failure : CircuitBreakerConfig → Inner → ℕ → Inner
count_failure cfg inner now =
    let failures = saturating_add u32_max inner.failures 1 in
    if leb cfg.failures failures
    then record inner { failures = failures; state = open_state; opened_at = now }
    else record inner { failures = failures }

failure_inner : CircuitBreakerConfig → State → Inner → ℕ → Inner
unfolding roll_window count_failure
failure_inner cfg closed inner now = count_failure cfg (roll_window cfg inner now) now
failure_inner cfg half_open inner now = record inner {
  state = open_state;
  opened_at = now;
  trial_successes = 0;
  trials_in_flight = 0;
}
failure_inner cfg open_state inner now = inner

unfoldable pub record_failure_at : CircuitBreaker → ℕ → CircuitBreaker
unfolding failure_inner
record_failure_at b now = record b { inner = failure_inner b.cfg b.inner.state b.inner now }

-- The calls that a request makes, each at the moment it makes it.
pub data Call : Type 0 where
  allow : ℕ → Call
  succeed : Call
  fail : ℕ → Call
  release : Call

-- One critical section. `true` only for an `allow` that admits its request.
unfoldable pub perform : CircuitBreaker → Call → CircuitBreaker × Bool
unfolding allow_at record_success record_failure_at cancel
perform b (allow now) = allow_at b now
perform b succeed = (record_success b, false)
perform b (fail now) = (record_failure_at b now, false)
perform b release = (cancel b, false)

-- Calls take the lock one after the other: an execution is a list of them.
unfoldable pub run : CircuitBreaker → List Call → CircuitBreaker
run b [] = b
run b (c ∷ cs) = run (perform b c).0 cs
