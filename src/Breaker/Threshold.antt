-- ===== src/Breaker/Threshold.antt =====
-- The closed state of breaker.rs: its window and its threshold.
use lagos.Prelude.{
  ◌<◌, length, All, refl, Bool-cases, inl, inr, ℕ, ◌+◌, ◌≡◌, ◌≤◌, ◌<◌, refl, ltb, if◌then◌else◌,
  u32_max, List, [], ◌∷◌, map, length, All, arith,
}
use lagos.Breaker.{
  Call, succeed, CircuitBreaker, Call, closed, open_state, succeed, fail, perform, run,
}
use lagos.Breaker.Invariant.{Inv, perform-Inv}

open_fails :
    (b : CircuitBreaker) (ts : List ℕ)
    → b.inner.state ≡ open_state
    → (run b (map fail ts)).inner.state ≡ open_state
unfolding run perform
open_fails b [] o = o
open_fails b (t ∷ ts) o = open_fails (perform b (fail t)).0 ts (ground arith)

-- One failure within the window adds one to the count, or opens the circuit at the threshold.
fail_step :
    (b : CircuitBreaker) (t : ℕ)
    → Inv b
    → b.inner.state ≡ closed
    → b.cfg.failures ≤ u32_max
    → t ≤ b.inner.window_started + b.cfg.window
    → let b' = (perform b (fail t)).0 in
      (b'.cfg ≡ b.cfg)
      × (b'.inner.window_started ≡ b.inner.window_started)
      × (b'.inner.failures ≡ b.inner.failures + 1)
      × (b'.inner.state
          ≡ (if ltb (b.inner.failures + 1) b.cfg.failures then closed else open_state))
unfolding perform
fail_step b t v c m h = ground (arith, v.below_threshold c)

burst :
    (w : ℕ) (b : CircuitBreaker) (ts : List ℕ)
    → Inv b
    → b.inner.state ≡ closed
    → b.cfg.failures ≤ u32_max
    → w ≤ b.inner.window_started + b.cfg.window
    → All (λ t. t ≤ w) ts
    → (run b (map fail ts)).inner.state
      ≡ (if ltb (b.inner.failures + length ts) b.cfg.failures then closed else open_state)
unfolding run perform
burst w b [] v c m i h = ground (arith, v.below_threshold c)
burst w b (t ∷ ts) v c m i (h, hs) =
    let step = fail_step b t v c m (omega arith) in
    let b' = (perform b (fail t)).0 in
    let v' = perform-Inv b (fail t) v in
    elim (Bool-cases (ltb (b.inner.failures + 1) b.cfg.failures)) [
      | inl more ↦
          let c' : b'.inner.state ≡ closed = ground (arith, step) in
          let ih = burst w b' ts v' c' (omega (arith, step)) (omega (arith, step)) hs in
          ground (arith, step, ih)
      | inr last ↦
          let o' : b'.inner.state ≡ open_state = ground (arith, step) in
          ground (arith, step, open_fails b' ts o')
    ]

-- A burst of failures within the window, of a closed circuit whose threshold fits a u32, opens it
-- exactly when the failures counted before it and those of the burst reach the threshold.
pub burst_opens_at_threshold :
    (b : CircuitBreaker) (ts : List ℕ)
    → Inv b
    → b.inner.state ≡ closed
    → b.cfg.failures ≤ u32_max
    → All (λ t. t ≤ b.inner.window_started + b.cfg.window) ts
    → (run b (map fail ts)).inner.state
      ≡ (if ltb (b.inner.failures + length ts) b.cfg.failures then closed else open_state)
burst_opens_at_threshold b ts v c m h =
    burst (b.inner.window_started + b.cfg.window) b ts v c m (omega arith) h

-- How a list of calls looks to a threshold `limit`: fewer than `limit` failures stand between two
-- successes, `k` being those counted before.
abbrev pub IsCalm : ℕ → ℕ → List Call → Type 0
IsCalm limit k [] = Unit
IsCalm limit k (succeed ∷ cs) = IsCalm limit 0 cs
IsCalm limit k (fail now ∷ cs) = (k + 1 < limit) × IsCalm limit (k + 1) cs
IsCalm limit k (_ ∷ cs) = IsCalm limit k cs

calm_run :
    (b : CircuitBreaker) (limit k : ℕ) (cs : List Call)
    → b.cfg.failures ≡ limit
    → b.inner.state ≡ closed
    → b.inner.failures ≤ k
    → IsCalm limit k cs
    → (run b cs).inner.state ≡ closed
unfolding run perform
calm_run b limit k [] e s f h = s
calm_run b limit k (succeed ∷ cs) e s f h =
    calm_run (perform b succeed).0 limit 0 cs e (ground arith) (ground arith) h
calm_run b limit k (fail now ∷ cs) e s f (m, h) =
    calm_run (perform b (fail now)).0 limit (k + 1) cs e (ground arith) (ground arith) h
calm_run b limit k (Call.allow now ∷ cs) e s f h =
    calm_run (perform b (Call.allow now)).0 limit k cs e (ground arith) (ground arith) h
calm_run b limit k (Call.release ∷ cs) e s f h =
    calm_run (perform b Call.release).0 limit k cs e (ground arith) (ground arith) h

-- A closed circuit stays closed through every list of calls in which fewer failures than its
-- threshold come between two successes, those counted before the first success included, however
-- the calls are spread over time.
pub calm_stays_closed :
    (b : CircuitBreaker) (cs : List Call)
    → b.inner.state ≡ closed
    → IsCalm b.cfg.failures b.inner.failures cs
    → (run b cs).inner.state ≡ closed
calm_stays_closed b cs s h = calm_run b b.cfg.failures b.inner.failures cs refl s (omega arith) h
