-- ===== src/Breaker/Diagram.antt =====
-- The state diagram at the head of breaker.rs, and what a way back to `closed` takes.
use lagos.Prelude.{ℕ, suc, ◌+◌, ◌-◌, ◌≡◌, ◌≤◌, ◌⊎◌, List, [], ◌∷◌, arith}
use lagos.Breaker.{
  State, CircuitBreaker, Call, closed, open_state, half_open, allow, succeed, fail, perform, run,
}

-- The arrows, each with the call that takes it.
pub data Edge : State → Call → State → Type 0 where
  trip : {now : ℕ} → Edge closed (fail now) open_state
  probe : {now : ℕ} → Edge open_state (allow now) half_open
  recover : Edge half_open succeed closed
  relapse : {now : ℕ} → Edge half_open (fail now) open_state

-- Every call leaves the state as it is or follows an arrow of the diagram that bears its name.
pub perform-Edge :
    (b : CircuitBreaker) (c : Call)
    → ((perform b c).0.inner.state ≡ b.inner.state)
      ⊎ Edge b.inner.state c (perform b c).0.inner.state
unfolding perform
perform-Edge b c = grind (arith, trip, probe, recover, relapse)

abbrev pub successes : List Call → ℕ
successes [] = 0
successes (succeed ∷ cs) = suc (successes cs)
successes (_ ∷ cs) = successes cs

-- How many successes the circuit still wants before it closes.
abbrev wanted : State → ℕ → ℕ → ℕ
wanted closed need had = 0
wanted open_state need had = need
wanted half_open need had = need - had

abbrev missing : CircuitBreaker → ℕ
missing b = wanted b.inner.state b.cfg.successes_to_close b.inner.trial_successes

missing-perform :
    (b : CircuitBreaker) (c : Call) (cs : List Call)
    → missing b + successes cs ≤ missing (perform b c).0 + successes (c ∷ cs)
unfolding perform
missing-perform b (allow now) cs = ground arith
missing-perform b _ cs = ground arith

missing-run : (b : CircuitBreaker) (cs : List Call) → missing b ≤ missing (run b cs) + successes cs
unfolding run
missing-run b [] = omega arith
missing-run b (c ∷ cs) = omega (arith, missing-perform b c cs, missing-run (perform b c).0 cs)

-- An open circuit that is closed again after some calls has seen at least `successes_to_close`
-- successes among them.
pub closing_needs_successes :
    (b : CircuitBreaker) (cs : List Call)
    → b.inner.state ≡ open_state
    → (run b cs).inner.state ≡ closed
    → b.cfg.successes_to_close ≤ successes cs
closing_needs_successes b cs o c = ground (arith, missing-run b cs)
