-- ===== src/Breaker/Cooldown.antt =====
-- The open state of breaker.rs and its cooldown.
use lagos.Prelude.{ℕ, suc, ◌+◌, ◌≡◌, ◌≤◌, ◌<◌, refl, Bool, true, false, List, [], ◌∷◌, All, arith}
use lagos.Breaker.{CircuitBreaker, Call, open_state, half_open, allow, allow_at, perform, run}

-- The calls that a run of calls admits.
abbrev count_admitted : Bool → ℕ → ℕ
count_admitted true n = suc n
count_admitted false n = n

unfoldable pub admitted : CircuitBreaker → List Call → ℕ
admitted b [] = 0
admitted b (c ∷ cs) = count_admitted (perform b c).1 (admitted (perform b c).0 cs)

-- The call asks for admission before `limit`, or does not ask at all.
abbrev pub AsksBefore : ℕ → Call → Type 0
AsksBefore limit (allow now) = now < limit
AsksBefore limit _ = Unit

open_perform :
    (b : CircuitBreaker) (c : Call)
    → b.inner.state ≡ open_state
    → 0 < b.cfg.cooldown
    → AsksBefore (b.inner.opened_at + b.cfg.cooldown) c
    → perform b c ≡ (b, false)
unfolding perform
open_perform b (allow now) o p h = ground arith
open_perform b _ o p h = ground arith

-- Until an open circuit's cooldown, which is not zero, has passed since it opened, no sequence of
-- calls changes it, and none is admitted: neither requests, nor late outcomes, nor cancellations.
pub open_sheds_load :
    (b : CircuitBreaker) (cs : List Call)
    → b.inner.state ≡ open_state
    → 0 < b.cfg.cooldown
    → All (AsksBefore (b.inner.opened_at + b.cfg.cooldown)) cs
    → (run b cs ≡ b) × (admitted b cs ≡ 0)
unfolding run admitted
open_sheds_load b [] o p h = (refl, refl)
open_sheds_load b (c ∷ cs) o p (h, hs) = rw (open_perform b c o p h) (open_sheds_load b cs o p hs)

-- Once the cooldown has passed, a request is admitted as the single trial of a half-open circuit.
pub probe_after_cooldown :
    (b : CircuitBreaker) (now : ℕ)
    → b.inner.state ≡ open_state
    → b.inner.opened_at + b.cfg.cooldown ≤ now
    → ((allow_at b now).1 ≡ true)
      × ((allow_at b now).0.inner.state ≡ half_open)
      × ((allow_at b now).0.inner.trials_in_flight ≡ 1)
      × ((allow_at b now).0.inner.trial_successes ≡ 0)
unfolding allow_at
probe_after_cooldown b now o h = ground arith
