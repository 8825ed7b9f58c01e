-- ===== src/RateLimit.antt =====
-- Rate limiting, crates/lagos-core/src/ratelimit/mod.rs: the decision and one key's window.
-- The floating point numbers of the language are given by their operations, `Float`; moments and
-- durations are numbers of nanoseconds.
pub mod Quota
pub mod Thousandths
pub mod Shared
pub mod Limiter
pub mod Keys
pub mod Scoping
pub mod Urls
pub mod Resp
pub mod Replies
pub mod Redaction
mod Tests
use lagos.Prelude.{
  ℕ, suc, ◌+◌, ◌-◌, ◌*◌, ◌==◌, ltb, leb, if◌then◌else◌, Bool, true, false, List, [], ◌∷◌, max,
  saturating_add, u64_max, nanos_per_sec, duration_mul,
}

-- `f64`: conversions, arithmetic and the comparison `>=`.
pub record Float : Type 1 where
  pub F : Type 0
  pub of_u64 : ℕ → F  -- `n as f64`, and the literals 0.0 and 1.0
  pub as_secs : ℕ → F  -- `Duration::as_secs_f64`
  pub min_positive : F
  pub add : F → F → F
  pub sub : F → F → F
  pub mul : F → F → F
  pub div : F → F → F
  pub larger : F → F → F  -- `f64::max`
  pub clamp : F → F → F → F
  pub ge : F → F → Bool
  pub ceil : F → F
  pub to_u64 : F → ℕ  -- `x as u64`
  pub from_secs : F → ℕ  -- `Duration::from_secs_f64`

pub record Decision : Type 0 where
  pub allowed : Bool
  pub limit : ℕ
  pub remaining : ℕ
  pub retry_after : ℕ

unfoldable pub allow : ℕ → ℕ → Decision
allow limit remaining = record {
  allowed = true;
  limit = limit;
  remaining = remaining;
  retry_after = 0;
}

unfoldable pub refuse : ℕ → ℕ → Decision
refuse limit retry_after = record {
  allowed = false;
  limit = limit;
  remaining = 0;
  retry_after = max retry_after nanos_per_sec;
}

pub record Window : Type 0 where
  pub start : ℕ
  pub current : ℕ
  pub previous : ℕ

unfoldable pub new : ℕ → Window
new now = record { start = now; current = 0; previous = 0 }

-- `Window::check` up to the roll, with what has elapsed of the window that it leaves.
unfoldable pub roll : Window → ℕ → ℕ → Window × ℕ
unfolding new
roll w now interval =
    let elapsed = now - w.start in
    if leb (duration_mul interval 2) elapsed
    then (new now, 0)
    else if leb interval elapsed
    then (
      record { start = w.start + interval; current = 0; previous = w.current },
      elapsed - interval,
    )
    else (w, elapsed)

-- The count of an admitted request.
unfoldable pub counted : Window → Decision → Window × Decision
counted w decision =
    if decision.allowed
    then (record w { current = saturating_add u64_max w.current 1 }, decision)
    else (w, decision)

module _ (fl : Float) where
  abbrev pub zero_f : fl.F
  zero_f = fl.of_u64 0

  abbrev pub one_f : fl.F
  one_f = fl.of_u64 1

  unfoldable pub interval_secs : ℕ → fl.F
  interval_secs interval = fl.larger (fl.as_secs interval) fl.min_positive

  -- The previous window weighted by how much of it is still in view.
  unfoldable pub estimated : ℕ → ℕ → fl.F → fl.F
  estimated previous current progress =
      fl.add (fl.mul (fl.of_u64 previous) (fl.sub one_f progress)) (fl.of_u64 current)

  unfoldable pub remaining_of : ℕ → fl.F → ℕ
  remaining_of limit estimate =
      fl.to_u64 (fl.larger (fl.sub (fl.sub (fl.of_u64 limit) estimate) one_f) zero_f)

  unfoldable pub retry_of : fl.F → ℕ → ℕ
  unfolding interval_secs
  retry_of progress interval =
      fl.from_secs
        (fl.ceil (fl.larger (fl.mul (interval_secs interval) (fl.sub one_f progress)) one_f))

  unfoldable pub decide_at : ℕ → ℕ → fl.F → ℕ → ℕ → Decision
  unfolding estimated remaining_of retry_of
  decide_at previous current progress limit interval =
      if fl.ge (estimated previous current progress) (fl.of_u64 limit)
      then record {
        allowed = false;
        limit = limit;
        remaining = 0;
        retry_after = retry_of progress interval;
      }
      else record {
        allowed = true;
        limit = limit;
        remaining = remaining_of limit (estimated previous current progress);
        retry_after = 0;
      }

  unfoldable pub decide : ℕ → ℕ → fl.F → ℕ → ℕ → Decision
  unfolding decide_at
  decide previous current progress limit interval =
      decide_at previous current (fl.clamp progress zero_f one_f) limit interval

  unfoldable pub progress_of : ℕ → ℕ → fl.F
  unfolding interval_secs
  progress_of elapsed interval =
      fl.clamp (fl.div (fl.as_secs elapsed) (interval_secs interval)) zero_f one_f

  -- What follows the roll.
  unfoldable pub count_one : Window → ℕ → ℕ → ℕ → Window × Decision
  unfolding decide progress_of counted
  count_one w elapsed limit interval =
      counted w (decide w.previous w.current (progress_of elapsed interval) limit interval)

  -- `Window::check`
  unfoldable pub check : Window → ℕ → ℕ → ℕ → Window × Decision
  unfolding roll count_one
  check w now limit interval =
      let rolled = roll w now interval in count_one rolled.0 rolled.1 limit interval
