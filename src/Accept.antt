-- ===== src/Accept.antt =====
-- Limits at accept time, crates/lagos-core/src/accept.rs, and their settings, config/mod.rs.
pub mod Flood
mod Tests
use lagos.Prelude.{ℕ, Bool, true, false, Option, none, some}
use lagos.Text.{Text}
use lagos.Config.{RateLimitConfig, RateLimitKey, MissingKey, Counter, LimitMode}
use lagos.RateLimit.{Float, Decision}
use lagos.RateLimit.Limiter.{Sketch, Limiter, new_limiter, check_limiter}

pub record ConnectionLimitConfig : Type 0 where
  pub connections : ℕ
  pub interval : ℕ
  pub max_tracked : ℕ

unfoldable pub as_rate_limit : ConnectionLimitConfig → RateLimitConfig
as_rate_limit c = record {
  requests = c.connections;
  interval = c.interval;
  key = RateLimitKey.ip;
  missing_key = MissingKey.reject;
  trusted_proxies = 0;
  max_keys = c.max_tracked;
  counter = Counter.exact;
  mode = LimitMode.approximate;
}

module _ (fl : Float) (sk : Sketch fl.F) where
  -- `ConnectionLimiter::new`
  unfoldable pub new : ConnectionLimitConfig → Limiter sk.S
  unfolding new_limiter as_rate_limit
  new cfg = new_limiter fl sk (as_rate_limit cfg)

  abbrev allowed_of : Limiter sk.S × Decision → Limiter sk.S × Bool
  allowed_of (l, d) = (l, d.allowed)

  -- `ip` is the text of the address.
  unfoldable pub admits : Limiter sk.S → Text → ℕ → Limiter sk.S × Bool
  unfolding check_limiter
  admits l ip now = allowed_of (check_limiter fl sk l ip now none 0)

  unfoldable pub should_accept : Limiter sk.S → Option Text → ℕ → Limiter sk.S × Bool
  unfolding admits
  should_accept l none now = (l, true)
  should_accept l (some ip) now = admits l ip now
