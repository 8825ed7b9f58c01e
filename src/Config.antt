-- ===== src/Config.antt =====
-- The configuration records that several components read, crates/lagos-core/src/config/mod.rs.
use lagos.Prelude.{ℕ, Bool, true, false, Option, none, some, List}
use lagos.Text.{Text}
use lagos.Retry.{RetryConfig}

pub data RateLimitKey : Type 0 where
  ip identity route : RateLimitKey
  header : Text → RateLimitKey

pub data MissingKey : Type 0 where
  reject route ip skip : MissingKey

pub data Counter : Type 0 where
  exact sketch shared : Counter

pub data LimitMode : Type 0 where
  approximate exact : LimitMode

pub record RateLimitConfig : Type 0 where
  pub requests : ℕ  -- u64
  pub interval : ℕ  -- nanoseconds
  pub key : RateLimitKey
  pub missing_key : MissingKey
  pub trusted_proxies : ℕ
  pub max_keys : ℕ
  pub counter : Counter
  pub mode : LimitMode

pub record ConcurrencyConfig : Type 0 where
  pub max : ℕ  -- u64
  pub key : Option RateLimitKey
  pub missing_key : MissingKey
  pub trusted_proxies : ℕ

abbrev pub concurrency_key : ConcurrencyConfig → RateLimitKey
concurrency_key c = elim c.key [ none ↦ RateLimitKey.route | some k ↦ k ]

is_route : RateLimitKey → Bool
is_route RateLimitKey.route = true
is_route _ = false

unfoldable pub per_caller : ConcurrencyConfig → Bool
unfolding is_route
per_caller c = elim (is_route (concurrency_key c)) [ true ↦ false | false ↦ true ]

pub record RouteDefaults : Type 0 where
  pub rate_limit : Option RateLimitConfig
  pub retry : Option RetryConfig
  pub methods : Option (List Text)
