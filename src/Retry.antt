-- ===== src/Retry.antt =====
-- Retrying a failed upstream attempt, crates/lagos-core/src/retry.rs, and the two handlers of
-- crates/lagos-core/src/proxy.rs that decide by it. Logs and metrics are left out.
mod Tests
pub mod Attempts
use lagos.Prelude.{
  ℕ, zero, suc, ◌+◌, leb, if◌then◌else◌, Bool, true, false, not, ◌&&◌, ◌||◌, ltb, saturating_add,
  u32_max, usize_max, Option, none, some, List, [], ◌∷◌, any,
}
use lagos.Text.{Text, codes, eq_ignore_ascii_case}

-- Methods that RFC 9110 defines as idempotent.
abbrev pub idempotent : List Text
idempotent =
    codes "GET" ∷ codes "HEAD" ∷ codes "OPTIONS" ∷ codes "TRACE" ∷ codes "PUT" ∷ codes "DELETE" ∷ []

unfoldable pub is_idempotent : Text → Bool
is_idempotent method = any (λ m. eq_ignore_ascii_case m method) idempotent

pub data Failure : Type 0 where
  connect transport : Failure

-- `RetryOn` and `RetryConfig` of config/mod.rs.
pub data RetryOn : Type 0 where
  connection_failure transport_error : RetryOn

pub record RetryConfig : Type 0 where
  pub attempts : ℕ  -- u32
  pub on : List RetryOn
  pub non_idempotent : Bool

pub record Policy : Type 0 where
  pub attempts : ℕ  -- u32
  pub on_connect : Bool
  pub on_transport : Bool
  pub non_idempotent : Bool

abbrev is_connection_failure : RetryOn → Bool
is_connection_failure connection_failure = true
is_connection_failure transport_error = false

unfoldable pub from_config : RetryConfig → Policy
from_config cfg = record {
  attempts = cfg.attempts;
  on_connect = any is_connection_failure cfg.on;
  on_transport = any (λ on. not (is_connection_failure on)) cfg.on;
  non_idempotent = cfg.non_idempotent;
}

retry_failure : Policy → Failure → Text → Bool
unfolding is_idempotent
retry_failure p connect method = p.on_connect
retry_failure p transport method = p.on_transport && (p.non_idempotent || is_idempotent method)

unfoldable pub should_retry : Policy → Failure → ℕ → Text → Bool → Bool
unfolding retry_failure
should_retry p failure attempts_made method body_replayable =
    if leb p.attempts attempts_made || not body_replayable
    then false
    else retry_failure p failure method

-- The fields of a request's context that the handlers read and write.
pub record Ctx : Type 0 where
  pub attempts : ℕ  -- u32
  pub dns_failovers : ℕ  -- usize
  pub dns_attempts : ℕ  -- u32
  pub dns_candidates : ℕ  -- usize
  pub retry : Option Policy
  pub method : Text

-- What `upstream_peer`, which Pingora calls before each attempt, leaves in these fields once it has
-- found so many addresses.
unfoldable pub upstream_peer : Ctx → ℕ → Ctx
upstream_peer ctx candidates = record ctx { dns_candidates = candidates }

connect_by_policy : Option Policy → Ctx → Bool → Bool → Ctx × Bool
connect_by_policy none ctx replayable marked = (ctx, marked)
connect_by_policy (some policy) ctx replayable marked =
    if should_retry policy connect ctx.attempts ctx.method replayable
    then (
      record ctx {
        attempts = saturating_add u32_max ctx.attempts 1;
        dns_attempts = saturating_add u32_max ctx.dns_attempts 1;
      },
      true,
    )
    else (ctx, marked)

-- `fail_to_connect`. `marked` is the error's own retry mark, and the result is the mark that the
-- error has when it is returned.
unfoldable pub fail_to_connect : Ctx → Bool → Bool → Ctx × Bool
unfolding connect_by_policy should_retry
fail_to_connect ctx replayable marked =
    if replayable && ltb (saturating_add usize_max ctx.dns_failovers 1) ctx.dns_candidates
    then (
      record ctx {
        dns_failovers = saturating_add usize_max ctx.dns_failovers 1;
        dns_attempts = saturating_add u32_max ctx.dns_attempts 1;
      },
      true,
    )
    else connect_by_policy ctx.retry ctx replayable marked

transport_by_policy : Option Policy → Ctx → Bool → Bool → Ctx × Bool
transport_by_policy none ctx replayable marked = (ctx, marked)
transport_by_policy (some policy) ctx replayable marked =
    if not marked
    then (ctx, marked)
    else if should_retry policy transport ctx.attempts ctx.method replayable
    then (record ctx { attempts = saturating_add u32_max ctx.attempts 1 }, marked)
    else (ctx, false)

-- `error_while_proxy`. `decide_reuse reused` is the mark that the error has after
-- `e.retry.decide_reuse(reused)`, which is Pingora's.
unfoldable pub error_while_proxy : (Bool → Bool) → Ctx → Bool → Bool → Ctx × Bool
unfolding transport_by_policy should_retry
error_while_proxy decide_reuse ctx client_reused replayable =
    transport_by_policy ctx.retry ctx replayable (decide_reuse (client_reused && replayable))
