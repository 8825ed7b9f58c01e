-- ===== src/RateLimit/Replies.antt =====
-- What the replies of a RESP server become, crates/lagos-core/src/ratelimit/resp.rs.
use lagos.Prelude.{
  ℕ, suc, ◌+◌, ◌*◌, ◌/◌, ◌%◌, ◌==◌, not, ◌||◌, ◌≤◌, ◌<◌, ◌≡◌, refl, ap, if◌then◌else◌, List, [],
  ◌∷◌, length, u64_max, nanos_per_sec, ℤ, Result, ok, err, result_inj, Bool-cases, inl, inr, arith,
}
use lagos.Text.{Text}
use lagos.RateLimit.{Decision, allow, refuse}
use lagos.RateLimit.Shared.{Publish, Totals, BackendError}
use lagos.RateLimit.Resp.{
  Command, ttl_secs, read_chunks, read_replies, reconcile, pipeline, to_u64_or_zero, is_one,
  div_ceil_1000, read_rlcheck, read_exact, check_exact,
}

-- A counter is kept for two intervals at least, for less than two seconds more, and never for none:
-- the sliding estimate does not find the previous window expired.
pub ttl_covers_estimate :
    (interval : ℕ)
    → interval * 2 ≤ u64_max * nanos_per_sec
    → (interval * 2 ≤ ttl_secs interval * nanos_per_sec)
      × (ttl_secs interval * nanos_per_sec < interval * 2 + 2 * nanos_per_sec + 1)
      × (2 ≤ ttl_secs interval)
unfolding ttl_secs
ttl_covers_estimate interval h = (ground arith, ground arith, ground arith)

length-read_chunks :
    (batch : List Publish) (replies : List (List ℕ))
    → length replies ≡ length batch * 2
    → length (read_chunks batch replies) ≡ length batch
unfolding read_chunks
length-read_chunks [] replies h = refl
length-read_chunks (p ∷ ps) [] h = absurd (omega arith)
length-read_chunks (p ∷ ps) (a ∷ []) h = absurd (omega arith)
length-read_chunks (p ∷ ps) (a ∷ (b ∷ replies)) h =
    ap suc (length-read_chunks ps replies (omega arith))

aligned :
    (batch : List Publish) (reply : Result (List (List ℕ)) BackendError) (totals : List Totals)
    → read_replies batch reply ≡ ok totals
    → length totals ≡ length batch
unfolding read_replies
aligned batch (err e) totals h = absurd (cc)
aligned batch (ok replies) totals h = elim (Bool-cases (length replies == length batch * 2)) [
  | inr e ↦ absurd (ground arith)
  | inl e ↦
      let made : read_chunks batch replies ≡ totals = ground arith in
      rw (← made) (length-read_chunks batch replies (ground arith))
]

-- Whatever a server answers to a batch, the totals that come out stand for its keys in order: there
-- are as many as keys, or there is an error.
pub reconcile_is_aligned :
    (uuid_text : ℕ → Text) (query : List Command → Result (List (List ℕ)) BackendError)
    (batch : List Publish) (totals : List Totals)
    → reconcile uuid_text query batch ≡ ok totals
    → length totals ≡ length batch
unfolding reconcile
reconcile_is_aligned uuid_text query [] totals h = rw (← result_inj h) refl
reconcile_is_aligned uuid_text query (p ∷ ps) totals h =
    aligned (p ∷ ps) (query (pipeline uuid_text (p ∷ ps))) totals h

-- The wait of a refused request covers the milliseconds that the server names and exceeds them by
-- less than a second, or is one second; an admitted request is told no wait.
abbrev pub WaitsFor : ℤ → Decision → Type 0
WaitsFor retry_ms d =
    if d.allowed
    then d.retry_after ≡ 0
    else (to_u64_or_zero retry_ms * 1_000_000 ≤ d.retry_after)
      × (nanos_per_sec ≤ d.retry_after)
      × (d.retry_after < to_u64_or_zero retry_ms * 1_000_000 + nanos_per_sec + 1)

refuse-WaitsFor :
    (limit : ℕ) (retry_ms : ℤ)
    → WaitsFor retry_ms (refuse limit (div_ceil_1000 (to_u64_or_zero retry_ms) * nanos_per_sec))
unfolding refuse div_ceil_1000
refuse-WaitsFor limit retry_ms =
    let wait = to_u64_or_zero retry_ms in (omega arith, omega arith, omega arith)

read_rlcheck-WaitsFor :
    (limit : ℕ) (allowed remaining retry_ms : ℤ) (more : List ℤ) (d : Decision)
    → read_rlcheck limit (allowed ∷ (remaining ∷ (retry_ms ∷ more))) ≡ ok d
    → (d.allowed ≡ is_one allowed) × (d.limit ≡ limit) × WaitsFor retry_ms d
unfolding read_rlcheck allow refuse
read_rlcheck-WaitsFor limit allowed remaining retry_ms more d h =
    elim (Bool-cases (is_one allowed)) [
      | inl e ↦
          let made : allow limit (to_u64_or_zero remaining) ≡ d = ground arith in
          rw (← made, e) (refl, refl, refl)
      | inr e ↦
          let made : refuse limit (div_ceil_1000 (to_u64_or_zero retry_ms) * nanos_per_sec) ≡ d =
            ground arith in
          rw (← made, e) (refl, refl, refuse-WaitsFor limit retry_ms)
    ]

-- If an exact check is answered with a decision, it is the one that the server made: it admits if
-- and only if the server's first value is one, its limit is the route's, and its wait is the
-- server's rounded up to a second or more.
pub exact_decision_is_servers :
    (query : Text → ℕ → ℕ → Result (List ℤ) BackendError) (key : Text) (limit interval : ℕ)
    (allowed remaining retry_ms : ℤ) (more : List ℤ) (d : Decision)
    → query key limit (interval / nanos_per_sec) ≡ ok (allowed ∷ (remaining ∷ (retry_ms ∷ more)))
    → check_exact query key limit interval ≡ ok d
    → (d.allowed ≡ is_one allowed) × (d.limit ≡ limit) × WaitsFor retry_ms d
unfolding check_exact read_exact
exact_decision_is_servers query key limit interval allowed remaining retry_ms more d q h =
    elim (Bool-cases (interval == 0 || not (interval % nanos_per_sec == 0))) [
      | inl e ↦ absurd (ground arith)
      | inr e ↦
          read_rlcheck-WaitsFor limit allowed remaining retry_ms more d
            (rw q at (rw (e, check_exact) at h))
    ]
