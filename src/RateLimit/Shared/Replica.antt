-- ===== src/RateLimit/Shared/Replica.antt =====
-- What one replica admits, whatever the backend tells it, crates/lagos-core/src/ratelimit/shared.rs.
use lagos.Prelude.{
  ℕ, ◌+◌, ◌≤◌, ◌<◌, ◌≡◌, true, false, List, [], ◌∷◌, Bool-cases, inl, inr, if_cases, saturating_add,
  u64_max, arith,
}
use lagos.RateLimit.{Float, Decision}
use lagos.RateLimit.Quota.{IsIeee, spent, refused_at_limit}
use lagos.RateLimit.Shared.{Shard, Publish, Totals, roll_to, count_own, check_shard}
use lagos.RateLimit.Shared.Sync.{apply_shard}

-- What happens to a shard while its bucket lasts: a request, at some progress of the window, and a
-- reply of the backend to any publish.
pub data Event (F : Type 0) : Type 0 where
  request : F → Event F
  reply : Publish → Totals → Event F

module _ (fl : Float) (limit interval : ℕ) where
  -- How many of the requests are admitted.
  unfoldable pub admitted : Shard → List (Event fl.F) → ℕ
  unfolding check_shard apply_shard
  admitted s [] = 0
  admitted s (request progress ∷ later) =
      let r = check_shard fl s (s.bucket, progress) limit interval in spent r.1 + admitted r.0 later
  admitted s (reply publish total ∷ later) = admitted (apply_shard publish total s) later

  -- Each progress is a number.
  abbrev pub AreNumbers : List (Event fl.F) → Type 0
  AreNumbers [] = Unit
  AreNumbers (request progress ∷ later) = (fl.ge progress progress ≡ true) × AreNumbers later
  AreNumbers (reply publish total ∷ later) = AreNumbers later

apply_shard-own :
    (publish : Publish) (total : Totals) (s : Shard)
    → (apply_shard publish total s).own_current ≡ s.own_current
unfolding apply_shard
apply_shard-own publish total s = ground arith

-- The outcome counts what it spends, within the limit.
record CountsOwn (limit : ℕ) (s : Shard) (r : Shard × Decision) : Type 0 where
  current : r.0.own_current ≡ s.own_current + spent r.1
  within : r.0.own_current ≤ limit

count_own-CountsOwn :
    (limit : ℕ) (s : Shard) (d : Decision)
    → limit ≤ u64_max
    → s.own_current ≤ limit
    → (limit ≤ s.own_current → d.allowed ≡ false)
    → CountsOwn limit s (count_own s d)
unfolding count_own
count_own-CountsOwn limit s d word h full = elim (Bool-cases d.allowed) [
  | inl e ↦
      let room : s.own_current < limit = ground (arith, full) in
      if_cases (CountsOwn limit s) _ _ d.allowed
        (λ k. record {
          current = rw k (omega (arith, room, word));
          within = omega (arith, room, word);
        })
        (λ k. absurd (cc))
  | inr e ↦
      if_cases (CountsOwn limit s) _ _ d.allowed (λ k. absurd (cc))
        (λ k. record { current = rw k (omega arith); within = h })
]

module _ (fl : Float) (ieee : IsIeee fl) (limit interval : ℕ) (word : limit ≤ u64_max) where
  check_shard-CountsOwn :
      (s : Shard) (progress : fl.F)
      → fl.ge progress progress ≡ true
      → s.own_current ≤ limit
      → CountsOwn limit s (check_shard fl s (s.bucket, progress) limit interval)
  unfolding check_shard
  check_shard-CountsOwn s progress n h =
      let same : roll_to s s.bucket ≡ s = unfold roll_to in ground arith in
      rw same (
        count_own-CountsOwn limit s _ word h (λ full.
          refused_at_limit fl ieee (saturating_add u64_max s.own_previous s.remote_previous)
            (saturating_add u64_max s.own_current s.remote_current) limit interval progress n
            (omega (arith, full, word))))

  -- However requests and replies interleave in one bucket, and whatever the replies say, late or
  -- wrong: a replica by itself admits no more than the limit for a key.
  pub replica_keeps_quota :
      (s : Shard) (events : List (Event fl.F))
      → s.own_current ≤ limit
      → AreNumbers fl limit interval events
      → s.own_current + admitted fl limit interval s events ≤ limit
  unfolding admitted
  replica_keeps_quota s [] h n = omega (arith, h)
  replica_keeps_quota s (request progress ∷ later) h (p, n) =
      let c = check_shard-CountsOwn s progress p h in
      omega (
        arith,
        c.current,
        replica_keeps_quota (check_shard fl s (s.bucket, progress) limit interval).0 later c.within
            n,
      )
  replica_keeps_quota s (reply publish total ∷ later) h n =
      let own = apply_shard-own publish total s in
      omega (
        arith,
        own,
        replica_keeps_quota (apply_shard publish total s) later (omega (arith, own, h)) n,
      )
