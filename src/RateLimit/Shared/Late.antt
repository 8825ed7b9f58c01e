-- ===== src/RateLimit/Shared/Late.antt =====
-- Replies that come late, crates/lagos-core/src/ratelimit/shared.rs.
use lagos.Prelude.{
  ℕ, ◌+◌, ◌-◌, ◌==◌, ◌≤◌, ◌<◌, ◌≡◌, leb, Bool-cases, inl, inr, u64_max, arith, ap, sym, ◌∙◌,
}
use lagos.RateLimit.Shared.{Shard, Publish, Totals, roll_to}
use lagos.RateLimit.Shared.Sync.{apply_shard}

-- The bucket goes on.
roll_to_next :
    (s : Shard) (bucket : ℕ)
    → bucket ≤ u64_max
    → bucket ≡ s.bucket + 1
    → roll_to s bucket ≡ record s {
      bucket = bucket;
      own_current = 0;
      own_previous = s.own_current;
      remote_current = 0;
      remote_previous = s.remote_current;
    }
unfolding roll_to
roll_to_next s bucket h e = ground arith

roll_to_far :
    (s : Shard) (bucket : ℕ)
    → s.bucket + 1 < bucket
    → roll_to s bucket ≡ record s {
      bucket = bucket;
      own_current = 0;
      own_previous = 0;
      remote_current = 0;
      remote_previous = 0;
    }
unfolding roll_to
roll_to_far s bucket h = ground arith

roll_to_same : (s : Shard) (bucket : ℕ) → bucket ≤ s.bucket → roll_to s bucket ≡ s
unfolding roll_to
roll_to_same s bucket h = ground arith

-- A reply in time.
apply_in_time :
    (publish : Publish) (total : Totals) (s : Shard)
    → s.source ≡ publish.source
    → s.bucket ≡ publish.bucket
    → publish.bucket < u64_max
    → apply_shard publish total s ≡ record s {
      remote_current = total.current - publish.own_current;
      remote_previous = total.previous - publish.own_previous;
    }
unfolding apply_shard
apply_in_time publish total s e f h = ground arith

apply_next :
    (publish : Publish) (total : Totals) (s : Shard)
    → s.source ≡ publish.source
    → s.bucket ≡ publish.bucket + 1
    → s.bucket ≤ u64_max
    → apply_shard publish total s
      ≡ record s { remote_previous = total.current - publish.own_current }
unfolding apply_shard
apply_next publish total s e f h = ground arith

apply_far :
    (publish : Publish) (total : Totals) (s : Shard)
    → publish.bucket + 1 < s.bucket
    → apply_shard publish total s ≡ s
unfolding apply_shard
apply_far publish total s h = ground arith

module _ (publish : Publish) (total : Totals) (s : Shard) (bucket : ℕ) where
  late_by_one :
      s.source ≡ publish.source
      → s.bucket ≡ publish.bucket
      → bucket ≤ u64_max
      → bucket ≡ s.bucket + 1
      → apply_shard publish total (roll_to s bucket) ≡ roll_to (apply_shard publish total s) bucket
  late_by_one e f h n =
      let timely = apply_in_time publish total s e f (omega (arith, n, h, f)) in
      let rolled = roll_to_next s bucket h n in
      let folded = record s {
        remote_current = total.current - publish.own_current;
        remote_previous = total.previous - publish.own_previous;
      } in
      ap (apply_shard publish total) rolled
      ∙ apply_next publish total _ e (n ∙ ap (λ (b : ℕ). b + 1) f) h
      ∙ sym (ap (λ (t : Shard). roll_to t bucket) timely ∙ roll_to_next folded bucket h n)

  late_by_more :
      s.source ≡ publish.source
      → s.bucket ≡ publish.bucket
      → bucket ≤ u64_max
      → s.bucket + 1 < bucket
      → apply_shard publish total (roll_to s bucket) ≡ roll_to (apply_shard publish total s) bucket
  late_by_more e f h n =
      let timely = apply_in_time publish total s e f (omega (arith, n, h, f)) in
      let rolled = roll_to_far s bucket n in
      let folded = record s {
        remote_current = total.current - publish.own_current;
        remote_previous = total.previous - publish.own_previous;
      } in
      ap (apply_shard publish total) rolled
      ∙ apply_far publish total _ (omega (arith, n, f))
      ∙ sym (ap (λ (t : Shard). roll_to t bucket) timely ∙ roll_to_far folded bucket n)

  apply-bucket : (apply_shard publish total s).bucket ≡ s.bucket
  unfolding apply_shard
  apply-bucket = ground arith

  -- A reply that comes after the shard has rolled on, by however many buckets, leaves the same
  -- counts as one that came before: the contribution of the other replicas to a window that is
  -- still in view is kept, and none is counted into a wrong window.
  pub late_reply_is_in_time :
      s.source ≡ publish.source
      → s.bucket ≡ publish.bucket
      → bucket ≤ u64_max
      → apply_shard publish total (roll_to s bucket) ≡ roll_to (apply_shard publish total s) bucket
  late_reply_is_in_time e f h = elim (Bool-cases (leb bucket s.bucket)) [
    | inl old ↦
        ap (apply_shard publish total) (roll_to_same s bucket (ground arith))
        ∙ sym (roll_to_same (apply_shard publish total s) bucket (ground (arith, apply-bucket)))
    | inr newer ↦ elim (Bool-cases (bucket == s.bucket + 1)) [
      | inl next ↦ late_by_one e f h (ground arith)
      | inr more ↦ late_by_more e f h (ground arith)
    ]
  ]
