-- ===== src/RateLimit/Shared/Sync.antt =====
-- Folding a reply into the shards, and one tick, crates/lagos-core/src/ratelimit/shared.rs.
-- The backend is its answer, `reply`; what requests do between the snapshot and the answer happens
-- to the counters that `fold_reply` gets.
use lagos.Prelude.{
  ℕ, ◌-◌, ◌==◌, if◌then◌else◌, Bool, true, false, not, Option, List, [], ◌∷◌, ◌++◌, length, modify,
  saturating_add, u64_max, Result, ok, err,
}
use lagos.Text.{is_empty, codes}
use lagos.RateLimit.{Float}
use lagos.RateLimit.Shared.{
  Shard, Publish, Totals, BackendError, unavailable, timeout, protocol, Batch, SharedCounters,
  Entry, pending,
}

-- What is folded into one shard.
unfoldable pub apply_shard : Publish → Totals → Shard → Shard
apply_shard publish total s =
    if not (s.source == publish.source)
    then s
    else if s.bucket == saturating_add u64_max publish.bucket 1
    then record s { remote_previous = total.current - publish.own_current }
    else if not (s.bucket == publish.bucket)
    then s
    else record s {
      remote_current = total.current - publish.own_current;
      remote_previous = total.previous - publish.own_previous;
    }

-- `zip` of the publishes, the entries and the totals.
unfoldable pub apply_all : List Publish → List Entry → List Totals → List Shard → List Shard
unfolding apply_shard
apply_all (p ∷ ps) ((key, cell) ∷ es) (t ∷ ts) cells =
    apply_all ps es ts (modify cells cell (apply_shard p t))
apply_all [] es ts cells = cells
apply_all (p ∷ ps) [] ts cells = cells
apply_all (p ∷ ps) (e ∷ es) [] cells = cells

-- `SharedCounters::apply`
unfoldable pub apply : SharedCounters → Batch → List Totals → SharedCounters
unfolding apply_all
apply c batch totals =
    if length batch.publishes == length totals
    then record c { cells = apply_all batch.publishes batch.entries totals c.cells }
    else c

-- `!matches!(error, Unavailable | Timeout)`
unfoldable pub still_reachable : BackendError → Bool
still_reachable (unavailable e) = false
still_reachable (timeout budget) = false
still_reachable (protocol e) = true

unfoldable pub fail_sync : SharedCounters → Batch → BackendError → SharedCounters × Bool
unfolding still_reachable
fail_sync c batch error = (record c { pass = c.pass ++ batch.entries }, still_reachable error)

-- `sync_once` from the answer of the backend on.
unfoldable pub fold_reply :
    SharedCounters → Batch → Result (List Totals) BackendError → SharedCounters × Bool
unfolding apply fail_sync
fold_reply c batch (ok totals) =
    if length totals == length batch.publishes
    then (apply c batch totals, true)
    else fail_sync c batch (protocol (codes "misaligned reconciliation"))
fold_reply c batch (err error) = fail_sync c batch error

unfoldable pub sync_batch :
    (List Publish → Result (List Totals) BackendError)
    → SharedCounters × Batch
    → SharedCounters × Bool
unfolding fold_reply
sync_batch reconcile (c, batch) =
    if is_empty batch.publishes then (c, true) else fold_reply c batch (reconcile batch.publishes)

-- `SharedCounters::sync_once`, where nothing comes between.
unfoldable pub sync_once :
    Float
    → (List Publish → Result (List Totals) BackendError)
    → SharedCounters
    → Option ℕ
    → SharedCounters × Bool
unfolding sync_batch pending
sync_once fl reconcile c now = sync_batch reconcile (pending fl c now)
