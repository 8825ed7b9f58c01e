-- ===== src/RateLimit/Shared.antt =====
-- Counters that replicas share, crates/lagos-core/src/ratelimit/shared.rs.
-- A shard behind its `Arc` is a cell, named by its address, so that an entry of a batch and the store
-- name the same one. The store is the list of what it tracks, in the order in which it is walked; a
-- key that moka evicts is not in it any more. A `Uuid` is a number, the wall clock the nanoseconds
-- since the epoch, `none` before it.
pub mod Sync
pub mod Late
pub mod Passes
pub mod Ticks
pub mod Replica
use lagos.Prelude.{
  ℕ, suc, ◌+◌, ◌-◌, ◌/◌, ◌%◌, ◌==◌, leb, if◌then◌else◌, Bool, true, false, not, ◌&&◌, Option, none,
  some, List, [], ◌∷◌, ◌++◌, map, length, get_elem?, modify, take, drop, saturating_add, u64_max,
  Result, ok, err,
}
use lagos.Text.{Text, is_empty, text_eq}
use lagos.RateLimit.{Float, Decision, allow, decide, zero_f, one_f}

module _ (fl : Float) where
  unfoldable pub position_at : ℕ → ℕ → Option (ℕ × fl.F)
  position_at elapsed width =
      if width == 0
      then none
      else if leb (elapsed / width) u64_max
      then some (
        elapsed / width,
        fl.clamp (fl.div (fl.of_u64 (elapsed % width)) (fl.of_u64 width)) (zero_f fl) (one_f fl),
      )
      else none

  unfoldable pub position : Option ℕ → ℕ → Option (ℕ × fl.F)
  unfolding position_at
  position none interval = none
  position (some elapsed) interval = position_at elapsed interval

pub record Shard : Type 0 where
  pub source : ℕ
  pub bucket : ℕ
  pub own_current : ℕ
  pub own_previous : ℕ
  pub remote_current : ℕ
  pub remote_previous : ℕ

-- `Shard { source, ..Shard::default() }`
unfoldable pub new_shard : ℕ → Shard
new_shard source = record {
  source = source;
  bucket = 0;
  own_current = 0;
  own_previous = 0;
  remote_current = 0;
  remote_previous = 0;
}

unfoldable pub roll_to : Shard → ℕ → Shard
roll_to s bucket =
    if leb bucket s.bucket
    then s
    else if bucket == saturating_add u64_max s.bucket 1
    then record s {
      bucket = bucket;
      own_current = 0;
      own_previous = s.own_current;
      remote_current = 0;
      remote_previous = s.remote_current;
    }
    else record s {
      bucket = bucket;
      own_current = 0;
      own_previous = 0;
      remote_current = 0;
      remote_previous = 0;
    }

pub record Publish : Type 0 where
  pub source : ℕ
  pub key : Text
  pub bucket : ℕ
  pub own_current : ℕ
  pub own_previous : ℕ
  pub interval : ℕ

pub record Totals : Type 0 where
  pub current : ℕ
  pub previous : ℕ

pub data BackendError : Type 0 where
  unavailable : Text → BackendError
  timeout : ℕ → BackendError
  protocol : Text → BackendError

abbrev pub Entry : Type 0
Entry = Text × ℕ

pub record Batch : Type 0 where
  pub publishes : List Publish
  pub entries : List Entry

pub record SharedCounters : Type 0 where
  pub shards : List Entry
  pub cells : List Shard
  pub prefix : Text
  pub interval : ℕ
  pub limit : ℕ
  pub batch : ℕ
  pub pass : List Entry

-- What `check_at` does under the lock of the shard, once it is rolled.
unfoldable pub count_own : Shard → Decision → Shard × Decision
count_own s decision =
    if decision.allowed
    then (record s { own_current = saturating_add u64_max s.own_current 1 }, decision)
    else (s, decision)

module _ (fl : Float) where
  unfoldable pub check_shard : Shard → ℕ × fl.F → ℕ → ℕ → Shard × Decision
  unfolding roll_to count_own
  check_shard shard (bucket, progress) limit interval =
      let s = roll_to shard bucket in
      count_own s (
        decide fl (saturating_add u64_max s.own_previous s.remote_previous)
          (saturating_add u64_max s.own_current s.remote_current) progress limit interval)

-- The cell of a tracked key, and `get_with_by_ref`, which adds a new cell for another key.
unfoldable pub find_cell : List Entry → Text → Option ℕ
find_cell [] key = none
find_cell ((k, cell) ∷ rest) key =
    let found = find_cell rest key in if text_eq k key then some cell else found

unfoldable pub get_with : SharedCounters → Text → ℕ → SharedCounters × ℕ
unfolding find_cell new_shard
get_with c key fresh = elim (find_cell c.shards key) [
  | some cell ↦ (c, cell)
  | none ↦ (
    record c {
      shards = c.shards ++ (key, length c.cells) ∷ [];
      cells = c.cells ++ new_shard fresh ∷ [];
    },
    length c.cells,
  )
]

module _ (fl : Float) where
  -- The decision at a cell, which is there for every address that the store holds.
  unfoldable pub check_cell :
      SharedCounters → ℕ → ℕ × fl.F → Option Shard → SharedCounters × Decision
  unfolding check_shard allow
  check_cell c cell at_now none = (c, allow c.limit (c.limit - 1))
  check_cell c cell at_now (some shard) =
      let r = check_shard fl shard at_now c.limit c.interval in
      (record c { cells = modify c.cells cell (λ s. r.0) }, r.1)

  unfoldable pub check_key :
      SharedCounters → Text → ℕ → Option (ℕ × fl.F) → SharedCounters × Decision
  unfolding get_with check_cell allow
  check_key c key fresh none = (c, allow c.limit (c.limit - 1))
  check_key c key fresh (some at_now) =
      let g = get_with c key fresh in check_cell g.0 g.1 at_now (get_elem? g.0.cells g.1)

  -- `SharedCounters::check_at`, where `fresh` is what `Uuid::new_v4` gives.
  unfoldable pub check_at : SharedCounters → Text → Option ℕ → ℕ → SharedCounters × Decision
  unfolding check_key position
  check_at c key now fresh = check_key c key fresh (position fl now c.interval)

unfoldable pub cache_key : SharedCounters → Text → Text
cache_key c key = c.prefix ++ key

unfoldable pub publish_of : SharedCounters → Text → Shard → Publish
unfolding cache_key
publish_of c key s = record {
  source = s.source;
  key = cache_key c key;
  bucket = s.bucket;
  own_current = s.own_current;
  own_previous = s.own_previous;
  interval = c.interval;
}

unfoldable pub snapshot_of : SharedCounters → Text → Option Shard → List Publish → List Publish
unfolding publish_of
snapshot_of c key none rest = rest
snapshot_of c key (some s) rest = publish_of c key s ∷ rest

-- The snapshot of the entries of a batch, each shard rolled before it is read.
unfoldable pub snapshot : SharedCounters → ℕ → List Entry → List Publish × SharedCounters
unfolding roll_to snapshot_of
snapshot c bucket [] = ([], c)
snapshot c bucket ((key, cell) ∷ entries) =
    let rolled = record c { cells = modify c.cells cell (λ s. roll_to s bucket) } in
    let rest = snapshot rolled bucket entries in
    (snapshot_of c key (get_elem? rolled.cells cell) rest.0, rest.1)

-- The pass that a tick goes on with, and the number of entries that it leaves.
unfoldable pub current_pass : SharedCounters → List Entry
current_pass c = if is_empty c.pass then c.shards else c.pass

unfoldable pub kept : SharedCounters → ℕ
unfolding current_pass
kept c = length (current_pass c) - c.batch

unfoldable pub batch_of : List Entry → List Publish × SharedCounters → SharedCounters × Batch
batch_of entries (publishes, c) = (c, record { publishes = publishes; entries = entries })

-- `SharedCounters::pending` in the bucket that the clock gives.
unfoldable pub pending_in : SharedCounters → ℕ → SharedCounters × Batch
unfolding kept current_pass snapshot batch_of
pending_in c bucket =
    let entries = drop (kept c) (current_pass c) in
    batch_of entries (snapshot (record c { pass = take (kept c) (current_pass c) }) bucket entries)

module _ (fl : Float) where
  unfoldable pub pending_at : SharedCounters → Option (ℕ × fl.F) → SharedCounters × Batch
  unfolding pending_in
  pending_at c none = (c, record { publishes = []; entries = [] })
  pending_at c (some (bucket, progress)) = pending_in c bucket

  unfoldable pub pending : SharedCounters → Option ℕ → SharedCounters × Batch
  unfolding pending_at position
  pending c now = pending_at c (position fl now c.interval)
