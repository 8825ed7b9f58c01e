-- ===== src/RateLimit/Shared/Passes.antt =====
-- The passes over the tracked keys, crates/lagos-core/src/ratelimit/shared.rs.
use lagos.Prelude.{
  ℕ, zero, suc, ◌-◌, ◌==◌, ◌≤◌, ◌<◌, ◌≡◌, ◌≢◌, refl, if◌then◌else◌, Bool, true, false, not, ◌&&◌,
  ◌||◌, List, [], ◌∷◌, ◌++◌, modify, length, take, drop, arith, ap, sym, ◌∙◌, Result, ok, err,
}
use lagos.Text.{is_empty}
use mathlib.Core.List.{append-nil}
use lagos.RateLimit.Shared.{
  roll_to, Totals, Publish, BackendError, Entry, Batch, SharedCounters, snapshot, current_pass,
  kept, pending_in, batch_of,
}
use lagos.RateLimit.Shared.Sync.{fail_sync, fold_reply, sync_batch, apply}

module _ {A : Type 0} where
  pub take-append-drop : (n : ℕ) (xs : List A) → take n xs ++ drop n xs ≡ xs
  take-append-drop zero xs = refl
  take-append-drop (suc n) [] = refl
  take-append-drop (suc n) (x ∷ xs) = ap (λ (ys : List A). x ∷ ys) (take-append-drop n xs)

  pub length-take : (n : ℕ) (xs : List A) → n ≤ length xs → length (take n xs) ≡ n
  length-take zero xs h = refl
  length-take (suc n) [] h = absurd (omega arith)
  length-take (suc n) (x ∷ xs) h = ap suc (length-take n xs (omega arith))

-- A snapshot changes cells only.
snapshot-keeps :
    (c : SharedCounters) (bucket : ℕ) (entries : List Entry)
    → (snapshot c bucket entries).1 ≡ record c { cells = (snapshot c bucket entries).1.cells }
unfolding snapshot
snapshot-keeps c bucket [] = refl
snapshot-keeps c bucket ((key, cell) ∷ entries) =
    snapshot-keeps (record c { cells = modify c.cells cell (λ s. roll_to s bucket) }) bucket entries

pending_in-pass :
    (c : SharedCounters) (bucket : ℕ)
    → (pending_in c bucket).0.pass ≡ take (kept c) (current_pass c)
unfolding pending_in batch_of
pending_in-pass c bucket =
    ap (λ (d : SharedCounters). d.pass) (snapshot-keeps _ bucket (drop (kept c) (current_pass c)))

pending_in-batch : (c : SharedCounters) (bucket : ℕ) → (pending_in c bucket).0.batch ≡ c.batch
unfolding pending_in batch_of
pending_in-batch c bucket =
    ap (λ (d : SharedCounters). d.batch) (snapshot-keeps _ bucket (drop (kept c) (current_pass c)))

pending_in-entries :
    (c : SharedCounters) (bucket : ℕ)
    → (pending_in c bucket).1.entries ≡ drop (kept c) (current_pass c)
unfolding pending_in batch_of
pending_in-entries c bucket = refl

abbrev IsFailure : Batch → Result (List Totals) BackendError → Type 0
IsFailure batch reply =
    (totals : List Totals) → reply ≡ ok totals → length totals ≢ length batch.publishes

fold_reply-fails :
    (c : SharedCounters) (batch : Batch) (reply : Result (List Totals) BackendError)
    → IsFailure batch reply
    → (fold_reply c batch reply).0 ≡ record c { pass = c.pass ++ batch.entries }
unfolding fold_reply fail_sync
fold_reply-fails c batch (err e) h = refl
fold_reply-fails c batch (ok totals) h =
    let differ : (length totals == length batch.publishes) ≡ false =
      ground (arith, h totals refl) in
    rw differ refl

pass_restored :
    (c : SharedCounters) (bucket : ℕ)
    → (pending_in c bucket).0.pass ++ (pending_in c bucket).1.entries ≡ current_pass c
pass_restored c bucket =
    rw (pending_in-pass c bucket, pending_in-entries c bucket)
      (take-append-drop (kept c) (current_pass c))

-- A tick that fails, by an error or by a reply of another length, puts its keys back: the next tick
-- starts from the pass that this one started from, and nothing else has changed since the snapshot.
pub failed_tick_owes_nothing :
    (c : SharedCounters) (bucket : ℕ) (reply : Result (List Totals) BackendError)
    → IsFailure (pending_in c bucket).1 reply
    → (fold_reply (pending_in c bucket).0 (pending_in c bucket).1 reply).0
      ≡ record (pending_in c bucket).0 { pass = current_pass c }
failed_tick_owes_nothing c bucket reply h =
    fold_reply-fails (pending_in c bucket).0 (pending_in c bucket).1 reply h
    ∙ ap (λ (p : List Entry). record (pending_in c bucket).0 { pass = p }) (pass_restored c bucket)

pub current_pass-nonempty : (c : SharedCounters) → c.pass ≢ [] → current_pass c ≡ c.pass
unfolding current_pass
current_pass-nonempty c h = nonempty c.pass h
  where
    nonempty : (pass : List Entry) → pass ≢ [] → (if is_empty pass then c.shards else pass) ≡ pass
    nonempty [] h = absurd (h refl)
    nonempty (e ∷ es) h = refl

pub length_pos : (xs : List Entry) → xs ≢ [] → 0 < length xs
length_pos [] h = absurd (h refl)
length_pos (x ∷ xs) h = omega arith

length-kept : (c : SharedCounters) → kept c ≡ length (current_pass c) - c.batch
unfolding kept
length-kept c = refl

left_over :
    (c : SharedCounters) (bucket : ℕ)
    → length (pending_in c bucket).0.pass ≡ length (current_pass c) - c.batch
left_over c bucket =
    ap length (pending_in-pass c bucket)
    ∙ length-take (kept c) (current_pass c) (rw (length-kept c) (omega arith))
    ∙ length-kept c

abbrev pub is_answered : Batch → Result (List Totals) BackendError → Bool
is_answered batch (ok totals) = length totals == length batch.publishes
is_answered batch (err e) = false

-- The tick has keys to publish, and they are answered.
abbrev pub carries : (List Publish → Result (List Totals) BackendError) → Batch → Bool
carries reconcile batch =
    not (is_empty batch.entries)
    && (is_empty batch.publishes || is_answered batch (reconcile batch.publishes))

module _ (c : SharedCounters) (batch : Batch) where
  either : Bool → Result (List Totals) BackendError → SharedCounters
  either none_sent reply = (if none_sent then (c, true) else fold_reply c batch reply).0

  either-batch :
      (none_sent : Bool) (reply : Result (List Totals) BackendError)
      → (either none_sent reply).batch ≡ c.batch
  unfolding either fold_reply fail_sync apply
  either-batch true reply = refl
  either-batch false (err e) = refl
  either-batch false (ok totals) = ground arith

  either-pass :
      (none_sent : Bool) (reply : Result (List Totals) BackendError)
      → (none_sent || is_answered batch reply) ≡ true
      → (either none_sent reply).pass ≡ c.pass
  unfolding either fold_reply fail_sync apply
  either-pass true reply h = refl
  either-pass false (err e) h = absurd cc
  either-pass false (ok totals) h = ground arith

  either_back :
      (none_sent empty : Bool) (reply : Result (List Totals) BackendError)
      → (not empty && (none_sent || is_answered batch reply)) ≡ false
      → (empty ≡ true → batch.entries ≡ [])
      → (either none_sent reply).pass ≡ c.pass ++ batch.entries
  unfolding either fold_reply fail_sync apply
  either_back true true reply h f = rw (f refl) (sym (append-nil c.pass))
  either_back true false reply h f = absurd cc
  either_back false empty (err e) h f = refl
  either_back false true (ok totals) h f = ground (arith, f refl, append-nil c.pass)
  either_back false false (ok totals) h f = ground arith

empty_lem : (xs : List Entry) → is_empty xs ≡ true → xs ≡ []
empty_lem [] h = refl
empty_lem (x ∷ xs) h = absurd cc

sync_batch-either :
    (reconcile : List Publish → Result (List Totals) BackendError) (r : SharedCounters × Batch)
    → (sync_batch reconcile r).0 ≡ either r.0 r.1 (is_empty r.1.publishes) (reconcile r.1.publishes)
unfolding sync_batch either
sync_batch-either reconcile (c, batch) = ground arith

-- What a tick that carries keys does to a pass.
pub record Steps (c d : SharedCounters) (entries : List Entry) : Type 0 where
  pub batch : d.batch ≡ c.batch
  pub whole : d.pass ++ entries ≡ current_pass c
  pub fewer : length d.pass ≡ length (current_pass c) - c.batch

pub carried-Steps :
    (reconcile : List Publish → Result (List Totals) BackendError) (c : SharedCounters) (bucket : ℕ)
    → carries reconcile (pending_in c bucket).1 ≡ true
    → Steps c (sync_batch reconcile (pending_in c bucket)).0 (pending_in c bucket).1.entries
carried-Steps reconcile c bucket h =
    let r = pending_in c bucket in
    let answer = reconcile r.1.publishes in
    let kept_pass : (sync_batch reconcile r).0.pass ≡ r.0.pass =
      ap (λ (d : SharedCounters). d.pass) (sync_batch-either reconcile r)
      ∙ either-pass r.0 r.1 (is_empty r.1.publishes) answer (ground (arith, h)) in
    record {
      batch =
          ap (λ (d : SharedCounters). d.batch) (sync_batch-either reconcile r)
          ∙ either-batch r.0 r.1 (is_empty r.1.publishes) answer
          ∙ pending_in-batch c bucket;
      whole = ap (λ (p : List Entry). p ++ r.1.entries) kept_pass ∙ pass_restored c bucket;
      fewer = ap length kept_pass ∙ left_over c bucket;
    }

-- What another tick does to a pass that is not empty.
abbrev pub Waits : SharedCounters → SharedCounters → Type 0
Waits c d = (d.batch ≡ c.batch) × (current_pass d ≡ current_pass c)

pub failed-Waits :
    (reconcile : List Publish → Result (List Totals) BackendError) (c : SharedCounters) (bucket : ℕ)
    → current_pass c ≢ []
    → carries reconcile (pending_in c bucket).1 ≡ false
    → Waits c (sync_batch reconcile (pending_in c bucket)).0
failed-Waits reconcile c bucket some_tracked h =
    let r = pending_in c bucket in
    let answer = reconcile r.1.publishes in
    let d = (sync_batch reconcile r).0 in
    let back : d.pass ≡ current_pass c =
      ap (λ (d : SharedCounters). d.pass) (sync_batch-either reconcile r)
      ∙ either_back r.0 r.1 (is_empty r.1.publishes) (is_empty r.1.entries) answer h
          (empty_lem r.1.entries)
      ∙ pass_restored c bucket in
    (
      ap (λ (d : SharedCounters). d.batch) (sync_batch-either reconcile r)
          ∙ either-batch r.0 r.1 (is_empty r.1.publishes) answer
          ∙ pending_in-batch c bucket,
      current_pass-nonempty d (λ e. some_tracked (sym back ∙ e)) ∙ back,
    )
