-- ===== src/RateLimit/Shared/Ticks.antt =====
-- The ticks of the synchronization, one after the other, crates/lagos-core/src/ratelimit/shared.rs.
use lagos.Prelude.{
  ℕ, suc, ◌≤◌, ◌<◌, ◌≡◌, ◌≢◌, refl, if◌then◌else◌, Bool, true, false, Bool-cases, inl, inr, Option,
  none, some, List, [], ◌∷◌, ◌++◌, length, arith, ap, sym, ◌∙◌, Result,
}
use lagos.RateLimit.{Float}
use lagos.RateLimit.Shared.{
  Totals, Publish, pending, pending_at, position, BackendError, Entry, Batch, SharedCounters,
  current_pass,
}
use lagos.RateLimit.Shared.Sync.{sync_batch, sync_once}
use lagos.RateLimit.Shared.Passes.{
  current_pass-nonempty, length_pos, carries, Steps, Waits, carried-Steps, failed-Waits,
}

-- The entries of the batches of a pass, those of a later tick in front; `none` if the ticks do not
-- suffice.
in_front : List Entry → Option (List Entry) → Option (List Entry)
in_front entries none = none
in_front entries (some visited) = some (visited ++ entries)

through : List Entry → List Entry → Option (List Entry) → Option (List Entry)
unfolding in_front
through [] entries later = some entries
through (e ∷ es) entries later = in_front entries later

through_lem :
    (pass entries whole : List Entry) (later : Option (List Entry))
    → pass ++ entries ≡ whole
    → (pass ≢ [] → later ≡ some pass)
    → through pass entries later ≡ some whole
unfolding through
through_lem [] entries whole later e h = ap some e
through_lem (x ∷ xs) entries whole later e h = rw (h (λ k. cc)) (ap some e)

-- What the clock of a tick reads, `none` before the epoch, and what the backend would answer.
abbrev pub Tick : Type 0
Tick = Option ℕ × (List Publish → Result (List Totals) BackendError)

module _ (fl : Float) where
  -- The counters after a tick that the backend answers like this.
  abbrev tick : SharedCounters → Tick → SharedCounters
  tick c (now, reconcile) = (sync_once fl reconcile c now).0

  abbrev sent : SharedCounters → Tick → Batch
  sent c (now, reconcile) = (pending fl c now).1

  abbrev is_carried : SharedCounters → Tick → Bool
  is_carried c t = carries t.1 (sent c t)

  -- How many of the ticks carry keys.
  unfoldable pub carried : SharedCounters → List Tick → ℕ
  carried c [] = 0
  carried c (t ∷ later) =
      let rest = carried (tick c t) later in if is_carried c t then suc rest else rest

  -- Ticks until a pass is through, and the entries of the batches that were answered.
  unfoldable pub finish_pass : SharedCounters → List Tick → Option (List Entry)
  unfolding through
  finish_pass c [] = none
  finish_pass c (t ∷ later) =
      let rest = finish_pass (tick c t) later in
      if is_carried c t then through (tick c t).pass (sent c t).entries rest else rest

  tick-Steps :
      (c : SharedCounters) (t : Tick)
      → is_carried c t ≡ true
      → Steps c (tick c t) (sent c t).entries
  unfolding sync_once pending pending_at
  tick-Steps c (now, reconcile) h = at_position (position fl now c.interval) h
    where
      at_position :
          (p : Option (ℕ × fl.F))
          → carries reconcile (pending_at fl c p).1 ≡ true
          → Steps c (sync_batch reconcile (pending_at fl c p)).0 (pending_at fl c p).1.entries
      at_position none h = absurd cc
      at_position (some (bucket, progress)) h = carried-Steps reconcile c bucket h

  tick-Waits :
      (c : SharedCounters) (t : Tick)
      → current_pass c ≢ []
      → is_carried c t ≡ false
      → Waits c (tick c t)
  unfolding sync_once pending pending_at sync_batch
  tick-Waits c (now, reconcile) some_tracked h = at_position (position fl now c.interval) h
    where
      at_position :
          (p : Option (ℕ × fl.F))
          → carries reconcile (pending_at fl c p).1 ≡ false
          → Waits c (sync_batch reconcile (pending_at fl c p)).0
      at_position none h = (refl, refl)
      at_position (some (bucket, progress)) h = failed-Waits reconcile c bucket some_tracked h

  carried-cons :
      (c : SharedCounters) (t : Tick) (later : List Tick) (b : Bool)
      → is_carried c t ≡ b
      → carried c (t ∷ later)
        ≡ (if b then suc (carried (tick c t) later) else carried (tick c t) later)
  unfolding carried
  carried-cons c t later b e = rw e refl

  finish_pass-cons :
      (c : SharedCounters) (t : Tick) (later : List Tick) (b : Bool)
      → is_carried c t ≡ b
      → finish_pass c (t ∷ later) ≡ (
          if b
          then through (tick c t).pass (sent c t).entries (finish_pass (tick c t) later)
          else finish_pass (tick c t) later)
  unfolding finish_pass
  finish_pass-cons c t later b e = rw e refl

  -- With batches of one key or more, and a key that is tracked, a pass visits every key that was
  -- tracked when it started exactly once, in answered batches, and ends after as many ticks that carry
  -- keys as it has keys at the latest. The ticks follow on each other; any may fail, by an error or by
  -- a reply of another length, or read no clock.
  pub pass_visits_all :
      (c : SharedCounters) (ticks : List Tick)
      → 0 < c.batch
      → current_pass c ≢ []
      → length (current_pass c) ≤ carried c ticks
      → finish_pass c ticks ≡ some (current_pass c)
  pass_visits_all c [] b k h =
      let none_carried : carried c [] ≡ 0 = unfold carried in refl in
      absurd (omega (arith, none_carried, h, length_pos (current_pass c) k))
  pass_visits_all c (t ∷ later) b k h = elim (Bool-cases (is_carried c t)) [
    | inl e ↦
        let s = tick-Steps c t e in
        let d = tick c t in
        finish_pass-cons c t later true e
        ∙ through_lem d.pass (sent c t).entries (current_pass c) (finish_pass d later) s.whole
            (λ some_left.
              let same = current_pass-nonempty d some_left in
              pass_visits_all d later (rw s.batch b) (λ n. some_left (sym same ∙ n))
                (omega (
                  arith,
                  ap length same,
                  s.fewer,
                  carried-cons c t later true e,
                  h,
                  b,
                  length_pos d.pass some_left,
                ))
              ∙ ap some same)
    | inr e ↦
        let w = tick-Waits c t k e in
        let d = tick c t in
        finish_pass-cons c t later false e
        ∙ pass_visits_all d later (rw w.0 b) (λ n. k (sym w.1 ∙ n))
            (omega (arith, ap length w.1, carried-cons c t later false e, h))
        ∙ ap some w.1
  ]
