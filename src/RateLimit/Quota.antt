-- ===== src/RateLimit/Quota.antt =====
-- How many requests one key's window admits, crates/lagos-core/src/ratelimit/mod.rs.
use lagos.Prelude.{
  ℕ, ◌+◌, ◌-◌, ◌≤◌, ◌<◌, ◌≡◌, refl, sym, ap, leb, if◌then◌else◌, Bool, true, false, List, [], ◌∷◌,
  All, Bool-cases, inl, inr, arith, u64_max, nanos_per_sec, duration_max, duration_mul, subst,
  if_cases,
}
use lagos.RateLimit.{
  Float, Decision, Window, zero_f, one_f, interval_secs, estimated, retry_of, decide_at, decide,
  roll, progress_of, counted, count_one, check,
}

-- What IEEE 754 says of the operations, where `ge x x` is the test that `x` is a number.
pub record IsIeee (fl : Float) : Type 0 where
  pub of_u64_mono : (a b : ℕ) → b ≤ a → fl.ge (fl.of_u64 a) (fl.of_u64 b) ≡ true
  pub ge_trans : (x y z : fl.F) → fl.ge x y ≡ true → fl.ge y z ≡ true → fl.ge x z ≡ true
  pub add_nonneg :
      (x y : fl.F)
      → fl.ge x (zero_f fl) ≡ true
      → fl.ge y (zero_f fl) ≡ true
      → fl.ge (fl.add x y) y ≡ true
  pub mul_nonneg :
      (n : ℕ) (x : fl.F)
      → fl.ge x (zero_f fl) ≡ true
      → fl.ge (one_f fl) x ≡ true
      → fl.ge (fl.mul (fl.of_u64 n) x) (zero_f fl) ≡ true
  pub complement_nonneg :
      (x : fl.F)
      → fl.ge x x ≡ true
      → fl.ge (fl.sub (one_f fl) (fl.clamp x (zero_f fl) (one_f fl))) (zero_f fl) ≡ true
  pub complement_le_one :
      (x : fl.F)
      → fl.ge x x ≡ true
      → fl.ge (one_f fl) (fl.sub (one_f fl) (fl.clamp x (zero_f fl) (one_f fl))) ≡ true
  pub clamp_number :
      (x : fl.F) → fl.ge x x ≡ true → let c = fl.clamp x (zero_f fl) (one_f fl) in fl.ge c c ≡ true
  pub quotient_number :
      (e i : ℕ)
      → let q = fl.div (fl.as_secs e) (fl.larger (fl.as_secs i) fl.min_positive) in fl.ge q q ≡ true
  pub larger_ge : (x : fl.F) → fl.ge (fl.larger x (one_f fl)) (one_f fl) ≡ true
  pub from_secs_ceil :
      (x : fl.F) → fl.ge x (one_f fl) ≡ true → nanos_per_sec ≤ fl.from_secs (fl.ceil x)

module _ (fl : Float) (ieee : IsIeee fl) where
  progress-number :
      (elapsed interval : ℕ)
      → fl.ge (progress_of fl elapsed interval) (progress_of fl elapsed interval) ≡ true
  unfolding progress_of interval_secs
  progress-number elapsed interval = ieee.clamp_number _ (ieee.quotient_number elapsed interval)

  -- The estimate counts the current window in full.
  estimated-ge :
      (previous current : ℕ) (progress : fl.F)
      → fl.ge progress progress ≡ true
      → fl.ge
          (estimated fl previous current (fl.clamp progress (zero_f fl) (one_f fl)))
          (fl.of_u64 current)
        ≡ true
  unfolding estimated
  estimated-ge previous current progress h =
      ieee.add_nonneg _ (fl.of_u64 current)
        (ieee.mul_nonneg previous _ (ieee.complement_nonneg progress h)
          (ieee.complement_le_one progress h))
        (ieee.of_u64_mono current 0 (omega arith))

  pub refused_at_limit :
      (previous current limit interval : ℕ) (progress : fl.F)
      → fl.ge progress progress ≡ true
      → limit ≤ current
      → (decide fl previous current progress limit interval).allowed ≡ false
  unfolding decide decide_at
  refused_at_limit previous current limit interval progress h l =
      let full =
        ieee.ge_trans _ _ _ (estimated-ge previous current progress h)
          (ieee.of_u64_mono current limit l) in
      rw full refl

-- What a decision takes out of the quota.
abbrev pub spent : Decision → ℕ
spent d = if d.allowed then 1 else 0

-- Checks of one key at the given moments, in the order in which they take the window's lock, and
-- how many of them are admitted.
unfoldable pub admitted : Float → ℕ → ℕ → Window → List ℕ → ℕ
unfolding check
admitted fl limit interval w [] = 0
admitted fl limit interval w (now ∷ later) =
    let r = check fl w now limit interval in spent r.1 + admitted fl limit interval r.0 later

-- The outcome `r` counts what it spends into the window `w`, which stays within the limit.
pub record Counts (limit : ℕ) (w : Window) (r : Window × Decision) : Type 0 where
  pub start : r.0.start ≡ w.start
  pub current : r.0.current ≡ w.current + spent r.1
  pub within : r.0.current ≤ limit

counted-Counts :
    (limit : ℕ) (w : Window) (d : Decision)
    → limit ≤ u64_max
    → w.current ≤ limit
    → (limit ≤ w.current → d.allowed ≡ false)
    → Counts limit w (counted w d)
unfolding counted
counted-Counts limit w d word h full = elim (Bool-cases d.allowed) [
  | inl e ↦
      let room : w.current < limit = ground (arith, full) in
      if_cases (Counts limit w) _ _ d.allowed
        (λ k. record {
          start = refl;
          current = rw k (omega (arith, room, word));
          within = omega (arith, room, word);
        })
        (λ k. absurd (cc))
  | inr e ↦
      if_cases (Counts limit w) _ _ d.allowed (λ k. absurd (cc))
        (λ k. record { start = refl; current = rw k (omega arith); within = h })
]

module _ (fl : Float) (ieee : IsIeee fl) (limit interval : ℕ) (word : limit ≤ u64_max) where
  pub count_one-Counts :
      (w : Window) (elapsed : ℕ)
      → w.current ≤ limit
      → Counts limit w (count_one fl w elapsed limit interval)
  unfolding count_one
  count_one-Counts w elapsed h =
      let progress = progress_of fl elapsed interval in
      counted-Counts limit w (decide fl w.previous w.current progress limit interval) word h (
        refused_at_limit fl ieee w.previous w.current limit interval progress
          (progress-number fl ieee elapsed interval))

  roll_within :
      (w : Window) (now : ℕ)
      → interval ≤ duration_max
      → now - w.start < interval
      → roll w now interval ≡ (w, now - w.start)
  unfolding roll
  roll_within w now d h =
      let far : leb (duration_mul interval 2) (now - w.start) ≡ false = ground arith in
      let near : leb interval (now - w.start) ≡ false = ground arith in rw (far, near) refl

  pub check_within :
      (w : Window) (now : ℕ)
      → interval ≤ duration_max
      → now - w.start < interval
      → check fl w now limit interval ≡ count_one fl w (now - w.start) limit interval
  unfolding check
  check_within w now d h =
      ap (λ (r : Window × ℕ). count_one fl r.0 r.1 limit interval) (roll_within w now d h)

  -- However many checks of a key come within one interval of its window's start, at whatever
  -- moments: those admitted are, with those that were counted before, at most the limit.
  pub quota_is_kept :
      (w : Window) (times : List ℕ)
      → interval ≤ duration_max
      → w.current ≤ limit
      → All (λ now. now - w.start < interval) times
      → w.current + admitted fl limit interval w times ≤ limit
  unfolding admitted
  quota_is_kept w [] d h ts = omega (arith, h)
  quota_is_kept w (now ∷ later) d h (t, ts) =
      let r = count_one fl w (now - w.start) limit interval in
      let c = count_one-Counts w (now - w.start) h in
      let rest =
        quota_is_kept r.0 later d c.within
          (subst (λ (s : ℕ). All (λ n. n - s < interval) later) (sym c.start) ts) in
      rw (check_within w now d t) (omega (arith, rest, c.current))

-- The client of a refused request waits for a second or more, that of an admitted one not at all.
abbrev pub TellsToWait : Decision → Type 0
TellsToWait d = if d.allowed then d.retry_after ≡ 0 else nanos_per_sec ≤ d.retry_after

counted-snd : (w : Window) (d : Decision) → (counted w d).1 ≡ d
unfolding counted
counted-snd w d =
    if_cases (λ (r : Window × Decision). r.1 ≡ d) _ (w, d) d.allowed (λ e. refl) (λ e. refl)

either-TellsToWait :
    (b : Bool) (limit remaining wait : ℕ)
    → nanos_per_sec ≤ wait
    → TellsToWait (
        if b
        then record { allowed = false; limit = limit; remaining = 0; retry_after = wait }
        else record { allowed = true; limit = limit; remaining = remaining; retry_after = 0 })
either-TellsToWait true limit remaining wait h = h
either-TellsToWait false limit remaining wait h = refl

module _ (fl : Float) (ieee : IsIeee fl) where
  decide-TellsToWait :
      (previous current limit interval : ℕ) (progress : fl.F)
      → TellsToWait (decide fl previous current progress limit interval)
  unfolding decide decide_at retry_of
  decide-TellsToWait previous current limit interval progress =
      either-TellsToWait
        (fl.ge (estimated fl previous current (fl.clamp progress (zero_f fl) (one_f fl)))
          (fl.of_u64 limit))
        limit _ _ (ieee.from_secs_ceil _ (ieee.larger_ge _))

  pub check-TellsToWait :
      (w : Window) (now limit interval : ℕ) → TellsToWait (check fl w now limit interval).1
  unfolding check count_one
  check-TellsToWait w now limit interval =
      rw (counted-snd (roll w now interval).0 _) (decide-TellsToWait _ _ limit interval _)
