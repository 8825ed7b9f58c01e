-- ===== src/Cache/Budget.antt =====
-- The fill budget of cache/storage.rs, under fills that interleave.
use lagos.Prelude.{
  ℕ, zero, suc, ◌+◌, ◌≡◌, ◌≤◌, refl, sym, Option, some, List, [], ◌∷◌, All, length, get_elem?,
  Option-cases, inl, inr, arith, if_cases, subst,
}
use lagos.Cache.{Bytes, Entry, MemoryStorage, Miss, get_miss_handler, drop_miss, write_body, finish}
use lagos.Cache.Fills.{
  Call, start, write, give_up, finish_fill, Filling, removed, replaced, buffered, call, calls,
  IsBounded,
}
use lagos.Cache.Writing.{Settled, release-Settled, write_body-Settled, write_body-cap}

buffered_at :
    (ms : List Miss) (n : ℕ) (m : Miss)
    → get_elem? ms n ≡ some m
    → buffered ms ≡ length m.body + buffered (removed n ms)
unfolding buffered
buffered_at [] n m h = cc
buffered_at (x ∷ ms) zero m h = ground arith
buffered_at (x ∷ ms) (suc n) m h = omega (arith, buffered_at ms n m h)

buffered-replaced :
    (ms : List Miss) (n : ℕ) (m x : Miss)
    → get_elem? ms n ≡ some m
    → buffered (replaced n x ms) ≡ length x.body + buffered (removed n ms)
unfolding buffered
buffered-replaced [] n m x h = cc
buffered-replaced (y ∷ ms) zero m x h = refl
buffered-replaced (y ∷ ms) (suc n) m x h = omega (arith, buffered-replaced ms n m x h)

module _ (P : Miss → Type 0) where
  All-removed : (n : ℕ) (ms : List Miss) → All P ms → All P (removed n ms)
  All-removed n [] h = tt
  All-removed zero (m ∷ ms) (h, hs) = hs
  All-removed (suc n) (m ∷ ms) (h, hs) = (h, All-removed n ms hs)

  All-replaced : (n : ℕ) (x : Miss) (ms : List Miss) → P x → All P ms → All P (replaced n x ms)
  All-replaced n x [] p h = tt
  All-replaced zero x (m ∷ ms) p (h, hs) = (p, hs)
  All-replaced (suc n) x (m ∷ ms) p (h, hs) = (h, All-replaced n x ms p hs)

-- Putting the fill back, or taking it out, settles the whole.
module _ {Cache : Type 0} (f : Filling Cache) (b : IsBounded f) (n : ℕ) (m : Miss)
    (there : get_elem? f.fills n ≡ some m) where
  held : length m.body ≤ f.storage.filling
  held = omega (arith, buffered_at f.fills n m there, b.counted)

  cap_of : (P : Miss → Type 0) (ms : List Miss) (k : ℕ) → All P ms → get_elem? ms k ≡ some m → P m
  cap_of P [] k h e = cc
  cap_of P (x ∷ ms) zero (p, h) e = let same : x ≡ m = ground arith in subst P same p
  cap_of P (x ∷ ms) (suc k) (p, h) e = cap_of P ms k h e

  replaced-IsBounded :
      (storage : MemoryStorage Cache) (x : Miss)
      → Settled f.storage storage (length m.body) (length x.body)
      → length x.body ≤ f.storage.max_object_bytes
      → IsBounded (record { storage = storage; fills = replaced n x f.fills })
  replaced-IsBounded storage x s cap = record {
    counted = omega (
      arith,
      buffered_at f.fills n m there,
      buffered-replaced f.fills n m x there,
      b.counted,
      s.count,
    );
    within = rw s.limit s.kept;
    machine = rw s.limit b.machine;
    each =
        subst (λ (c : ℕ). All (λ y. length y.body ≤ c) (replaced n x f.fills)) (sym s.cap)
          (All-replaced (λ y. length y.body ≤ f.storage.max_object_bytes) n x f.fills cap b.each);
  }

  removed-IsBounded :
      (storage : MemoryStorage Cache)
      → Settled f.storage storage (length m.body) 0
      → IsBounded (record { storage = storage; fills = removed n f.fills })
  removed-IsBounded storage s = record {
    counted = omega (arith, buffered_at f.fills n m there, b.counted, s.count);
    within = rw s.limit s.kept;
    machine = rw s.limit b.machine;
    each =
        subst (λ (c : ℕ). All (λ y. length y.body ≤ c) (removed n f.fills)) (sym s.cap)
          (All-removed (λ y. length y.body ≤ f.storage.max_object_bytes) n f.fills b.each);
  }

  written-IsBounded :
      (chunk : Bytes)
      → IsBounded (record {
        storage = (write_body f.storage m chunk).0;
        fills = replaced n (write_body f.storage m chunk).1 f.fills;
      })
  written-IsBounded chunk =
      replaced-IsBounded (write_body f.storage m chunk).0 (write_body f.storage m chunk).1
        (write_body-Settled f.storage b.within b.machine m chunk held)
        (write_body-cap f.storage b.within b.machine m chunk held
          (cap_of (λ y. length y.body ≤ f.storage.max_object_bytes) f.fills n b.each there))

  given_up-IsBounded :
      IsBounded (record { storage = drop_miss f.storage m; fills = removed n f.fills })
  unfolding drop_miss
  given_up-IsBounded =
      removed-IsBounded (drop_miss f.storage m)
        (release-Settled f.storage b.within b.machine (length m.body) held)

  finished-IsBounded :
      (insert : Bytes → Entry → Cache → Cache)
      → IsBounded (record { storage = (finish insert f.storage m).0; fills = removed n f.fills })
  unfolding finish drop_miss
  finished-IsBounded insert =
      let s = release-Settled f.storage b.within b.machine (length m.body) held in
      removed-IsBounded (finish insert f.storage m).0 (
        if_cases
          (λ (r : MemoryStorage Cache × Option Entry). Settled f.storage r.0 (length m.body) 0) _ _
          m.too_large (λ e. s)
          (λ e. record { count = s.count; limit = s.limit; cap = s.cap; kept = s.kept }))

module _ {Cache : Type 0} (insert : Bytes → Entry → Cache → Cache) where
  call-IsBounded : (f : Filling Cache) (c : Call) → IsBounded f → IsBounded (call insert f c)
  unfolding call get_miss_handler
  call-IsBounded f (start key internal header) b = record {
    counted = unfold buffered in omega (arith, b.counted);
    within = b.within;
    machine = b.machine;
    each = (omega arith, b.each);
  }
  call-IsBounded f (write n chunk) b = elim (Option-cases (get_elem? f.fills n)) [
    | inl e ↦ rw (e, call) b
    | inr (m, e) ↦ rw (e, call) (written-IsBounded f b n m e chunk)
  ]
  call-IsBounded f (give_up n) b = elim (Option-cases (get_elem? f.fills n)) [
    | inl e ↦ rw (e, call) b
    | inr (m, e) ↦ rw (e, call) (given_up-IsBounded f b n m e)
  ]
  call-IsBounded f (finish_fill n) b = elim (Option-cases (get_elem? f.fills n)) [
    | inl e ↦ rw (e, call) b
    | inr (m, e) ↦ rw (e, call) (finished-IsBounded f b n m e insert)
  ]

  -- However the calls of any number of fills interleave, the budget counts exactly the bytes that
  -- the fills under way hold, these stay within the budget, and no fill holds more than an object
  -- may have; in particular the counter is never taken below zero.
  pub calls-IsBounded :
      (cs : List Call) (f : Filling Cache) → IsBounded f → IsBounded (calls insert f cs)
  unfolding calls
  calls-IsBounded [] f b = b
  calls-IsBounded (c ∷ cs) f b = calls-IsBounded cs (call insert f c) (call-IsBounded f c b)
