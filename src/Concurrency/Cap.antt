-- ===== src/Concurrency/Cap.antt =====
-- The caps of routes, concurrency.rs.
use lagos.Prelude.{
  ℕ, zero, suc, ◌+◌, ◌≡◌, ◌≤◌, ltb, leb, refl, ap, if◌then◌else◌, true, false, Option, some, List,
  [], ◌∷◌, All, get_elem?, u64_max, saturating_add, wrapping_sub, wrapping_sub_exact, if_cases,
  Bool-cases, Option-cases, inl, inr, arith,
}
use lagos.Text.{Text, text_eq, text_eq_iff, text_eq_refl}
use lagos.Concurrency.{
  InFlight, Slot, route, caller, route_count, set_count, take_route, take_caller, take_slot,
  drop_slot,
}
use lagos.Concurrency.Slots.{
  Request, take_one, drop_one, Holding, without, keep, slot_counts, held_for, request, requests,
  IsCounted, IsWord, AsksAtMost,
}

route_count-set_count :
    (key k : Text) (n : ℕ) (routes : List (Text × ℕ))
    → route_count key (set_count k n routes) ≡ (if text_eq k key then n else route_count key routes)
unfolding route_count set_count
route_count-set_count key k n [] = ground arith
route_count-set_count key k n ((j, m) ∷ rest) = ground (
  arith,
  route_count-set_count key k n rest,
  text_eq_iff j k,
  text_eq_iff j key,
  text_eq_iff k key,
)

held_for_at :
    (key : Text) (ss : List Slot) (n : ℕ) (s : Slot)
    → get_elem? ss n ≡ some s
    → held_for key ss ≡ slot_counts key s + held_for key (without n ss)
unfolding held_for
held_for_at key [] n s h = cc
held_for_at key (x ∷ ss) zero s h = ground arith
held_for_at key (x ∷ ss) (suc n) s h = omega (arith, held_for_at key ss n s h)

module _ {Callers : Type 0} (incr : Text → Callers → Callers × ℕ)
    (decr : Text → Callers → Callers) where
  route_count-drop_slot :
      (s : Slot) (f : InFlight Callers)
      → ((key : Text) → slot_counts key s ≤ route_count key f.routes)
      → ((key : Text) → route_count key f.routes ≤ u64_max)
      → (key : Text)
      → route_count key (drop_slot incr decr s f).routes + slot_counts key s
        ≡ route_count key f.routes
  unfolding drop_slot slot_counts
  route_count-drop_slot (caller k) f enough range key = omega arith
  route_count-drop_slot (route k) f enough range key =
      let one : 1 ≤ route_count k f.routes = ground (arith, enough k, text_eq_refl k) in
      let exact = wrapping_sub_exact (route_count k f.routes) 1 one (omega (arith, range k)) in
      ground (
        arith,
        route_count-set_count key k (wrapping_sub 64 (route_count k f.routes) 1) f.routes,
        exact,
        one,
        text_eq_iff k key,
        ap (λ (t : Text). route_count t f.routes) {x = k} {y = key},
      )

  -- What is counted and held for a route after a call, and within which cap.
  After : InFlight Callers → List Slot → Text → ℕ → ℕ → Type 0
  After f held key before cap =
      (route_count key f.routes ≡ held_for key held)
      × (held_for key held ≤ u64_max)
      × (before ≤ cap → held_for key held ≤ cap)

  module _ (f : InFlight Callers) (held : List Slot) (key : Text) (cap : ℕ)
      (counted : route_count key f.routes ≡ held_for key held)
      (in_range : held_for key held ≤ u64_max) where
    take_route-After :
        (k : Text) (max : ℕ)
        → max ≤ u64_max
        → (k ≡ key → max ≤ cap)
        → After
            (take_route k max f).0
            (keep (take_route k max f).1 held)
            key
            (held_for key held)
            cap
    unfolding take_route keep held_for slot_counts After
    take_route-After k max word asks =
        let n = route_count k f.routes in
        let same : text_eq k key ≡ true → n ≡ route_count key f.routes =
          λ e. ap (λ (t : Text). route_count t f.routes) ((text_eq_iff k key).0 e) in
        let capped : text_eq k key ≡ true → max ≤ cap = λ e. asks ((text_eq_iff k key).0 e) in
        if_cases
          (λ (r : InFlight Callers × Option Slot).
            After r.0 (keep r.1 held) key (held_for key held) cap)
          _ _ (ltb n max)
          (λ e.
            let set = route_count-set_count key k (saturating_add u64_max n 1) f.routes in
            elim (Bool-cases (text_eq k key)) [
              | inl t ↦
                  let here = same t in
                  let below = capped t in
                  (ground (arith, set, here), ground arith, λ h. ground arith)
              | inr t ↦ (ground (arith, set), ground arith, λ h. ground arith)
            ])
          (λ e.
            let set = route_count-set_count key k n f.routes in
            (ground (arith, set, same), in_range, λ h. h))

    take_caller-After :
        (k : Text) (max : ℕ)
        → After
            (take_caller incr decr k max f).0
            (keep (take_caller incr decr k max f).1 held)
            key
            (held_for key held)
            cap
    unfolding take_caller keep held_for slot_counts After
    take_caller-After k max =
        if_cases
          (λ (r : InFlight Callers × Option Slot).
            After r.0 (keep r.1 held) key (held_for key held) cap)
          _ _ (leb (incr k f.callers).1 max) (λ e. (omega arith, omega arith, λ h. omega arith))
          (λ e. (counted, in_range, λ h. h))

  -- Before a request the caps of its route hold, and it names a cap that is a `u64`.
  request-After :
      (h : Holding Callers) (r : Request) (key : Text) (cap : ℕ)
      → IsCounted h
      → IsWord r
      → AsksAtMost key cap r
      → After
          (request incr decr h r).inflight
          (request incr decr h r).held
          key
          (held_for key h.held)
          cap
  unfolding request IsWord AsksAtMost take_slot
  request-After h (take_one k max true) key cap c word asks =
      take_caller-After h.inflight h.held key cap (c.counted key) (c.in_range key) k max
  request-After h (take_one k max false) key cap c word asks =
      take_route-After h.inflight h.held key cap (c.counted key) (c.in_range key) k max word
        (λ e. asks e refl)
  request-After h (drop_one n) key cap c word asks = elim (Option-cases (get_elem? h.held n)) [
    | inl e ↦ rw (e, request) (unfold After in (c.counted key, c.in_range key, λ b. b))
    | inr (s, e) ↦ rw (e, request) (dropped s e)
  ]
    where
      dropped :
          (s : Slot)
          → get_elem? h.held n ≡ some s
          → After
              (drop_slot incr decr s h.inflight)
              (without n h.held)
              key
              (held_for key h.held)
              cap
      dropped s e =
          let at = λ (t : Text). held_for_at t h.held n s e in
          let settled =
            route_count-drop_slot s h.inflight (λ t. omega (arith, at t, c.counted t))
              (λ t. omega (arith, c.counted t, c.in_range t)) key in
          unfold After in
          (
            omega (arith, at key, settled, c.counted key),
            omega (arith, at key, c.in_range key),
            λ b. omega (arith, at key, b),
          )

  asks_of_IsWord : (r : Request) (key : Text) → IsWord r → AsksAtMost key u64_max r
  unfolding IsWord AsksAtMost
  asks_of_IsWord (take_one k max per_caller) key w = λ e f. w
  asks_of_IsWord (drop_one n) key w = tt

  request-IsCounted :
      (r : Request) (h : Holding Callers)
      → IsWord r
      → IsCounted h
      → IsCounted (request incr decr h r)
  unfolding After
  request-IsCounted r h w c = record {
    counted = λ key. (request-After h r key u64_max c w (asks_of_IsWord r key w)).0;
    in_range = λ key. (request-After h r key u64_max c w (asks_of_IsWord r key w)).1;
  }

  -- However requests take and drop slots, the counter of each route stays the number of its slots
  -- that are held, and it neither overflows nor falls below zero.
  pub requests-IsCounted :
      (rs : List Request) (h : Holding Callers)
      → All IsWord rs
      → IsCounted h
      → IsCounted (requests incr decr h rs)
  unfolding requests
  requests-IsCounted [] h w c = c
  requests-IsCounted (r ∷ rs) h (w, ws) c =
      requests-IsCounted rs (request incr decr h r) ws (request-IsCounted r h w c)

  -- If no request asks for more than `cap` slots of a route, no more are held at any time, however
  -- many other routes and callers are in flight.
  pub cap_is_kept :
      (rs : List Request) (h : Holding Callers) (key : Text) (cap : ℕ)
      → All IsWord rs
      → All (AsksAtMost key cap) rs
      → IsCounted h
      → held_for key h.held ≤ cap
      → held_for key (requests incr decr h rs).held ≤ cap
  unfolding requests After
  cap_is_kept [] h key cap w a c k = k
  cap_is_kept (r ∷ rs) h key cap (w, ws) (a, more) c k =
      cap_is_kept rs (request incr decr h r) key cap ws more (request-IsCounted r h w c)
        ((request-After h r key cap c w a).2 k)
