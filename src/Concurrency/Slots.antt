-- ===== src/Concurrency/Slots.antt =====
-- Requests that take and drop slots in any order.
use lagos.Prelude.{
  ℕ, zero, suc, ◌+◌, ◌≡◌, ◌≤◌, if◌then◌else◌, Bool, false, Option, none, some, List, [], ◌∷◌,
  get_elem?, u64_max,
}
use lagos.Text.{Text, text_eq}
use lagos.Concurrency.{InFlight, Slot, route, caller, route_count, take_slot, drop_slot}

pub data Request : Type 0 where
  take_one : Text → ℕ → Bool → Request
  drop_one : ℕ → Request

-- The counters, and the slots that are held.
pub record Holding (Callers : Type 0) : Type 0 where
  pub inflight : InFlight Callers
  pub held : List Slot

abbrev pub without : ℕ → List Slot → List Slot
without n [] = []
without zero (s ∷ ss) = ss
without (suc n) (s ∷ ss) = s ∷ without n ss

unfoldable pub keep : Option Slot → List Slot → List Slot
keep none ss = ss
keep (some s) ss = s ∷ ss

-- One if the slot is one of the route's.
unfoldable pub slot_counts : Text → Slot → ℕ
slot_counts key (route k) = if text_eq k key then 1 else 0
slot_counts key (caller k) = 0

unfoldable pub held_for : Text → List Slot → ℕ
held_for key [] = 0
held_for key (s ∷ ss) = slot_counts key s + held_for key ss

module _ {Callers : Type 0} (incr : Text → Callers → Callers × ℕ)
    (decr : Text → Callers → Callers) where
  -- Dropping a slot that is not held changes nothing.
  unfoldable pub request : Holding Callers → Request → Holding Callers
  request h (take_one key max per_caller) =
      let (inflight, slot) = take_slot incr decr key max per_caller h.inflight in
      record { inflight = inflight; held = keep slot h.held }
  request h (drop_one n) = elim (get_elem? h.held n) [
    | none ↦ h
    | some s ↦ record { inflight = drop_slot incr decr s h.inflight; held = without n h.held }
  ]

  unfoldable pub requests : Holding Callers → List Request → Holding Callers
  requests h [] = h
  requests h (r ∷ rs) = requests (request h r) rs

-- The counter of every route is the number of its slots that are held, and has not reached the end
-- of its range.
pub record IsCounted {Callers : Type 0} (h : Holding Callers) : Type 0 where
  pub counted : (key : Text) → route_count key h.inflight.routes ≡ held_for key h.held
  pub in_range : (key : Text) → held_for key h.held ≤ u64_max

-- The request asks for at most so many slots of the route.
unfoldable pub AsksAtMost : Text → ℕ → Request → Type 0
AsksAtMost key cap (take_one k max per_caller) = k ≡ key → per_caller ≡ false → max ≤ cap
AsksAtMost key cap (drop_one n) = Unit

-- The cap that it names is a `u64`.
unfoldable pub IsWord : Request → Type 0
IsWord (take_one k max per_caller) = max ≤ u64_max
IsWord (drop_one n) = Unit
