-- ===== src/Concurrency.antt =====
-- Requests in flight, crates/lagos-core/src/concurrency.rs.
-- The in-flight sketch of the crate pingora-limits is a parameter: `incr key callers` is the sketch
-- and the count of the key after an increment, `decr key callers` the sketch after a guard is
-- dropped; a count below zero, which the code takes for zero, is not told from zero.
pub mod Slots
pub mod Cap
mod Tests
use lagos.Prelude.{
  ℕ, zero, suc, ◌+◌, ◌-◌, ◌*◌, ◌^◌, ltb, leb, if◌then◌else◌, Bool, true, false, Option, none, some,
  List, [], ◌∷◌, get_elem?, u64_max, saturating_add, wrapping_sub,
}
use lagos.Text.{Text, text_eq}

pub record InFlight (Callers : Type 0) : Type 0 where
  pub routes : List (Text × ℕ)  -- AtomicU64
  pub callers : Callers

-- A held slot, with the key of its counter.
pub data Slot : Type 0 where
  route caller : Text → Slot

-- The counter of a key, which `route_counter` creates at zero.
unfoldable pub route_count : Text → List (Text × ℕ) → ℕ
route_count key [] = 0
route_count key ((k, n) ∷ rest) =
    let more = route_count key rest in if text_eq k key then n else more

unfoldable pub set_count : Text → ℕ → List (Text × ℕ) → List (Text × ℕ)
set_count key count [] = (key, count) ∷ []
set_count key count ((k, n) ∷ rest) =
    let more = set_count key count rest in
    if text_eq k key then (k, count) ∷ rest else (k, n) ∷ more

module _ {Callers : Type 0} where
  -- The branch for a route: compare and swap.
  unfoldable pub take_route : Text → ℕ → InFlight Callers → InFlight Callers × Option Slot
  take_route key max f =
      let n = route_count key f.routes in
      if ltb n max
      then (
        record f { routes = set_count key (saturating_add u64_max n 1) f.routes },
        some (route key),
      )
      else (record f { routes = set_count key n f.routes }, none)

  module _ (incr : Text → Callers → Callers × ℕ) (decr : Text → Callers → Callers) where
    -- The branch for a caller: a refused request's guard is dropped at once.
    unfoldable pub take_caller : Text → ℕ → InFlight Callers → InFlight Callers × Option Slot
    take_caller key max f =
        let (callers, count) = incr key f.callers in
        if leb count max
        then (record f { callers = callers }, some (caller key))
        else (record f { callers = decr key callers }, none)

    unfoldable pub take_slot : Text → ℕ → Bool → InFlight Callers → InFlight Callers × Option Slot
    take_slot key max per_caller f =
        if per_caller then take_caller key max f else take_route key max f

    unfoldable pub drop_slot : Slot → InFlight Callers → InFlight Callers
    drop_slot (route key) f = record f {
      routes = set_count key (wrapping_sub 64 (route_count key f.routes) 1) f.routes;
    }
    drop_slot (caller key) f = record f { callers = decr key f.callers }
