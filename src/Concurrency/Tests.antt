-- ===== src/Concurrency/Tests.antt =====
-- A route with two slots and a caller's slot beside it, with the theorems applied to them.
use lagos.Prelude.{ℕ, ◌+◌, ◌-◌, ◌≤◌, refl, true, false, List, [], ◌∷◌, All, arith}
use lagos.Text.{Text, codes}
use lagos.Concurrency.{InFlight}
use lagos.Concurrency.Slots.{
  Request, take_one, drop_one, Holding, held_for, requests, IsCounted, IsWord, AsksAtMost,
}
use lagos.Concurrency.Cap.{cap_is_kept}

-- A sketch that counts all callers together, so it never counts too few.
incr : Text → ℕ → ℕ × ℕ
incr key n = (n + 1, n + 1)

decr : Text → ℕ → ℕ
decr key n = n - 1

abbrev idle : Holding ℕ
idle = record { inflight = record { routes = []; callers = 0 }; held = [] }

abbrev burst : List Request
burst =
    take_one (codes "r|") 2 false
    ∷ (take_one (codes "r|a") 1 true
        ∷ (take_one (codes "r|") 2 false ∷ (take_one (codes "r|") 2 false ∷ (drop_one 0 ∷ []))))

idle-IsCounted : IsCounted idle
unfolding lagos.Concurrency.route_count held_for
idle-IsCounted = record { counted = λ key. refl; in_range = λ key. omega arith }

burst_words : All IsWord burst
unfolding IsWord
burst_words = (omega arith, (omega arith, (omega arith, (omega arith, (tt, tt)))))

burst_asks : All (AsksAtMost (codes "r|") 2) burst
unfolding AsksAtMost
burst_asks =
    (λ e f. omega arith, (λ e f. omega arith, (λ e f. omega arith, (λ e f. omega arith, (tt, tt)))))

none_held : held_for (codes "r|") idle.held ≤ 2
unfolding held_for
none_held = omega arith

cap_is_kept_example : held_for (codes "r|") (requests incr decr idle burst).held ≤ 2
cap_is_kept_example =
    cap_is_kept incr decr burst idle (codes "r|") 2 burst_words burst_asks idle-IsCounted none_held
