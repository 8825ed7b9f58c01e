-- ===== src/Accept/Tests.antt =====
-- The limit on connections at concrete ones.
use lagos.Prelude.{ℕ, ◌+◌, ◌*◌, ◌≤◌, refl, not, List, [], ◌∷◌, arith}
use lagos.Text.{codes, text_eq}
use lagos.Config.{LimitMode}
use lagos.RateLimit.{Window}
use lagos.RateLimit.Limiter.{Sketch, Windows, find_window}
use lagos.RateLimit.Thousandths.{thousandths, thousandths-IsIeee}
use lagos.Accept.Flood.{Event, connection, eviction, over, accepted, flood_is_bounded}

abbrev no_sketch : Sketch ℕ
no_sketch = record {
  S = ℕ;
  new_sketch = λ interval. 0;
  prev_samples = λ s key. 0;
  curr_samples = λ s key. 0;
  fraction = λ s key. 0;
  observe = λ s key n. s;
}

abbrev minute : ℕ
minute = 60 * 1_000_000_000

abbrev opened : Window
opened = record { start = 100; current = 1; previous = 0 }

abbrev windows : Windows
windows = record {
  max_capacity = 10;
  time_to_idle = 2 * minute;
  held = (codes "192.0.2.1", opened) ∷ [];
}

-- The window of the other address is evicted in between.
abbrev events : List Event
events =
    connection (codes "192.0.2.1") 200
    ∷ (connection (codes "192.0.2.2") 300
        ∷ (eviction (λ key. not (text_eq key (codes "192.0.2.2")))
            ∷ (connection (codes "192.0.2.1") 400 ∷ [])))

flood_is_bounded_example :
    1
      + accepted thousandths no_sketch
          (over thousandths no_sketch 2 minute LimitMode.approximate windows)
          (codes "192.0.2.1")
          events
    ≤ 2
flood_is_bounded_example =
    flood_is_bounded thousandths thousandths-IsIeee no_sketch 2 minute LimitMode.approximate
      (omega arith) (omega arith) windows (codes "192.0.2.1") opened events
      (unfold find_window in unfold text_eq in refl) (omega arith)
      (λ e. omega arith, (λ e. omega arith, (unfold text_eq in refl, (λ e. omega arith, tt))))
