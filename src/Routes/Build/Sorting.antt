-- ===== src/Routes/Build/Sorting.antt =====
-- The order of the table, `sort_by_key` in `RouteTable::build_with` of routes/mod.rs.
use lagos.Prelude.{◌≡◌, false, List, [], ◌∷◌, All, Bool-cases, inl, inr}
use lagos.Text.{Text}
use lagos.Routes.Table.{RouteConfig}
use lagos.Routes.Build.{sorts_before, insert_sorted, sort_routes}

-- No route has a key below that of a route in front of it.
abbrev pub IsSorted : List RouteConfig → Type 0
IsSorted [] = Unit
IsSorted (r ∷ rs) = All (λ x. sorts_before x r ≡ false) rs × IsSorted rs

module _ (P : RouteConfig → Type 0) where
  All-insert_sorted :
      (r : RouteConfig) (rs : List RouteConfig) → P r → All P rs → All P (insert_sorted r rs)
  unfolding insert_sorted
  All-insert_sorted r [] p h = (p, tt)
  All-insert_sorted r (x ∷ xs) p (q, h) = elim (Bool-cases (sorts_before x r)) [
    | inl e ↦ rw e (q, All-insert_sorted r xs p h)
    | inr e ↦ rw e (p, (q, h))
  ]

  pub All-sort_routes : (rs : List RouteConfig) → All P rs → All P (sort_routes rs)
  unfolding sort_routes
  All-sort_routes [] h = tt
  All-sort_routes (r ∷ rs) (p, h) = All-insert_sorted r (sort_routes rs) p (All-sort_routes rs h)
