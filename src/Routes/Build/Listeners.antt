-- ===== src/Routes/Build/Listeners.antt =====
-- The tables of the two listeners, `partition_by_listener` of routes/mod.rs.
use mathlib.Core.List.{Memᴰ}
use lagos.Prelude.{
  ◌≡◌, ◌≢◌, ◌↔◌, refl, sym, ◌∙◌, Bool, true, false, not, some, Option, List, [], ◌∷◌, Bool-cases,
  inl, inr, ◌⊎◌, arith,
}
use lagos.Text.{Text}
use lagos.Routes.Table.{
  AuthTier, public, optional, machine, required, RouteConfig, RouteTable, is_machine, find_route,
  scan_request, partition_by_listener,
}
use lagos.Routes.Index.{match_request}
use lagos.Routes.Index.Find.{match_request-scan_request}
use lagos.Routes.Build.Members.{of_keep_tier, to_keep_tier}

find_route-member :
    (p : RouteConfig → Bool) (rs : List RouteConfig) (r : RouteConfig)
    → find_route p rs ≡ some r
    → Memᴰ r rs
unfolding find_route
find_route-member p [] r h = cc
find_route-member p (x ∷ rs) r h = elim (Bool-cases (p x)) [
  | inl e ↦ let same : r ≡ x = ground arith in Memᴰ.head same
  | inr e ↦ Memᴰ.tail (find_route-member p rs r (ground arith))
]

match_request-member :
    (table : RouteTable) (host : Option Text) (path method : Text) (r : RouteConfig)
    → match_request table host path method ≡ some r
    → Memᴰ r table.routes
unfolding scan_request
match_request-member table host path method r h =
    find_route-member _ table.routes r (sym (match_request-scan_request table host path method) ∙ h)

machine_lem : (tier : AuthTier) → is_machine tier ≡ true → tier ≡ machine
unfolding is_machine
machine_lem machine h = refl
machine_lem public h = cc
machine_lem optional h = cc
machine_lem required h = cc

not_machine : (tier : AuthTier) → not (is_machine tier) ≡ true → tier ≢ machine
unfolding is_machine
not_machine machine h e = cc
not_machine public h e = cc
not_machine optional h e = cc
not_machine required h e = cc

-- The table of one listener, the internal one or the public one.
abbrev pub of_listener : Bool → RouteTable → RouteTable
of_listener true table = (partition_by_listener table).1
of_listener false table = (partition_by_listener table).0

-- The tiers that a listener serves.
abbrev pub IsServed : Bool → AuthTier → Type 0
IsServed true tier = tier ≡ machine
IsServed false tier = tier ≢ machine

-- Whatever the request, the route that the internal listener matches it to is a machine route, and
-- the route that the public listener matches it to is none; both are routes of the whole table.
pub listeners_apart :
    (table : RouteTable) (internal : Bool) (host : Option Text) (path method : Text)
    (r : RouteConfig)
    → match_request (of_listener internal table) host path method ≡ some r
    → IsServed internal r.auth × Memᴰ r table.routes
unfolding partition_by_listener
listeners_apart table true host path method r h =
    let (m, e) =
      of_keep_tier is_machine r table.routes (match_request-member _ host path method r h) in
    (machine_lem r.auth e, m)
listeners_apart table false host path method r h =
    let (m, e) =
      of_keep_tier (λ t. not (is_machine t)) r table.routes
        (match_request-member _ host path method r h) in
    (not_machine r.auth e, m)

-- Each route of a table is on one listener: none is lost when the table is split.
pub partition_is_complete :
    (table : RouteTable) (r : RouteConfig)
    → Memᴰ r table.routes ↔ (
        Memᴰ r (partition_by_listener table).0.routes
        ⊎ Memᴰ r (partition_by_listener table).1.routes)
unfolding partition_by_listener
partition_is_complete table r = (
  λ m. elim (Bool-cases (is_machine r.auth)) [
    | inl e ↦ inr (to_keep_tier is_machine r table.routes m e)
    | inr e ↦ inl (to_keep_tier (λ t. not (is_machine t)) r table.routes m (ground arith))
  ],
  λ s. elim s [
    | inl m ↦ (of_keep_tier (λ t. not (is_machine t)) r table.routes m).0
    | inr m ↦ (of_keep_tier is_machine r table.routes m).0
  ],
)
