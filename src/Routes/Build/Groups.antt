-- ===== src/Routes/Build/Groups.antt =====
-- The groups and the tiers of a table's routes, `RouteTable::build_with` of routes/mod.rs.
use mathlib.Core.List.{Memᴰ}
use mathlib.Core.List.Memᴰ
use lagos.Prelude.{◌≡◌, ◌↔◌, refl, sym, ap, ◌∙◌, subst, true, List, map, inl, inr}
use lagos.Config.{RouteDefaults}
use lagos.Routes.Table.{AuthTier, public, optional, machine, required, RouteConfig}
use lagos.Routes.Build.{
  RouteGroups, with_tier, chained, enabled_routes, resolve, derive_route, derive_routes, build_with,
}
use lagos.Routes.Build.Inherited.{resolve-Kept}
use lagos.Routes.Build.Members.{
  of_sorted, to_sorted, derive_routes-map, of_enabled_routes, to_enabled_routes,
}

-- The group that a tier is written in.
unfoldable pub group_of : RouteGroups → AuthTier → List RouteConfig
group_of g public = g.public_routes
group_of g optional = g.optional_routes
group_of g required = g.authenticated_routes
group_of g machine = g.machine_routes

-- What becomes of a route of a group.
abbrev pub finished : RouteDefaults → AuthTier → RouteConfig → RouteConfig
finished d tier r = (derive_route (resolve d (with_tier tier r))).0

-- A route of the table is an enabled route of the group of its tier.
abbrev pub ComesFrom : RouteGroups → RouteDefaults → RouteConfig → Type 0
ComesFrom g d r =
    (tier : AuthTier) × (written : RouteConfig) × (r.auth ≡ tier)
    × Memᴰ written (group_of g tier)
    × (written.enabled ≡ true)
    × (finished d tier written ≡ r)

derive_route-auth : (r : RouteConfig) → (derive_route r).0.auth ≡ r.auth
unfolding derive_route
derive_route-auth r = refl

finished-auth :
    (d : RouteDefaults) (tier : AuthTier) (r : RouteConfig) → (finished d tier r).auth ≡ tier
unfolding with_tier
finished-auth d tier r =
    derive_route-auth (resolve d (with_tier tier r)) ∙ (resolve-Kept d (with_tier tier r)).2

in_group :
    (g : RouteGroups) (tier : AuthTier) (x : RouteConfig)
    → Memᴰ x (map (with_tier tier) (group_of g tier))
    → (t : AuthTier) × (written : RouteConfig) × Memᴰ written (group_of g t)
      × (with_tier t written ≡ x)
in_group g tier x n =
    let (written, m, e) = Memᴰ.of_map (with_tier tier) (group_of g tier) n in (tier, written, m, e)

-- The routes of the four groups, each with its tier.
of_chained :
    (g : RouteGroups) (x : RouteConfig)
    → Memᴰ x (chained g)
    → (tier : AuthTier) × (written : RouteConfig) × Memᴰ written (group_of g tier)
      × (with_tier tier written ≡ x)
unfolding chained group_of
of_chained g x m = elim (Memᴰ.append_cases (map (with_tier public) g.public_routes) m) [
  | inl n ↦ in_group g public x n
  | inr m ↦ elim (Memᴰ.append_cases (map (with_tier optional) g.optional_routes) m) [
    | inl n ↦ in_group g optional x n
    | inr m ↦ elim (Memᴰ.append_cases (map (with_tier required) g.authenticated_routes) m) [
      | inl n ↦ in_group g required x n
      | inr n ↦ in_group g machine x n
    ]
  ]
]

to_chained :
    (g : RouteGroups) (tier : AuthTier) (r : RouteConfig)
    → Memᴰ r (group_of g tier)
    → Memᴰ (with_tier tier r) (chained g)
unfolding chained group_of
to_chained g public r m = Memᴰ.append_left _ (Memᴰ.map (with_tier public) m)
to_chained g optional r m =
    Memᴰ.append_right (map (with_tier public) g.public_routes)
      (Memᴰ.append_left _ (Memᴰ.map (with_tier optional) m))
to_chained g required r m =
    Memᴰ.append_right _ (Memᴰ.append_right _ (Memᴰ.append_left _ (Memᴰ.map (with_tier required) m)))
to_chained g machine r m = Memᴰ.append_right (map (with_tier public) g.public_routes) (
    Memᴰ.append_right (map (with_tier optional) g.optional_routes) (
      Memᴰ.append_right (map (with_tier required) g.authenticated_routes)
        (Memᴰ.map (with_tier machine) m)))

-- The routes of a table are exactly the enabled routes of the groups, each with the policies that it
-- inherits, in the tier of its group: nothing else gives a route its tier.
pub tiers_come_from_groups :
    (groups : RouteGroups) (defaults : RouteDefaults) (r : RouteConfig)
    → Memᴰ r (build_with groups defaults).routes ↔ ComesFrom groups defaults r
unfolding build_with with_tier
tiers_come_from_groups groups defaults r = (of, to)
  where
    written : List RouteConfig
    written = enabled_routes (chained groups)

    of : Memᴰ r (build_with groups defaults).routes → ComesFrom groups defaults r
    of m =
        let there = of_sorted r (derive_routes (map (resolve defaults) written)).0 m in
        let derived = subst (λ (l : List RouteConfig). Memᴰ r l) (derive_routes-map _) there in
        let (resolved, in_resolved, e) = Memᴰ.of_map (λ x. (derive_route x).0) _ derived in
        let (tiered, in_written, f) = Memᴰ.of_map (resolve defaults) _ in_resolved in
        let (in_chained, on) = of_enabled_routes tiered (chained groups) in_written in
        let (tier, source, there_in_group, k) = of_chained groups tiered in_chained in
        let same : finished defaults tier source ≡ r =
          ap (λ (x : RouteConfig). (derive_route (resolve defaults x)).0) k
          ∙ ap (λ (x : RouteConfig). (derive_route x).0) f
          ∙ e in
        (
          tier,
          source,
          ap (λ (x : RouteConfig). x.auth) (sym same) ∙ finished-auth defaults tier source,
          there_in_group,
          ap (λ (x : RouteConfig). x.enabled) k ∙ on,
          same,
        )

    to : ComesFrom groups defaults r → Memᴰ r (build_with groups defaults).routes
    to (tier, source, _, there_in_group, on, e) =
        let in_written =
          to_enabled_routes (with_tier tier source) (chained groups)
            (to_chained groups tier source there_in_group) on in
        let derived = Memᴰ.map (λ x. (derive_route x).0) (Memᴰ.map (resolve defaults) in_written) in
        to_sorted r (derive_routes (map (resolve defaults) written)).0 (
          subst (λ (l : List RouteConfig). Memᴰ r l) (sym (derive_routes-map _))
            (subst
              (λ (x : RouteConfig).
                Memᴰ x (map (λ y. (derive_route y).0) (map (resolve defaults) written)))
              e derived))
