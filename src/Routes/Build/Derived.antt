-- ===== src/Routes/Build/Derived.antt =====
-- What `RouteTable::build_with` of routes/mod.rs derives for each route.
use lagos.Prelude.{
  ◌≡◌, ◌≢◌, refl, sym, ap, ◌∙◌, none, some, Option, List, [], ◌∷◌, ◌++◌, map, All, Bool-cases, inl,
  inr, arith,
}
use lagos.Text.{Text}
use lagos.Config.{RouteDefaults, RateLimitConfig, ConcurrencyConfig}
use lagos.Binding
use lagos.Binding.{Binding}
use lagos.Routes.Host
use lagos.Routes.Host.{HostPattern, Parsed, ok, err}
use lagos.Routes.Table.{RouteConfig, BuildError}
use lagos.Routes.Build.{
  RouteGroups, with_tier, chained, enabled_routes, resolve, push_host, parse_hosts, push_binding,
  parse_bindings, limiter_of, concurrency_errors, retry_policy_of, derive_route, Policy,
  derive_routes, build_with,
}
use lagos.Routes.Build.Sorting.{All-sort_routes}
use lagos.Routes.Build.Inherited.{resolve-Kept}

append_nil_left : {A : Type 0} (xs ys : List A) → xs ++ ys ≡ [] → xs ≡ []
append_nil_left [] ys h = refl
append_nil_left (x ∷ xs) ys h = cc

append_nil_right : {A : Type 0} (xs ys : List A) → xs ++ ys ≡ [] → ys ≡ []
append_nil_right [] ys h = h
append_nil_right (x ∷ xs) ys h = cc

hosts_parsed :
    (id : Text) (hs : List Text)
    → (parse_hosts id hs).1 ≡ []
    → map ok (parse_hosts id hs).0 ≡ map Host.parse hs
unfolding parse_hosts
hosts_parsed id [] h = refl
hosts_parsed id (x ∷ hs) h =
    let (rest, here) = pushed (Host.parse x) (parse_hosts id hs) h in
    here ∙ ap (λ (l : List Parsed). Host.parse x ∷ l) (hosts_parsed id hs rest)
  where
    pushed :
        (p : Parsed) (acc : List HostPattern × List BuildError)
        → (push_host id p acc).1 ≡ []
        → (acc.1 ≡ []) × (map ok (push_host id p acc).0 ≡ p ∷ map ok acc.0)
    pushed (ok p) acc k = (k, refl)
    pushed (err e) acc k = cc

bindings_parsed :
    (id : Text) (specs : List (Text × Text))
    → (parse_bindings id specs).1 ≡ []
    → map some (parse_bindings id specs).0
      ≡ map (λ (spec : Text × Text). Binding.parse spec.0 spec.1) specs
unfolding parse_bindings
bindings_parsed id [] h = refl
bindings_parsed id ((source, target) ∷ specs) h =
    let b = Binding.parse source target in
    let (rest, here) = pushed b (parse_bindings id specs) h in
    here ∙ ap (λ (l : List (Option Binding)). b ∷ l) (bindings_parsed id specs rest)
  where
    pushed :
        (b : Option Binding) (acc : List Binding × List BuildError)
        → (push_binding id b acc).1 ≡ []
        → (acc.1 ≡ []) × (map some (push_binding id b acc).0 ≡ b ∷ map some acc.0)
    pushed (some b) acc k = (k, refl)
    pushed none acc k = cc

-- All that the configuration of a route says is in force.
pub record IsDerived (r : RouteConfig) : Type 0 where
  pub every_host : map ok r.hosts ≡ map Host.parse r.host
  pub every_binding :
      map some r.bindings ≡ map (λ (spec : Text × Text). Binding.parse spec.0 spec.1) r.bind
  pub limited : r.limiter ≡ r.rate_limit
  pub admits_some : (rl : RateLimitConfig) → r.limiter ≡ some rl → rl.requests ≢ 0
  pub runs_some : (c : ConcurrencyConfig) → r.concurrency ≡ some c → c.max ≢ 0
  pub retried : r.retry_policy ≡ retry_policy_of none r.retry

-- As `From<RouteInput>` leaves a route, before the table is built.
abbrev pub IsFresh : RouteConfig → Type 0
IsFresh r = (r.hosts ≡ []) × (r.bindings ≡ []) × (r.retry_policy ≡ none)

limiter_set :
    (id : Text) (rate : Option RateLimitConfig)
    → (limiter_of id rate).1 ≡ []
    → ((limiter_of id rate).0 ≡ rate) × ((rl : RateLimitConfig) → rate ≡ some rl → rl.requests ≢ 0)
unfolding limiter_of
limiter_set id none h = (refl, λ rl e. absurd (ground arith))
limiter_set id (some rl) h = (ground arith, λ other e. ground arith)

some_allowed :
    (id : Text) (limit : Option ConcurrencyConfig)
    → concurrency_errors id limit ≡ []
    → (c : ConcurrencyConfig) → limit ≡ some c
    → c.max ≢ 0
unfolding concurrency_errors
some_allowed id none h c e = absurd (ground arith)
some_allowed id (some d) h c e = ground arith

derive_route-IsDerived :
    (r : RouteConfig) → IsFresh r → (derive_route r).1 ≡ [] → IsDerived (derive_route r).0
unfolding derive_route
derive_route-IsDerived r (no_hosts, no_bindings, no_retry) h =
    let host_errors = (parse_hosts r.id r.host).1 in
    let limiter_errors = (limiter_of r.id r.rate_limit).1 in
    let run_errors = concurrency_errors r.id r.concurrency in
    let binding_errors = (parse_bindings r.id r.bind).1 in
    let after_hosts = append_nil_right host_errors _ h in
    let after_limiter = append_nil_right limiter_errors _ after_hosts in
    let (same, positive) =
      limiter_set r.id r.rate_limit (append_nil_left limiter_errors _ after_hosts) in
    record {
      every_host = rw no_hosts (hosts_parsed r.id r.host (append_nil_left host_errors _ h));
      every_binding =
          rw no_bindings (
            bindings_parsed r.id r.bind (append_nil_right run_errors binding_errors after_limiter));
      limited = same;
      admits_some = λ rl e. positive rl (sym same ∙ e);
      runs_some =
          some_allowed r.id r.concurrency (append_nil_left run_errors binding_errors after_limiter);
      retried = ap (λ (p : Option Policy). retry_policy_of p r.retry) no_retry;
    }

derive_routes-IsDerived :
    (rs : List RouteConfig)
    → All IsFresh rs
    → (derive_routes rs).1 ≡ []
    → All IsDerived (derive_routes rs).0
unfolding derive_routes
derive_routes-IsDerived [] f h = tt
derive_routes-IsDerived (r ∷ rs) (f, fs) h = (
  derive_route-IsDerived r f (append_nil_left (derive_route r).1 _ h),
  derive_routes-IsDerived rs fs (append_nil_right (derive_route r).1 _ h),
)

All-map :
    (P : RouteConfig → Type 0) (f : RouteConfig → RouteConfig) (rs : List RouteConfig)
    → ((r : RouteConfig) → P r → P (f r))
    → All P rs
    → All P (map f rs)
All-map P f [] k h = tt
All-map P f (r ∷ rs) k (h, hs) = (k r h, All-map P f rs k hs)

All-append :
    (P : RouteConfig → Type 0) (xs ys : List RouteConfig) → All P xs → All P ys → All P (xs ++ ys)
All-append P [] ys h k = k
All-append P (x ∷ xs) ys (h, hs) k = (h, All-append P xs ys hs k)

enabled-IsFresh : (rs : List RouteConfig) → All IsFresh rs → All IsFresh (enabled_routes rs)
unfolding enabled_routes
enabled-IsFresh [] h = tt
enabled-IsFresh (r ∷ rs) (h, hs) = elim (Bool-cases r.enabled) [
  | inl e ↦ rw e (h, enabled-IsFresh rs hs)
  | inr e ↦ rw e (enabled-IsFresh rs hs)
]

-- The groups as they were read from the configuration.
abbrev pub AreFresh : RouteGroups → Type 0
AreFresh g =
    All IsFresh g.public_routes
    × All IsFresh g.optional_routes
    × All IsFresh g.authenticated_routes
    × All IsFresh g.machine_routes

chained-IsFresh : (g : RouteGroups) → AreFresh g → All IsFresh (chained g)
unfolding chained with_tier
chained-IsFresh g (a, b, c, d) =
    All-append IsFresh _ _ (All-map IsFresh _ g.public_routes (λ r h. h) a) (
      All-append IsFresh _ _ (All-map IsFresh _ g.optional_routes (λ r h. h) b) (
        All-append IsFresh _ _ (All-map IsFresh _ g.authenticated_routes (λ r h. h) c)
          (All-map IsFresh _ g.machine_routes (λ r h. h) d)))

resolve-IsFresh : (d : RouteDefaults) (r : RouteConfig) → IsFresh r → IsFresh (resolve d r)
resolve-IsFresh d r (h, b, p) = let (k, l, _, m) = resolve-Kept d r in (k ∙ h, l ∙ b, m ∙ p)

-- If a table is built from freshly read groups without an error, then for each of its routes all
-- that the configuration says is in force: every host pattern and every binding is there, parsed,
-- the limiter is the configured one and admits requests, the cap on concurrency is not zero, and
-- the retry policy is that of the resolved configuration.
pub nothing_is_dropped :
    (groups : RouteGroups) (defaults : RouteDefaults)
    → AreFresh groups
    → (build_with groups defaults).errors ≡ []
    → All IsDerived (build_with groups defaults).routes
unfolding build_with
nothing_is_dropped groups defaults fresh h = All-sort_routes IsDerived _ (
    derive_routes-IsDerived (map (resolve defaults) (enabled_routes (chained groups)))
      (All-map IsFresh (resolve defaults) (enabled_routes (chained groups))
        (resolve-IsFresh defaults)
        (enabled-IsFresh (chained groups) (chained-IsFresh groups fresh)))
      h)
