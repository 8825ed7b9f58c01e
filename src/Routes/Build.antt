-- ===== src/Routes/Build.antt =====
-- Building the route table from its groups, `RouteTable::build_with` of routes/mod.rs.
pub mod Inherited
pub mod Derived
pub mod Sorting
pub mod Members
pub mod Groups
pub mod Listeners
use mathlib.Core.Sum
use lagos.Prelude.{
  ℕ, ◌==◌, ltb, if◌then◌else◌, Bool, true, false, not, ◌&&◌, ◌||◌, Option, none, some, List, [],
  ◌∷◌, ◌++◌, map,
}
use lagos.Text.{Text, codes, is_empty, byte_len, join, to_ascii_uppercase, trim}
use lagos.Path.{normalize_proxy_path}
use lagos.Retry
use lagos.Retry.{RetryConfig, Policy}
use lagos.Config.{RateLimitConfig, ConcurrencyConfig, RouteDefaults}
use lagos.Binding
use lagos.Binding.{Binding}
use lagos.Routes.Host
use lagos.Routes.Host.{HostPattern, HostError, Parsed, ok, err}
use lagos.Routes.Table.{
  AuthTier, public, optional, machine, required, PolicyOrigin, built_in, global_defaults,
  RouteConfig, RouteTable, BuildError, bad_host, no_requests, no_concurrency, bad_binding,
}

pub record RouteGroups : Type 0 where
  pub internal : List Text
  pub machine_routes : List RouteConfig
  pub public_routes : List RouteConfig
  pub optional_routes : List RouteConfig
  pub authenticated_routes : List RouteConfig

-- `RouteConfig { auth, ..r }`
unfoldable pub with_tier : AuthTier → RouteConfig → RouteConfig
with_tier tier r = record r { auth = tier }

-- The chained groups.
unfoldable pub chained : RouteGroups → List RouteConfig
chained g =
    map (with_tier public) g.public_routes
    ++ (map (with_tier optional) g.optional_routes
        ++ (map (with_tier required) g.authenticated_routes
            ++ map (with_tier machine) g.machine_routes))

-- `.filter(|r| r.enabled)`
unfoldable pub enabled_routes : List RouteConfig → List RouteConfig
enabled_routes [] = []
enabled_routes (r ∷ rs) = let rest = enabled_routes rs in if r.enabled then r ∷ rest else rest

unfoldable pub is_built_in : PolicyOrigin → Bool
is_built_in built_in = true
is_built_in _ = false

unfoldable pub inherit_methods : Option (List Text) → RouteConfig → RouteConfig
unfolding is_built_in
inherit_methods none r = r
inherit_methods (some methods) r =
    if is_built_in r.methods_origin
    then record r { methods = methods; methods_origin = global_defaults }
    else r

unfoldable pub inherit_retry : Option RetryConfig → RouteConfig → RouteConfig
unfolding is_built_in
inherit_retry none r = r
inherit_retry (some retry) r =
    if is_built_in r.retry_origin
    then record r { retry = some retry; retry_origin = global_defaults }
    else r

unfoldable pub inherit_rate_limit : Option RateLimitConfig → RouteConfig → RouteConfig
unfolding is_built_in
inherit_rate_limit none r = r
inherit_rate_limit (some rate) r =
    if is_built_in r.rate_limit_origin
    then record r { rate_limit = some rate; rate_limit_origin = global_defaults }
    else r

unfoldable pub derived_id : RouteConfig → Text
derived_id r =
    if is_empty r.host then r.prefix else join (codes ",") r.host ++ codes "/" ++ r.prefix

unfoldable pub name_route : RouteConfig → RouteConfig
unfolding derived_id
name_route r = if is_empty (trim r.id) then record r { id = derived_id r } else r

unfoldable pub normalized : RouteConfig → RouteConfig
normalized r = record r {
  prefix = normalize_proxy_path r.prefix;
  methods = map to_ascii_uppercase r.methods;
}

-- The closure of the `map` that resolves inherited policies.
unfoldable pub resolve : RouteDefaults → RouteConfig → RouteConfig
resolve d r = name_route (
    normalized
      (inherit_rate_limit d.rate_limit (inherit_retry d.retry (inherit_methods d.methods r))))

-- The loop over `host`: what it pushes to `hosts` and to the errors.
abbrev pub push_host :
    Text → Parsed → List HostPattern × List BuildError → List HostPattern × List BuildError
push_host id (ok p) (patterns, errors) = (p ∷ patterns, errors)
push_host id (err e) (patterns, errors) = (patterns, bad_host id e ∷ errors)

unfoldable pub parse_hosts : Text → List Text → List HostPattern × List BuildError
parse_hosts id [] = ([], [])
parse_hosts id (h ∷ hs) = push_host id (Host.parse h) (parse_hosts id hs)

-- The loop over `bind`.
abbrev pub push_binding :
    Text → Option Binding → List Binding × List BuildError → List Binding × List BuildError
push_binding id (some b) (bindings, errors) = (b ∷ bindings, errors)
push_binding id none (bindings, errors) = (bindings, bad_binding id ∷ errors)

unfoldable pub parse_bindings : Text → List (Text × Text) → List Binding × List BuildError
parse_bindings id [] = ([], [])
parse_bindings id ((source, target) ∷ specs) =
    push_binding id (Binding.parse source target) (parse_bindings id specs)

unfoldable pub limiter_of : Text → Option RateLimitConfig → Option RateLimitConfig × List BuildError
limiter_of id none = (none, [])
limiter_of id (some rl) = if rl.requests == 0 then (none, no_requests id ∷ []) else (some rl, [])

unfoldable pub concurrency_errors : Text → Option ConcurrencyConfig → List BuildError
concurrency_errors id none = []
concurrency_errors id (some c) = if c.max == 0 then no_concurrency id ∷ [] else []

unfoldable pub retry_policy_of : Option Policy → Option RetryConfig → Option Policy
retry_policy_of given none = given
retry_policy_of given (some rt) = some (Retry.from_config rt)

-- The body of the loop that derives matchers, retry policies and limiters.
unfoldable pub derive_route : RouteConfig → RouteConfig × List BuildError
derive_route r =
    let (hosts, host_errors) = parse_hosts r.id r.host in
    let (limiter, limiter_errors) = limiter_of r.id r.rate_limit in
    let (bindings, binding_errors) = parse_bindings r.id r.bind in
    (
      record r {
        hosts = r.hosts ++ hosts;
        retry_policy = retry_policy_of r.retry_policy r.retry;
        limiter = limiter;
        bindings = r.bindings ++ bindings;
      },
      host_errors ++ (limiter_errors ++ (concurrency_errors r.id r.concurrency ++ binding_errors)),
    )

unfoldable pub derive_routes : List RouteConfig → List RouteConfig × List BuildError
derive_routes [] = ([], [])
derive_routes (r ∷ rs) =
    let (route, found) = derive_route r in
    let (routes, errors) = derive_routes rs in (route ∷ routes, found ++ errors)

-- The order of the keys of `sort_by_key`: routes with a host first, then the longest prefix.
unfoldable pub sorts_before : RouteConfig → RouteConfig → Bool
sorts_before a b =
    let longer = ltb (byte_len b.prefix) (byte_len a.prefix) in
    if is_empty a.hosts
    then (if is_empty b.hosts then longer else false)
    else (if is_empty b.hosts then true else longer)

-- `sort_by_key`, which keeps the order of routes with equal keys.
unfoldable pub insert_sorted : RouteConfig → List RouteConfig → List RouteConfig
insert_sorted r [] = r ∷ []
insert_sorted r (x ∷ xs) =
    let rest = insert_sorted r xs in if sorts_before x r then x ∷ rest else r ∷ (x ∷ xs)

unfoldable pub sort_routes : List RouteConfig → List RouteConfig
sort_routes [] = []
sort_routes (r ∷ rs) = insert_sorted r (sort_routes rs)

unfoldable pub build_with : RouteGroups → RouteDefaults → RouteTable
build_with groups defaults =
    let (routes, errors) =
      derive_routes (map (resolve defaults) (enabled_routes (chained groups))) in
    record {
      deny_prefixes = map normalize_proxy_path groups.internal;
      routes = sort_routes routes;
      errors = errors;
    }
