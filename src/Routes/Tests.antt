-- ===== src/Routes/Tests.antt =====
-- A small table, and the theorems applied to it.
use mathlib.Core.List.{Memᴰ}
use lagos.Prelude.{◌≡◌, ◌↔◌, refl, true, none, some, List, [], ◌∷◌, ◌++◌, replicate, ◌∙◌}
use lagos.Text.{Text, codes, is_empty}
use lagos.Path.{normalize_proxy_path}
use lagos.Config.{RouteDefaults}
use lagos.Routes.Host.{HostPattern, exact, suffix, matches, overlaps}
use lagos.Routes.Table.{
  AuthTier, public, optional, machine, required, PolicyOrigin, built_in, RouteConfig, RouteTable,
  under_prefix, is_denied, upstream_path, serves, cased_method, cased_host, scan_request,
  partition_by_listener, is_machine, fold_case, matches_method, matches_host,
}
use lagos.Routes.Index.{match_request}
use lagos.Routes.Index.Find.{match_request-scan_request}
use lagos.Routes.Build.{RouteGroups, build_with, sorts_before}
use lagos.Routes.Build.Derived.{AreFresh}
use lagos.Routes.Build.Groups.{finished, ComesFrom, tiers_come_from_groups}
use lagos.Routes.Build.Listeners.{IsServed, of_listener, listeners_apart}

abbrev plain : Text → List Text → RouteConfig
plain prefix host = record {
  id = [];
  host = host;
  hosts = [];
  prefix = prefix;
  upstream = codes "backend";
  methods = [];
  strip_prefix = true;
  enabled = true;
  bind = [];
  bindings = [];
  retry = none;
  retry_policy = none;
  rate_limit = none;
  limiter = none;
  concurrency = none;
  auth = required;
  methods_origin = built_in;
  retry_origin = built_in;
  rate_limit_origin = built_in;
}

abbrev no_defaults : RouteDefaults
no_defaults = record { rate_limit = none; retry = none; methods = none }

abbrev groups : RouteGroups
groups = record {
  internal = codes "/internal/" ∷ [];
  machine_routes = plain (codes "sync") [] ∷ [];
  public_routes = plain (codes "users") [] ∷ (plain (codes "users") (codes "api.a" ∷ []) ∷ []);
  optional_routes = [];
  authenticated_routes = plain (codes "users/me") [] ∷ [];
}

abbrev table : RouteTable
table = build_with groups no_defaults

abbrev large : RouteTable
large = record {
  deny_prefixes = codes "internal" ∷ [];
  routes = replicate 32 (plain (codes "a") []) ++ (plain (codes "users") [] ∷ []);
  errors = [];
}

large_find :
    scan_request large.routes none (codes "/users/4") (codes "get")
    ≡ some (plain (codes "users") [])
unfolding scan_request lagos.Routes.Table.find_route serves under_prefix lagos.Text.strip_prefix
    normalize_proxy_path lagos.Text.trim_matches matches_method matches_host
large_find = refl

match_request-scan_request_example :
    match_request large none (codes "/users/4") (codes "get")
    ≡ scan_request large.routes none (codes "/users/4") (codes "get")
match_request-scan_request_example =
    match_request-scan_request large none (codes "/users/4") (codes "get")

groups_fresh : AreFresh groups
groups_fresh = (
  ((refl, refl, refl), ((refl, refl, refl), tt)),
  tt,
  ((refl, refl, refl), tt),
  ((refl, refl, refl), tt),
)

abbrev anywhere : RouteConfig
anywhere = finished no_defaults public (plain (codes "users") [])

abbrev at_host : RouteConfig
at_host = finished no_defaults public (plain (codes "users") (codes "api.a" ∷ []))

tiers_come_from_groups_example : Memᴰ anywhere table.routes ↔ ComesFrom groups no_defaults anywhere
tiers_come_from_groups_example = tiers_come_from_groups groups no_defaults anywhere

abbrev sync : RouteConfig
sync = finished no_defaults machine (plain (codes "sync") [])

found_by_internal :
    match_request (of_listener true table) none (codes "sync") (codes "GET") ≡ some sync
unfolding build_with sorts_before lagos.Routes.Build.sort_routes lagos.Routes.Build.derive_routes
    lagos.Routes.Build.enabled_routes lagos.Routes.Build.chained lagos.Routes.Build.with_tier
    lagos.Routes.Build.insert_sorted lagos.Routes.Build.derive_route lagos.Routes.Build.resolve
    lagos.Routes.Build.name_route lagos.Routes.Build.normalized
    lagos.Routes.Build.inherit_rate_limit lagos.Routes.Build.inherit_retry
    lagos.Routes.Build.inherit_methods lagos.Routes.Build.is_built_in lagos.Routes.Build.derived_id
    lagos.Routes.Build.parse_hosts lagos.Routes.Build.parse_bindings lagos.Routes.Build.limiter_of
    lagos.Routes.Build.concurrency_errors lagos.Routes.Build.retry_policy_of lagos.Routes.Host.parse
    lagos.Text.trim lagos.Text.trim_start lagos.Text.trim_end lagos.Text.byte_len lagos.Text.join
    lagos.Text.to_ascii_uppercase lagos.Text.to_ascii_lowercase lagos.Text.lower_char
    lagos.Text.upper_char lagos.Text.trim_matches lagos.Text.trim_start_matches
    lagos.Text.trim_end_matches lagos.Text.strip_prefix normalize_proxy_path scan_request
    lagos.Routes.Table.find_route serves under_prefix matches_method matches_host matches
    cased_method cased_host lagos.Routes.Table.ascii_cased lagos.Routes.Host.normalize_host
    lagos.Text.text_eq lagos.Text.before lagos.Routes.Host.through_bracket partition_by_listener
    is_machine lagos.Routes.Table.keep_tier
found_by_internal =
    match_request-scan_request (of_listener true table) none (codes "sync") (codes "GET") ∙ refl

sync_tier : sync.auth ≡ machine
unfolding build_with lagos.Routes.Build.derive_route lagos.Routes.Build.resolve
    lagos.Routes.Build.name_route lagos.Text.trim lagos.Routes.Build.normalized
    lagos.Routes.Build.inherit_rate_limit lagos.Routes.Build.inherit_retry
    lagos.Routes.Build.inherit_methods lagos.Routes.Build.with_tier
sync_tier = refl

listeners_apart_example : IsServed true sync.auth × Memᴰ sync table.routes
listeners_apart_example =
    listeners_apart table true none (codes "sync") (codes "GET") sync found_by_internal

no_errors : table.errors ≡ []
unfolding build_with sorts_before lagos.Routes.Build.sort_routes lagos.Routes.Build.derive_routes
    lagos.Routes.Build.enabled_routes lagos.Routes.Build.chained lagos.Routes.Build.with_tier
    lagos.Routes.Build.insert_sorted lagos.Routes.Build.derive_route lagos.Routes.Build.resolve
    lagos.Routes.Build.name_route lagos.Routes.Build.normalized
    lagos.Routes.Build.inherit_rate_limit lagos.Routes.Build.inherit_retry
    lagos.Routes.Build.inherit_methods lagos.Routes.Build.is_built_in lagos.Routes.Build.derived_id
    lagos.Routes.Build.parse_hosts lagos.Routes.Build.parse_bindings lagos.Routes.Build.limiter_of
    lagos.Routes.Build.concurrency_errors lagos.Routes.Build.retry_policy_of lagos.Routes.Host.parse
    lagos.Text.trim lagos.Text.trim_start lagos.Text.trim_end lagos.Text.byte_len lagos.Text.join
    lagos.Text.to_ascii_uppercase lagos.Text.to_ascii_lowercase lagos.Text.lower_char
    lagos.Text.upper_char lagos.Text.trim_matches lagos.Text.trim_start_matches
    lagos.Text.trim_end_matches lagos.Text.strip_prefix normalize_proxy_path
no_errors = refl
