-- ===== src/Routes/Table.antt =====
-- Routes, their table, and how a request finds its route, routes/mod.rs.
-- Fields of `RouteConfig` that are only carried along are left out. A route's limiter is kept as the
-- policy that it counts for, and `cache_namespace`, a fresh identifier, is left out.
pub mod Prefix
pub mod Deny
pub mod Upstream
use lagos.Prelude.{
  ℕ, suc, ◌+◌, ◌==◌, leb, ltb, if◌then◌else◌, Bool, true, false, not, ◌&&◌, ◌||◌, Option, none,
  some, List, [], ◌∷◌, ◌++◌, map, any,
}
use lagos.Text.{
  Text, codes, is_empty, starts_with_char, byte_len, join, strip_prefix, text_eq,
  to_ascii_lowercase, to_ascii_uppercase, lower_char, trim, is_lower, is_upper,
}
use lagos.Path.{normalize_proxy_path}
use lagos.Retry
use lagos.Retry.{RetryConfig, Policy}
use lagos.Config.{RateLimitConfig, ConcurrencyConfig, RouteDefaults}
use lagos.Binding
use lagos.Binding.{Binding}
use lagos.Routes.Host
use lagos.Routes.Host.{HostPattern, HostError, ok, err, normalize_host}

pub data AuthTier : Type 0 where
  public optional machine required : AuthTier

unfoldable pub verifies : AuthTier → Bool
verifies optional = true
verifies required = true
verifies _ = false

unfoldable pub is_machine : AuthTier → Bool
is_machine machine = true
is_machine _ = false

pub data PolicyOrigin : Type 0 where
  route global_defaults built_in : PolicyOrigin

pub record RouteConfig : Type 0 where
  pub id : Text
  pub host : List Text
  pub hosts : List HostPattern
  pub prefix : Text
  pub upstream : Text
  pub methods : List Text
  pub strip_prefix : Bool
  pub enabled : Bool
  pub bind : List (Text × Text)
  pub bindings : List Binding
  pub retry : Option RetryConfig
  pub retry_policy : Option Policy
  pub rate_limit : Option RateLimitConfig
  pub limiter : Option RateLimitConfig
  pub concurrency : Option ConcurrencyConfig
  pub auth : AuthTier
  pub methods_origin : PolicyOrigin
  pub retry_origin : PolicyOrigin
  pub rate_limit_origin : PolicyOrigin

unfoldable pub matches_method : RouteConfig → Text → Bool
matches_method r normalized = is_empty r.methods || any (λ m. text_eq m normalized) r.methods

host_matches : List HostPattern → Option Text → Bool
host_matches hosts none = false
host_matches hosts (some host) = any (λ pattern. Host.matches pattern host) hosts

unfoldable pub matches_host : RouteConfig → Option Text → Bool
unfolding host_matches
matches_host r normalized = is_empty r.hosts || host_matches r.hosts normalized

-- `rest.strip_prefix('/').unwrap_or(path)`
after_slash : Text → Text → Text
after_slash path [] = path
after_slash path (c ∷ rest) = if c == b'/' then rest else path

unfoldable pub upstream_path : RouteConfig → Text → Text
unfolding after_slash
upstream_path r path = if not r.strip_prefix then path else elim (strip_prefix path r.prefix) [
  | none ↦ path
  | some rest ↦ if is_empty rest then [] else after_slash path rest
]

unfoldable pub under_prefix : Text → Text → Bool
under_prefix path prefix = elim (strip_prefix path prefix) [
  | none ↦ false
  | some rest ↦ is_empty rest || starts_with_char b'/' rest
]

unfoldable pub fold_case : ℕ → ℕ
unfolding lower_char
fold_case c =
    if c == 0x130 || c == 0x131
    then b'i'
    else if c == 0x17f
    then b's'
    else if c == 0x212a
    then b'k'
    else lower_char c

unfoldable pub under_prefix_ignore_case : Text → Text → Bool
under_prefix_ignore_case rest [] = is_empty rest || starts_with_char b'/' rest
under_prefix_ignore_case [] (p ∷ ps) = false
under_prefix_ignore_case (c ∷ cs) (p ∷ ps) =
    fold_case c == fold_case p && under_prefix_ignore_case cs ps

-- What `RouteTable::build_with` reports of a route, named by its id; the texts are left out.
pub data BuildError : Type 0 where
  bad_host : Text → HostError → BuildError
  no_requests no_concurrency bad_binding : Text → BuildError

-- The table without its lookup index, which `Routes.Index` adds.
pub record RouteTable : Type 0 where
  pub deny_prefixes : List Text
  pub routes : List RouteConfig
  pub errors : List BuildError

unfoldable pub is_denied : RouteTable → Text → Bool
is_denied table path =
    any (λ d. under_prefix_ignore_case (normalize_proxy_path path) d) table.deny_prefixes

-- `ascii_cased`: folding only where a byte needs it.
unfoldable pub ascii_cased : Text → (ℕ → Bool) → (Text → Text) → Text
ascii_cased raw needs_fold fold = if any needs_fold raw then fold raw else raw

unfoldable pub cased_method : Text → Text
unfolding ascii_cased
cased_method method = ascii_cased method is_lower to_ascii_uppercase

unfoldable pub cased_host : Option Text → Option Text
unfolding ascii_cased
cased_host none = none
cased_host (some h) = some (ascii_cased (normalize_host h) is_upper to_ascii_lowercase)

-- `iter().find(…)`
unfoldable pub find_route : (RouteConfig → Bool) → List RouteConfig → Option RouteConfig
find_route p [] = none
find_route p (r ∷ rs) = let rest = find_route p rs in if p r then some r else rest

-- The predicate of the linear scan.
unfoldable pub serves : Text → Text → Option Text → RouteConfig → Bool
serves p m h r = under_prefix p r.prefix && matches_method r m && matches_host r h

-- `match_request` on a table that has no index.
unfoldable pub scan_request : List RouteConfig → Option Text → Text → Text → Option RouteConfig
scan_request routes host path method =
    find_route (serves (normalize_proxy_path path) (cased_method method) (cased_host host)) routes

-- `partition_by_listener`
unfoldable pub keep_tier : (AuthTier → Bool) → List RouteConfig → List RouteConfig
keep_tier p [] = []
keep_tier p (r ∷ rs) = let rest = keep_tier p rs in if p r.auth then r ∷ rest else rest

unfoldable pub partition_by_listener : RouteTable → RouteTable × RouteTable
partition_by_listener table = (
  record {
    deny_prefixes = table.deny_prefixes;
    routes = keep_tier (λ t. not (is_machine t)) table.routes;
    errors = table.errors;
  },
  record { deny_prefixes = []; routes = keep_tier is_machine table.routes; errors = table.errors },
)
