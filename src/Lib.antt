-- ===== src/Lib.antt =====
-- Lagos is an API gateway on Pingora. This library models the parts of crates/lagos-core/src that
-- decide what happens to a request, and states what makes each of them correct.
--
-- The parts and their files:
-- - Prelude: Boolean tests, lists and machine integers over the native numbers.
-- - Text: Rust's `str` as the list of its characters' code points, with the methods of the standard
--   library that the gateway calls, and the laws of splitting, trimming and folding case.
-- - Breaker: the circuit breaker, breaker.rs. `allow_at`, `record_success`, `record_failure_at` and
--   `cancel` are the methods of those names; the state behind the mutex is the record `Inner`, and an
--   execution is the list of calls in the order in which they take the lock.
-- - Path: canonical request paths, path.rs.
-- - Retry: the retry policy, retry.rs, and the handlers `fail_to_connect` and `error_while_proxy` of
--   proxy.rs that ask it; `upstream_peer` is what that callback leaves to them.
-- - Config: the configuration records that routes carry, config/mod.rs.
-- - Binding: binding a request value to the verified caller, binding.rs and the claims of auth/mod.rs.
-- - Routes/Host: host patterns and the `Host` header, routes/mod.rs.
-- - Routes/Table: routes, what they match, the deny list and the split by listener, routes/mod.rs.
-- - Routes/Index: the prefix index of large tables, routes/index.rs: Arena, Tree, Descent and Content
--   are about its construction, First, Segments, Search and Find about the search.
-- - Routes/Build: building the table from the groups of the configuration, `RouteTable::build_with`.
-- - Cache: the bounded response cache, cache/storage.rs: Fills, Writing and Budget are about fills that
--   interleave, Publishing about what a fill stores, Reading about reading it back. Cache/Policy is
--   cache/policy.rs, what may be shared and under which key; Framing, Utf8, Sharing and Eligible are
--   about it.
-- - Concurrency: the slots of requests in flight, concurrency.rs; an execution is the list of requests
--   in the order in which they reach the counters.
-- - Cors: cross-origin resource sharing, cors.rs.
-- - Csrf: origin protection of cookie credentials, csrf.rs.
-- - Cookies: bearer tokens and token cookies, auth/mod.rs.
-- - Interpolate: the expansion of `${VAR}` in configuration text, config/interpolate.rs: the scanner of a
--   line is `expand_from` and `expand_body`, Lines has comments, block scalars and whole documents,
--   Resolving what locates values in the masked document; Steps, Invariants, Masking, Inspecting,
--   Newlines, Supplied, Escaping, Prefix and Markers are about them.
-- - RateLimit: rate limiting, ratelimit/mod.rs: a key's window in the root, the limiter and its backends
--   in Limiter, keys in Keys; Quota and Scoping are about them. Shared has the counters that replicas
--   share, ratelimit/shared.rs: a tick is `pending`, what the backend answers, and `fold_reply`, in
--   Shared/Sync; Late, Passes, Ticks and Replica are about them, Urls and Redaction about URLs. Resp and
--   Replies are about ratelimit/resp.rs, the commands to the server and its replies.
-- - Accept: limits on new connections, accept.rs; Flood is about what one address opens.
-- - Trace: the `traceparent` header and the context of a hop, trace.rs; Hex, Hops and Incoming are about
--   printing and parsing it, along a chain of gateways too.
-- - Identity: what upstreams are told of the verified caller, identity.rs; `describe_caller` is the call of
--   it in proxy.rs. Removals and Forged are about headers that a client sends, Safe about the values that
--   are set, Blame about the errors.
-- - Headers: header plans and forwarded chains, headers.rs, with what proxy.rs does with a plan.
--
-- How they interact: a request path is canonicalized before the route table matches it; the deny list
-- is asked before the table; a route's bindings are checked once the caller is verified. A request
-- takes its concurrency slot before the breaker is asked, so that one refused here is never counted as
-- a trial; the breaker is told the outcome after the retries. The client address that headers.rs
-- computes is also the key of the limiters. The table of the code keeps its prefix index in a field;
-- here `match_request` builds the index from the table's routes, as every constructor of a table does.
--
-- The store of moka is what it holds: an eviction is a step of its own, `evict`, which may drop any
-- entries between two checks.
--
-- Machine integers are native numbers: saturating addition names its largest value, and saturating
-- subtraction is the subtraction of the natural numbers. A moment and a duration are numbers of
-- nanoseconds. The floating point numbers are given by their operations. The crates percent-encoding,
-- http, moka, serde_json, jsonwebtoken, pingora-limits, uuid, reqwest and Pingora, and the address
-- parsers of the standard library, are arguments of the definitions that use them. Loops over
-- collections are structural; the decoding passes are counted down from the source's constant; the
-- reads of a cached body are counted by its length, which is enough as each returns a byte at least; a
-- number is printed with fuel for twenty digits, which a `u64` never exceeds.
--
-- Not modelled: sockets, TLS, metrics and logs, which are effects outside the process; the parsing and
-- validation of YAML, but for variables; token verification and key sets, which are calls of libraries
-- for the most part; load balancing and name resolution; extension hooks; the texts of answers; the
-- command line. The callbacks of proxy.rs are modelled where a part above names them.
pub mod Accept
pub mod Binding
pub mod Breaker
pub mod Cache
pub mod Concurrency
pub mod Config
pub mod Cookies
pub mod Cors
pub mod Csrf
pub mod Headers
pub mod Identity
pub mod Interpolate
pub mod Path
pub mod Prelude
pub mod RateLimit
pub mod Retry
pub mod Routes
pub mod Text
pub mod Trace
