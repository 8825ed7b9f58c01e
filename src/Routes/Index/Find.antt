-- ===== src/Routes/Index/Find.antt =====
-- `PrefixIndex::find` of routes/index.rs against the linear scan of routes/mod.rs.
use lagos.Prelude.{
  ℕ, suc, ◌≡◌, ◌≢◌, refl, sym, ap, ◌∙◌, leb, if◌then◌else◌, false, Option, none, List, [], ◌∷◌,
  get_elem?, length, Bool-cases, inl, inr, arith,
}
use lagos.Text.{Text, is_empty, split, starts_with_char, strip_prefix}
use lagos.Text.Splitting.{split-ne-nil}
use lagos.Path.{normalize_proxy_path}
use lagos.Routes.Table.{
  RouteConfig, RouteTable, under_prefix, serves, cased_method, cased_host, scan_request,
}
use lagos.Routes.Index.{
  segments_of, build_nodes, build, consider_routes, consider, walk_path, best_position, find,
  match_request,
}
use lagos.Routes.Index.Tree.{content}
use lagos.Routes.Index.Descent.{segments_eq}
use lagos.Routes.Index.Content.{positions, content-build_nodes}
use lagos.Routes.Index.First.{select, first, better, find_route-first, first_cong}
use lagos.Routes.Index.Segments.{
  any_beginning_and, any_beginning-under_prefix, normalize_proxy_path-starts,
}
use lagos.Routes.Index.Search.{
  admits, visit, visit_cong, consider-routes_at, content_here, walk_path-visit,
  consider_routes-first, visit-first,
}

positions-select :
    (rs : List RouteConfig) (i : ℕ) (ss : List Text)
    → positions i ss rs ≡ select i (λ r. segments_eq (segments_of r.prefix) ss) rs
unfolding positions select
positions-select [] i ss = refl
positions-select (r ∷ rs) i ss =
    ap (λ (l : List ℕ). if segments_eq (segments_of r.prefix) ss then i ∷ l else l)
      (positions-select rs (suc i) ss)

module _ (routes : List RouteConfig) (method : Text) (host : Option Text) where
  at_path :
      (ss : List Text)
      → content (build_nodes routes) 0 ss
        ≡ select 0 (λ r. segments_eq (segments_of r.prefix) ss) routes
  at_path ss = content-build_nodes routes ss ∙ positions-select routes 0 ss

  nothing_yet : (rs : List RouteConfig) (i : ℕ) → none ≡ first i (λ r. false) rs
  unfolding first
  nothing_yet [] i = refl
  nothing_yet (r ∷ rs) i = nothing_yet rs (suc i)

  at_root : (prefix : Text) → segments_eq (segments_of prefix) [] ≡ under_prefix [] prefix
  unfolding segments_of under_prefix strip_prefix segments_eq
  at_root [] = refl
  at_root (p ∷ ps) = ended (split b'/' (p ∷ ps)) (split-ne-nil b'/' (p ∷ ps))
    where
      ended : (ss : List Text) → ss ≢ [] → segments_eq ss [] ≡ false
      ended [] n = absurd (n refl)
      ended (s ∷ ss) n = refl

  empty_path :
      consider routes method host (build_nodes routes) 0 none
      ≡ first 0 (serves [] method host) routes
  unfolding serves admits
  empty_path =
      consider-routes_at routes method host (build_nodes routes) 0 none
      ∙ ap (λ (l : List ℕ). consider_routes routes method host l none)
          (sym (content_here routes method host (build_nodes routes) 0) ∙ at_path [])
      ∙ consider_routes-first routes method host (λ r. segments_eq (segments_of r.prefix) []) routes
          0 none (λ k. ap (get_elem? routes) (omega arith))
      ∙ (unfold better in first_cong _ _ routes 0 (λ r. ground (arith, at_root r.prefix)))

  long_path :
      (path : Text)
      → starts_with_char b'/' path ≡ false
      → is_empty path ≡ false
      → walk_path routes method host (build_nodes routes) 0 (split b'/' path) none
        ≡ first 0 (serves path method host) routes
  unfolding serves admits
  long_path path h k =
      let test = λ (u : List Text) (r : RouteConfig). segments_eq (segments_of r.prefix) u in
      let ss = split b'/' path in
      walk_path-visit routes method host (build_nodes routes) ss 0 none
      ∙ visit_cong routes method host (content (build_nodes routes) 0)
          (λ u. select 0 (test u) routes) ss none at_path
      ∙ ap (visit routes method host (λ u. select 0 (test u) routes) ss) (nothing_yet routes 0)
      ∙ visit-first routes method host test ss (λ r. false)
      ∙ first_cong _ _ routes 0 (λ r. ground (
        arith,
        any_beginning_and (admits routes method host r) (λ u. test u r) ss,
        any_beginning-under_prefix path r.prefix h k,
      ))

  -- The search finds the position of the first route that the linear scan would take.
  best_position-first :
      (path : Text)
      → starts_with_char b'/' path ≡ false
      → best_position routes method host (build_nodes routes) path
        ≡ first 0 (serves path method host) routes
  unfolding best_position
  best_position-first [] h = empty_path
  best_position-first (c ∷ path) h = long_path (c ∷ path) h refl

-- Up to thirty-two routes there is no index, and above there is one: in both cases the route that
-- a request is matched to is the one that a linear scan of the table finds, the first whose prefix
-- the path is under and whose methods and hosts admit the request.
pub match_request-scan_request :
    (table : RouteTable) (host : Option Text) (path method : Text)
    → match_request table host path method ≡ scan_request table.routes host path method
unfolding match_request build scan_request find
match_request-scan_request table host path method =
    let found =
      best_position-first table.routes (cased_method method) (cased_host host)
        (normalize_proxy_path path) (normalize_proxy_path-starts path) in
    let route =
      find_route-first (serves (normalize_proxy_path path) (cased_method method) (cased_host host))
        table.routes 0 table.routes (λ k. ap (get_elem? table.routes) (omega arith)) in
    elim (Bool-cases (leb (length table.routes) 32)) [
      | inl e ↦ ground arith
      | inr e ↦ ground (arith, found, route)
    ]
