-- ===== src/Routes/Index.antt =====
-- The prefix index, routes/index.rs: an arena of nodes, each with its children by segment and the
-- positions of the routes whose prefix ends there. A `HashMap` is an association list.
pub mod Arena
pub mod Tree
pub mod Descent
pub mod Content
pub mod First
pub mod Segments
pub mod Search
pub mod Find
use lagos.Prelude.{
  ℕ, suc, ◌+◌, leb, if◌then◌else◌, Bool, true, false, not, ◌&&◌, ◌||◌, Option, none, some, List, [],
  ◌∷◌, ◌++◌, length, get_elem?, modify,
}
use lagos.Text.{Text, is_empty, split, text_eq}
use lagos.Path.{normalize_proxy_path}
use lagos.Routes.Table.{
  RouteConfig, RouteTable, matches_method, matches_host, cased_method, cased_host, scan_request,
}

pub record Node : Type 0 where
  pub children : List (Text × ℕ)
  pub routes : List ℕ

abbrev pub empty_node : Node
empty_node = record { children = []; routes = [] }

unfoldable pub child_of : Text → List (Text × ℕ) → Option ℕ
child_of segment [] = none
child_of segment ((s, n) ∷ rest) =
    let more = child_of segment rest in if text_eq s segment then some n else more

-- `nodes.get(n).and_then(|n| n.children.get(segment))`
pub child_at : List Node → ℕ → Text → Option ℕ
unfolding child_of
child_at nodes n segment = elim (get_elem? nodes n) [
  | none ↦ none
  | some node ↦ child_of segment node.children
]

pub add_child : Text → ℕ → Node → Node
add_child segment child node = record node { children = (segment, child) ∷ node.children }

pub add_route : ℕ → Node → Node
add_route position node = record node { routes = node.routes ++ position ∷ [] }

-- The node that is created for a segment of `current` that has none.
pub allocate : List Node → ℕ → Text → List Node
unfolding add_child
allocate nodes current segment =
    modify (nodes ++ empty_node ∷ []) current (add_child segment (length nodes))

-- The loop over the segments of a prefix, which creates what is missing.
pub descend : List Node → ℕ → List Text → List Node × ℕ
descend nodes current [] = (nodes, current)
descend nodes current (segment ∷ segments) = elim (child_at nodes current segment) [
  | some child ↦ descend nodes child segments
  | none ↦ descend (allocate nodes current segment) (length nodes) segments
]

-- The segments that a prefix descends by.
unfoldable pub segments_of : Text → List Text
segments_of prefix = if is_empty prefix then [] else split b'/' prefix

pub insert_route : List Node → ℕ → Text → List Node
insert_route nodes position prefix =
    let (grown, current) = descend nodes 0 (segments_of prefix) in
    modify grown current (add_route position)

pub insert_routes : List Node → ℕ → List RouteConfig → List Node
insert_routes nodes position [] = nodes
insert_routes nodes position (r ∷ rs) =
    insert_routes (insert_route nodes position r.prefix) (suc position) rs

pub build_nodes : List RouteConfig → List Node
build_nodes routes = insert_routes (empty_node ∷ []) 0 routes

unfoldable pub build : List RouteConfig → Option (List Node)
build routes = if leb (length routes) 32 then none else some (build_nodes routes)

module _ (routes : List RouteConfig) (method : Text) (host : Option Text) where
  pub accepts : ℕ → Bool
  accepts position = elim (get_elem? routes position) [
    | none ↦ false
    | some r ↦ matches_method r method && matches_host r host
  ]

  abbrev pub at_or_after : ℕ → Option ℕ → Bool
  at_or_after position none = false
  at_or_after position (some best) = leb best position

  -- The loop of `consider` over the positions of a node.
  pub consider_routes : List ℕ → Option ℕ → Option ℕ
  consider_routes [] best = best
  consider_routes (position ∷ positions) best =
      let rest = consider_routes positions best in
      if at_or_after position best then best else if accepts position then some position else rest

  pub consider : List Node → ℕ → Option ℕ → Option ℕ
  consider nodes n best = elim (get_elem? nodes n) [
    | none ↦ best
    | some node ↦ consider_routes node.routes best
  ]

  -- The loop of `find` over the segments of the path, which stops where a child is missing.
  pub walk_path : List Node → ℕ → List Text → Option ℕ → Option ℕ
  walk_path nodes current [] best = best
  walk_path nodes current (segment ∷ segments) best = elim (child_at nodes current segment) [
    | none ↦ best
    | some child ↦ walk_path nodes child segments (consider nodes child best)
  ]

  pub best_position : List Node → Text → Option ℕ
  best_position nodes path =
      if is_empty path then consider nodes 0 none else walk_path nodes 0 (split b'/' path) none

  pub find : List Node → Text → Option RouteConfig
  find nodes path = elim (best_position nodes path) [
    | none ↦ none
    | some position ↦ get_elem? routes position
  ]

-- `match_request`, on a table whose index was built from its routes.
pub match_request : RouteTable → Option Text → Text → Text → Option RouteConfig
match_request table host path method = elim (build table.routes) [
  | some nodes ↦
      find table.routes (cased_method method) (cased_host host) nodes (normalize_proxy_path path)
  | none ↦ scan_request table.routes host path method
]
