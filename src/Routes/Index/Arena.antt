-- ===== src/Routes/Index/Arena.antt =====
-- The arena of routes/index.rs node by node: children and routes after each change.
use lagos.Prelude.{
  ℕ, zero, suc, ◌+◌, ◌==◌, ◌≡◌, ◌<◌, refl, ap, ◌∙◌, if◌then◌else◌, none, some, List, [], ◌∷◌, ◌++◌,
  length, length-append, get_elem?, modify, arith,
}
use lagos.Text.{Text, text_eq}
use lagos.Routes.Index.{Node, empty_node, child_at, add_child, add_route, allocate}

-- The routes of a node, none if there is no such node.
unfoldable pub routes_at : List Node → ℕ → List ℕ
routes_at nodes n = elim (get_elem? nodes n) [ none ↦ [] | some node ↦ node.routes ]

module _ (segment : Text) where
  child_at_push :
      (nodes : List Node) (n : ℕ)
      → child_at (nodes ++ empty_node ∷ []) n segment ≡ child_at nodes n segment
  unfolding child_at
  child_at_push [] zero = refl
  child_at_push [] (suc n) = refl
  child_at_push (x ∷ nodes) zero = refl
  child_at_push (x ∷ nodes) (suc n) = child_at_push nodes n

  pub child_at-add_route :
      (nodes : List Node) (m n position : ℕ)
      → child_at (modify nodes m (add_route position)) n segment ≡ child_at nodes n segment
  unfolding child_at add_route
  child_at-add_route [] m n p = refl
  child_at-add_route (x ∷ nodes) zero zero p = refl
  child_at-add_route (x ∷ nodes) zero (suc n) p = refl
  child_at-add_route (x ∷ nodes) (suc m) zero p = refl
  child_at-add_route (x ∷ nodes) (suc m) (suc n) p = child_at-add_route nodes m n p

  child_at-add_child :
      (nodes : List Node) (current n child : ℕ) (s : Text)
      → current < length nodes
      → child_at (modify nodes current (add_child s child)) n segment ≡ (
          if n == current
          then (if text_eq s segment then some child else child_at nodes current segment)
          else child_at nodes n segment)
  unfolding child_at add_child
  child_at-add_child [] current n child s h = elim h [ ]
  child_at-add_child (x ∷ nodes) zero zero child s h = ground arith
  child_at-add_child (x ∷ nodes) zero (suc n) child s h = ground arith
  child_at-add_child (x ∷ nodes) (suc current) zero child s h = ground arith
  child_at-add_child (x ∷ nodes) (suc current) (suc n) child s h =
      ground (arith, child_at-add_child nodes current n child s (omega arith))

routes_at_push :
    (nodes : List Node) (n : ℕ) → routes_at (nodes ++ empty_node ∷ []) n ≡ routes_at nodes n
unfolding routes_at
routes_at_push [] zero = refl
routes_at_push [] (suc n) = refl
routes_at_push (x ∷ nodes) zero = refl
routes_at_push (x ∷ nodes) (suc n) = routes_at_push nodes n

routes_at-add_child :
    (nodes : List Node) (current n child : ℕ) (s : Text)
    → routes_at (modify nodes current (add_child s child)) n ≡ routes_at nodes n
unfolding routes_at add_child
routes_at-add_child [] current n child s = refl
routes_at-add_child (x ∷ nodes) zero zero child s = refl
routes_at-add_child (x ∷ nodes) zero (suc n) child s = refl
routes_at-add_child (x ∷ nodes) (suc current) zero child s = refl
routes_at-add_child (x ∷ nodes) (suc current) (suc n) child s =
    routes_at-add_child nodes current n child s

pub routes_at-add_route :
    (nodes : List Node) (m n position : ℕ)
    → m < length nodes
    → routes_at (modify nodes m (add_route position)) n
      ≡ (if n == m then routes_at nodes n ++ position ∷ [] else routes_at nodes n)
unfolding routes_at add_route
routes_at-add_route [] m n p h = elim h [ ]
routes_at-add_route (x ∷ nodes) zero zero p h = ground arith
routes_at-add_route (x ∷ nodes) zero (suc n) p h = ground arith
routes_at-add_route (x ∷ nodes) (suc m) zero p h = ground arith
routes_at-add_route (x ∷ nodes) (suc m) (suc n) p h =
    ground (arith, routes_at-add_route nodes m n p (omega arith))

pub length-modify :
    (nodes : List Node) (m : ℕ) (f : Node → Node) → length (modify nodes m f) ≡ length nodes
length-modify [] m f = refl
length-modify (x ∷ nodes) zero f = refl
length-modify (x ∷ nodes) (suc m) f = ap suc (length-modify nodes m f)

pub child_at_bound :
    (nodes : List Node) (n c : ℕ) (s : Text) → child_at nodes n s ≡ some c → n < length nodes
unfolding child_at
child_at_bound [] n c s h = cc
child_at_bound (x ∷ nodes) zero c s h = omega arith
child_at_bound (x ∷ nodes) (suc n) c s h = omega (arith, child_at_bound nodes n c s h)

pub routes_at_end : (nodes : List Node) → routes_at nodes (length nodes) ≡ []
unfolding routes_at
routes_at_end [] = refl
routes_at_end (x ∷ nodes) = routes_at_end nodes

pub child_at_end : (nodes : List Node) (s : Text) → child_at nodes (length nodes) s ≡ none
unfolding child_at
child_at_end [] s = refl
child_at_end (x ∷ nodes) s = child_at_end nodes s

module _ (nodes : List Node) (current : ℕ) (segment : Text) (inside : current < length nodes) where
  pub length-allocate : length (allocate nodes current segment) ≡ length nodes + 1
  unfolding allocate
  length-allocate =
      length-modify (nodes ++ empty_node ∷ []) current (add_child segment (length nodes))
      ∙ length-append nodes (empty_node ∷ [])

  pub child_at-allocate :
      (n : ℕ) (s : Text)
      → child_at (allocate nodes current segment) n s ≡ (
          if n == current
          then (if text_eq segment s then some (length nodes) else child_at nodes current s)
          else child_at nodes n s)
  unfolding allocate
  child_at-allocate n s =
      child_at-add_child s (nodes ++ empty_node ∷ []) current n (length nodes) segment
        (omega (arith, length-append nodes (empty_node ∷ [])))
      ∙ ground (arith, child_at_push s nodes n, child_at_push s nodes current)

  pub routes_at-allocate :
      (n : ℕ) → routes_at (allocate nodes current segment) n ≡ routes_at nodes n
  unfolding allocate
  routes_at-allocate n =
      routes_at-add_child (nodes ++ empty_node ∷ []) current n (length nodes) segment
      ∙ routes_at_push nodes n
